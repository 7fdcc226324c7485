-- ===== src/Client/Outcome.antt =====
-- The result of `tcp_dns_search` and of `udp_dns_search`.
use dnscache.Common.{
  ℕ, suc, ◌+◌, ◌*◌, ◌^◌, ◌<◌, ◌≡◌, ◌≢◌, refl, sym, ap, ◌∙◌, true, Option, some, List, [], ◌∷◌, ◌++◌,
  ◌==◌, length, All, map, concat, arith, append-nil, length-append,
}
use dnscache.Common.Bytes.{IsString, le32}
use dnscache.Protocol.{encode, head_length, first_without_error}
use dnscache.Server.Tcp.Receive.{IsChunk, request_front}
use dnscache.Client.Request.{Walk, success, message}
use dnscache.Client.RoundTrip.{
  AllAllowed, lower, length-lower, length-encode-lower, starts, pre_do_lem,
}
use dnscache.Client.Exchange.{lower-IsString, message_lem, length-front}
use dnscache.Client.Replies.{Call, tcp_replies}
use dnscache.Client.Search.{sent_and, prepared, tcp_dns_search}
use dnscache.Client.Delivery.{AllWords, zip_calls}
use dnscache.Client.Hits.{hit_calls, miss_count}
use dnscache.Client.SecondReply.{pair_words, IsFound, found_calls}
use dnscache.Client.TcpSearch.{reply, IsFront, tcp_replies_hit, tcp_replies_miss}

pub All-lower : (names : List (List ℕ)) → All AllAllowed names → All IsString (map lower names)
All-lower [] a = a
All-lower (name ∷ names) a = (lower-IsString name a.0, All-lower names a.1)

-- The request for `names`.
abbrev pub request : List (List ℕ) → List ℕ
request names =
    (request_front (head_length + length (encode names)) (le32 1) ++ b'F' ∷ [])
    ++ encode (map lower names)

pub length-map-lower : (names : List (List ℕ)) → length (map lower names) ≡ length names
length-map-lower [] = refl
length-map-lower (name ∷ names) = ap suc (length-map-lower names)

pub length-request :
    (names : List (List ℕ)) → length (request names) ≡ head_length + length (encode names)
length-request names = omega (
  arith,
  length-append (request_front (head_length + length (encode names)) (le32 1) ++ b'F' ∷ [])
      (encode (map lower names)),
  length-front (head_length + length (encode names)),
  length-encode-lower names,
)

-- What `pre_do` leaves for names that are allowed.
abbrev pub prepared_walk : List (List ℕ) → List ℕ → Walk
prepared_walk names tail = record {
  status = success;
  total_length = head_length + length (encode names);
  index = starts 0 names;
  buf = encode (map lower names) ++ tail;
}

pub message-prepared :
    (names : List (List ℕ)) (tail : List ℕ) → message (prepared_walk names tail) ≡ request names
message-prepared names tail =
    message_lem (head_length + length (encode names)) (encode (map lower names)) tail
      (starts 0 names) (ap (λ n. head_length + n) (sym (length-encode-lower names)))

pub starts-lower :
    (start : ℕ) (names : List (List ℕ)) → starts start (map lower names) ≡ starts start names
starts-lower start [] = refl
starts-lower start (name ∷ names) =
    rw (length-lower name) (ap (λ l. start ∷ l) (starts-lower (start + (length name + 1)) names))

pub sent_and_lem :
    (names : List (List ℕ)) (tail : List ℕ) (written : List ℕ → ℕ)
    (replies : Walk → Option (List Call)) (calls : List Call)
    → written (request names) ≡ length (request names)
    → replies (prepared_walk names tail) ≡ some calls
    → sent_and written replies (prepared_walk names tail)
      ≡ some (record { status = success; sent = request names; calls = calls })
unfolding sent_and
sent_and_lem names tail written replies calls w r =
    let whole : (written (request names) == head_length + length (encode names)) ≡ true =
      ground (arith, length-request names) in
    rw (sent_and, message-prepared names tail, whole, r) refl

module _ (name : List ℕ) (rest : List (List ℕ)) (tail : List ℕ)
    (allowed : All AllAllowed (name ∷ rest))
    (small : head_length + length (encode (name ∷ rest)) < 2 ^ 32) where
  tcp_dns_search_lem :
      (written : List ℕ → ℕ) (chunks : List (List ℕ)) (fresh : ℕ → List ℕ) (calls : List Call)
      → let names = name ∷ rest in
        let lowered = map lower names in
        written (request names) ≡ length (request names)
        → tcp_replies chunks
            (length lowered)
            (starts 0 lowered)
            (encode lowered ++ tail)
            (fresh (length lowered * 2 * 4 + head_length))
          ≡ some calls
        → tcp_dns_search (encode names ++ tail) (length names) true written chunks fresh
          ≡ some (record { status = success; sent = request names; calls = calls })
  unfolding tcp_dns_search prepared
  tcp_dns_search_lem written chunks fresh calls w r =
      let names = name ∷ rest in
      let n = length-map-lower names in
      let r' = rw (n, starts-lower 0 names) at r in
      rw (tcp_dns_search, prepared, pre_do_lem name rest tail allowed small)
        (sent_and_lem names tail written
          (λ w'.
            tcp_replies chunks (length names) w'.index w'.buf
              (fresh (length names * 2 * 4 + head_length)))
          calls w r')

  module _ (ips : List ℕ) (chunks : List (List ℕ)) (front : List ℕ) (flag : ℕ)
      (written : List ℕ → ℕ) (fresh : ℕ → List ℕ) (twelve : IsFront front)
      (same : length ips ≡ length (name ∷ rest)) (words : AllWords ips) (parts : All IsChunk chunks)
      (whole : concat chunks ≡ reply front flag ips)
      (sends : written (request (name ∷ rest)) ≡ length (request (name ∷ rest)))
      (room : (n : ℕ) → length (fresh n) ≡ n) where
    -- On one or more names of allowed bytes, with the head shorter than 2^32 bytes, where the connection stands and all is sent, a first
    -- message without error, in any parts, makes `tcp_dns_search` succeed: it has sent head and
    -- lowered names, and calls `f` for each name in order with its address.
    pub tcp_dns_search_hit :
        flag ≡ first_without_error
        → tcp_dns_search
            (encode (name ∷ rest) ++ tail)
            (length (name ∷ rest))
            true
            written
            chunks
            fresh
          ≡ some (record {
            status = success;
            sent = request (name ∷ rest);
            calls = zip_calls (map lower (name ∷ rest)) ips;
          })
    tcp_dns_search_hit clean =
        let lowered = map lower (name ∷ rest) in
        let size = length-map-lower (name ∷ rest) in
        let got =
          tcp_replies_hit lowered tail (All-lower (name ∷ rest) allowed) ips chunks [] front
            (fresh (length lowered * 2 * 4 + head_length)) flag twelve (same ∙ sym size) words parts
            whole (room (length lowered * 2 * 4 + head_length)) clean in
        tcp_dns_search_lem written chunks fresh (zip_calls lowered ips) sends
          (rw (append-nil chunks) at got)

    -- The same after a first message with an error, with a second message that has the index and
    -- the address of as many names as were missed: `f` is called for the names that were not missed,
    -- in order, then for those of the second message in its order.
    pub tcp_dns_search_miss :
        (found : List (ℕ × Call)) (more : List (List ℕ)) (front' : List ℕ) (flag' : ℕ)
        → flag ≢ first_without_error
        → IsFront front'
        → All (IsFound (map lower (name ∷ rest))) found
        → length found ≡ miss_count ips
        → All IsChunk more
        → concat more ≡ reply front' flag' (pair_words found)
        → tcp_dns_search
            (encode (name ∷ rest) ++ tail)
            (length (name ∷ rest))
            true
            written
            (chunks ++ more)
            fresh
          ≡ some (record {
            status = success;
            sent = request (name ∷ rest);
            calls = hit_calls (map lower (name ∷ rest)) ips ++ found_calls found;
          })
    tcp_dns_search_miss found more front' flag' missed twelve' f count parts' whole' =
        let lowered = map lower (name ∷ rest) in
        let size = length-map-lower (name ∷ rest) in
        tcp_dns_search_lem written (chunks ++ more) fresh
          (hit_calls lowered ips ++ found_calls found) sends
          (tcp_replies_miss lowered tail (All-lower (name ∷ rest) allowed) ips chunks more front
            (fresh (length lowered * 2 * 4 + head_length)) flag twelve (same ∙ sym size) words parts
            whole (room (length lowered * 2 * 4 + head_length)) found front' flag' missed twelve' f
            count parts' whole')
