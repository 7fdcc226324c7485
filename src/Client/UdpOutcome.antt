-- ===== src/Client/UdpOutcome.antt =====
-- The result of `udp_dns_search`, where its reads stay inside the caller's buffer.
use dnscache.Common.{
  ℕ, suc, ◌+◌, ◌*◌, ◌^◌, ◌≤◌, ◌<◌, ◌≡◌, refl, some, List, [], ◌∷◌, ◌++◌, length, All, map, drop,
  get_elem?-append, replicate, arith, append_assoc, length-append, take_all,
}
use dnscache.Common.Bytes.{IsString, le32, string_at, poke_over}
use dnscache.Protocol.{encode, head_length}
use dnscache.Client.Request.{success}
use dnscache.Client.RoundTrip.{AllAllowed, lower, length-encode-lower, starts, pre_do_lem}
use dnscache.Client.Delivery.{
  le32s, AllWords, zip_calls, call_of-starts, first_word, le32s_assoc, next_word,
}
use dnscache.Client.Replies.{Call, word, call_of, deliver_udp, udp_replies}
use dnscache.Client.Search.{prepared, udp_dns_search}
use dnscache.Client.TcpSearch.{length-le32s}
use dnscache.Client.Outcome.{All-lower, request, length-map-lower, starts-lower, sent_and_lem}
use dnscache.Client.UdpStrings.{HasStrings, HasStrings-encode}

deliver_udp_step :
    (left i count ip : ℕ) (s index buf retbuf : List ℕ) (c : Call) (calls : List Call)
    → word retbuf i ≡ some ip
    → call_of index i buf (some ip) ≡ some c
    → string_at buf count ≡ some s
    → deliver_udp left (i + 1) (count + (length s + 1)) index buf retbuf ≡ some calls
    → deliver_udp (suc left) i count index buf retbuf ≡ some (c ∷ calls)
unfolding deliver_udp
deliver_udp_step left i count ip s index buf retbuf c calls w k e more =
    rw (deliver_udp, w, k, e, more) refl

deliver_udp_lem :
    (earlier names : List (List ℕ)) (ips tail front rest : List ℕ) (i count : ℕ)
    → All IsString (earlier ++ names)
    → length ips ≡ length names
    → AllWords ips
    → length earlier ≡ i
    → length front ≡ head_length + 4 * i
    → HasStrings (length names) (encode (earlier ++ names) ++ tail) count
    → deliver_udp
        (length names)
        i
        count
        (starts 0 (earlier ++ names))
        (encode (earlier ++ names) ++ tail)
        (front ++ (le32s ips ++ rest))
      ≡ some (zip_calls names ips)
unfolding deliver_udp
deliver_udp_lem earlier [] ips tail front rest i count a e w n l h = refl
deliver_udp_lem earlier (name ∷ names) [] tail front rest i count a e w n l h = absurd (omega arith)
deliver_udp_lem earlier (name ∷ names) (ip ∷ ips) tail front rest i count a e w n l h =
    let (s, here, later) = h in
    let all = append_assoc earlier (name ∷ []) names in
    let first = first_word front rest ips i ip l w.0 in
    let next =
      deliver_udp_lem (earlier ++ name ∷ []) names ips tail (front ++ le32 ip) rest (i + 1)
        (count + (length s + 1)) (rw all a) (omega arith) w.1
        (omega (arith, n, length-append earlier (name ∷ []))) (next_word front i ip l)
        (rw all later) in
    let more = rw (all, ← le32s_assoc front rest ips ip) at next in
    deliver_udp_step (length names) i count ip s _ _ _ _ (zip_calls names ips) first
      (call_of-starts (earlier ++ name ∷ names) [] tail name i ip a
        (rw (← n) (get_elem?-append earlier names name)))
      here more

module _ (name : List ℕ) (rest : List (List ℕ)) (zeros : ℕ)
    (allowed : All AllAllowed (name ∷ rest)) where
  udp_replies_lem :
      (head ips retbuf : List ℕ)
      → length head ≡ head_length
      → length ips ≡ length (name ∷ rest)
      → AllWords ips
      → length (name ∷ rest) * 8 + head_length ≤ length retbuf
      → length (name ∷ rest) ≤ zeros
      → head_length + length (name ∷ rest) * 5 ≤ length (encode (name ∷ rest)) + zeros
      → udp_replies
          (head ++ le32s ips)
          (length (name ∷ rest))
          (starts 0 (name ∷ rest))
          (encode (map lower (name ∷ rest)) ++ replicate zeros 0)
          retbuf
        ≡ some (zip_calls (map lower (name ∷ rest)) ips)
  unfolding udp_replies
  udp_replies_lem head ips retbuf hl il words room some_zeros far =
      let names = name ∷ rest in
      let lowered = map lower names in
      let count = length-map-lower names in
      let size : length (head ++ le32s ips) ≡ head_length + 4 * length names =
        omega (arith, length-append head (le32s ips), length-le32s ips) in
      let whole = take_all (head_length + length names * 4) (head ++ le32s ips) (omega arith) in
      let over = poke_over retbuf (head ++ le32s ips) (omega arith) in
      let strings =
        HasStrings-encode (lower name) (map lower rest) (length lowered) zeros
          (length (head ++ le32s ips)) (omega arith) (omega (arith, length-encode-lower names)) in
      let left = drop (length (head ++ le32s ips)) retbuf in
      let delivered =
        deliver_udp_lem [] lowered ips (replicate zeros 0) head left 0 (length (head ++ le32s ips))
          (All-lower names allowed) (omega arith) words refl (omega arith) strings in
      rw (udp_replies, whole, over, whole, append_assoc head (le32s ips) left)
        (rw (count, starts-lower 0 names) at delivered)

  -- On one or more names of allowed bytes, with the head shorter than 2^32 bytes, where all is sent, the server answers with a head and one
  -- address a name, and the caller's buffer goes on behind the names with at least as many zeros
  -- as there are names, and far enough for a reply and one more byte a name, `udp_dns_search`
  -- succeeds: it has sent head and lowered names, and calls `f` for each name in order with its
  -- address.
  pub udp_dns_search_lem :
      (head ips : List ℕ) (written : List ℕ → ℕ) (fresh : ℕ → List ℕ)
      → let names = name ∷ rest in
        head_length + length (encode names) < 2 ^ 32
        → length head ≡ head_length
        → length ips ≡ length names
        → AllWords ips
        → written (request names) ≡ length (request names)
        → ((n : ℕ) → length (fresh n) ≡ n)
        → length names ≤ zeros
        → head_length + length names * 5 ≤ length (encode names) + zeros
        → udp_dns_search
            (encode names ++ replicate zeros 0)
            (length names)
            written
            (head ++ le32s ips)
            fresh
          ≡ some (record {
            status = success;
            sent = request names;
            calls = zip_calls (map lower names) ips;
          })
  unfolding udp_dns_search prepared
  udp_dns_search_lem head ips written fresh small hl il words sends room some_zeros far =
      let names = name ∷ rest in
      let lowered = map lower names in
      let n = length-map-lower names in
      let got =
        udp_replies_lem head ips (fresh (length names * 2 * 4 + head_length)) hl il words
          (omega (arith, room (length names * 2 * 4 + head_length))) some_zeros far in
      rw (udp_dns_search, prepared, pre_do_lem name rest (replicate zeros 0) allowed small)
        (sent_and_lem names (replicate zeros 0) written
          (λ w.
            udp_replies (head ++ le32s ips) (length names) w.index w.buf
              (fresh (length names * 2 * 4 + head_length)))
          (zip_calls lowered ips) sends got)
