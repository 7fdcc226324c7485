-- ===== src/Client/TcpSearch.antt =====
-- `tcp_dns_search` of src/client/dc_client.c from the names to the calls of `f`.
use dnscache.Common.{
  ℕ, ◌+◌, ◌-◌, ◌*◌, ◌≤◌, ◌≡◌, ◌≢◌, refl, ap, ◌∙◌, true, some, List, [], ◌∷◌, ◌++◌, ◌==◌, length,
  All, drop, concat, replicate, length-replicate, get_elem?, get_elem?-append, arith, append_assoc,
  append-nil, length-append, ne→==,
}
use dnscache.Common.Bytes.{IsString, le32, length-le32}
use dnscache.Protocol.{encode, head_length, first_without_error}
use dnscache.Server.Tcp.Receive.{IsChunk}
use dnscache.Client.RoundTrip.{starts}
use dnscache.Client.Replies.{Call, receive_reply, second_reply, tcp_replies}
use dnscache.Client.Delivery.{le32s, AllWords, zip_calls, deliver_all_lem}
use dnscache.Client.Receive.{receive_reply_lem}
use dnscache.Client.Hits.{hit_calls, miss_count, deliver_hits_lem}
use dnscache.Client.SecondReply.{pair_words, IsFound, found_calls, deliver_second_lem}

pub length-le32s : (vs : List ℕ) → length (le32s vs) ≡ 4 * length vs
length-le32s [] = refl
length-le32s (v ∷ vs) =
    omega (arith, length-append (le32 v) (le32s vs), length-le32 v, length-le32s vs)

length-pair_words : (found : List (ℕ × Call)) → length (pair_words found) ≡ 2 * length found
length-pair_words [] = refl
length-pair_words (p ∷ found) = omega (arith, length-pair_words found)

miss_count-le : (ips : List ℕ) → miss_count ips ≤ length ips
miss_count-le [] = omega arith
miss_count-le (ip ∷ ips) = ground (arith, miss_count-le ips)

-- A message of the server: a head and words.
abbrev pub reply : (front : List ℕ) (flag : ℕ) → List ℕ → List ℕ
reply front flag vs = (front ++ flag ∷ []) ++ le32s vs

-- A head but for its last byte.
abbrev pub IsFront : List ℕ → Type 0
IsFront front = length front ≡ 12

module _ (front vs : List ℕ) (flag : ℕ) (twelve : IsFront front) where
  length-head : length (front ++ flag ∷ []) ≡ head_length
  length-head = omega (arith, twelve, length-append front (flag ∷ []))

  flag_at : (left : List ℕ) → get_elem? ((front ++ flag ∷ []) ++ left) (head_length - 1) ≡ some flag
  flag_at left =
      rw (append_assoc front (flag ∷ []) left, ← twelve) (get_elem?-append front left flag)

  received :
      (chunks more : List (List ℕ)) (room : List ℕ)
      → All IsChunk chunks
      → concat chunks ≡ reply front flag vs
      → head_length + 4 * length vs ≤ length room
      → (left : List ℕ) × (receive_reply (head_length + 4 * length vs) (chunks ++ more) room 0
          ≡ some ((front ++ flag ∷ []) ++ (le32s vs ++ left), more))
  received chunks more room c e fits =
      let size : length (concat chunks) ≡ head_length + 4 * length vs = omega (
        arith,
        ap length e,
        length-append (front ++ flag ∷ []) (le32s vs),
        length-head,
        length-le32s vs,
      ) in
      let left = drop (length (concat chunks)) room in
      (
        left,
        receive_reply_lem (head_length + 4 * length vs) chunks more [] room c
              (λ z. absurd (omega (arith, size, ap (λ l. length (concat l)) z)))
              (omega (arith, size)) (omega (arith, size))
            ∙ ap (λ m. some (m, more))
                (ap (λ m. m ++ left) e ∙ append_assoc (front ++ flag ∷ []) (le32s vs) left),
      )

module _ (names : List (List ℕ)) (tail : List ℕ) (valid : All IsString names) where
  second_reply_lem :
      (found : List (ℕ × Call)) (chunks : List (List ℕ)) (front : List ℕ) (flag : ℕ)
      → IsFront front
      → All (IsFound names) found
      → length found ≤ length names
      → All IsChunk chunks
      → concat chunks ≡ reply front flag (pair_words found)
      → second_reply chunks (length names) (length found) (starts 0 names) (encode names ++ tail)
        ≡ some (found_calls found)
  unfolding second_reply
  second_reply_lem found chunks front flag twelve f few c e =
      let room : List ℕ = replicate (length names * 2 * 4 + head_length) 0 in
      let size : head_length + 4 * length (pair_words found) ≡ head_length + length found * 2 * 4 =
        omega (arith, length-pair_words found) in
      let (left, got) = received front (pair_words found) flag twelve chunks [] room c e (
        omega (
          arith,
          length-pair_words found,
          length-replicate {A = ℕ} (length names * 2 * 4 + head_length) 0,
        )) in
      let got' = rw (size, append-nil chunks) at got in
      rw (second_reply, got')
        (deliver_second_lem names found tail (front ++ flag ∷ []) left 0 valid f
          (omega (arith, length-head front [] flag twelve)))

  module _ (ips : List ℕ) (chunks more : List (List ℕ)) (front retbuf : List ℕ) (flag : ℕ)
      (twelve : IsFront front) (same : length ips ≡ length names) (words : AllWords ips)
      (parts : All IsChunk chunks) (whole : concat chunks ≡ reply front flag ips)
      (room : length retbuf ≡ length names * 2 * 4 + head_length) where
    got_first :
        (left : List ℕ) × (receive_reply (head_length + length names * 4) (chunks ++ more) retbuf 0
          ≡ some ((front ++ flag ∷ []) ++ (le32s ips ++ left), more))
    got_first =
        let (left, got) =
          received front ips flag twelve chunks more retbuf parts whole (omega arith) in
        let size : head_length + 4 * length ips ≡ head_length + length names * 4 = omega arith in
        (left, rw size at got)

    pub tcp_replies_hit :
        flag ≡ first_without_error
        → tcp_replies (chunks ++ more) (length names) (starts 0 names) (encode names ++ tail) retbuf
          ≡ some (zip_calls names ips)
    unfolding tcp_replies
    tcp_replies_hit clean =
        let (left, got) = got_first in
        let seen = flag_at front ips flag twelve (le32s ips ++ left) in
        let hit : (flag == first_without_error) ≡ true = ground arith in
        rw (tcp_replies, got, seen, hit)
          (deliver_all_lem names ips [] tail (front ++ flag ∷ []) left 0 valid same words
            (omega (arith, length-head front [] flag twelve)))

    pub tcp_replies_miss :
        (found : List (ℕ × Call)) (front' : List ℕ) (flag' : ℕ)
        → flag ≢ first_without_error
        → IsFront front'
        → All (IsFound names) found
        → length found ≡ miss_count ips
        → All IsChunk more
        → concat more ≡ reply front' flag' (pair_words found)
        → tcp_replies (chunks ++ more) (length names) (starts 0 names) (encode names ++ tail) retbuf
          ≡ some (hit_calls names ips ++ found_calls found)
    unfolding tcp_replies
    tcp_replies_miss found front' flag' missed twelve' f count parts' whole' =
        let (left, got) = got_first in
        let seen = flag_at front ips flag twelve (le32s ips ++ left) in
        let hits =
          deliver_hits_lem [] names ips tail (front ++ flag ∷ []) left 0 valid same words refl
            (omega (arith, length-head front [] flag twelve)) in
        let later =
          second_reply_lem found more front' flag' twelve' f (omega (arith, miss_count-le ips))
            parts' whole' in
        rw (tcp_replies, got, seen, ne→== flag first_without_error missed, hits, ← count, later)
          refl
