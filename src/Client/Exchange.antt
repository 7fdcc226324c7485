-- ===== src/Client/Exchange.antt =====
-- The client's request at the TCP server.
use dnscache.Common.{
  ℕ, ◌+◌, ◌-◌, ◌^◌, ◌≤◌, ◌<◌, ◌≡◌, sym, ap, ◌∙◌, Option, some, List, [], ◌∷◌, ◌++◌, length,
  append_assoc, All, take, drop, map, concat, arith, length-append, take-append, drop-append_at,
  take-append_at,
}
use mathlib.Core.Option.{some-injective}
use dnscache.Common.Bytes.{IsString, le32, length-le32}
use dnscache.Protocol.{encode, head_length, magic_number}
use dnscache.Kache.{Kache}
use dnscache.Search.{tcp_policy}
use dnscache.Search.Expected.{tcp_hit, reply_words, missed_nodes}
use dnscache.Search.InPlace.{IsLong, answers, all_misses}
use dnscache.Server.Tcp.{writev, first_flag, follow_up, serv}
use dnscache.Server.Tcp.Receive.{IsChunk, request_front, serve_request, served, served_names}
use dnscache.Client.Request.{Walk, pre_do, build_head, success, message}
use dnscache.Client.RoundTrip.{
  Allowed, AllAllowed, lower_byte, lower, length-lower, length-encode-lower, pre_do_lem,
}

lower_byte_range : (c : ℕ) → Allowed c → (0 < lower_byte c) × (lower_byte c < 256)
lower_byte_range c a = grind arith

-- The bytes that the client sends: a head with request number 1 and reserved byte 'F', the names.
pub message_lem :
    (total : ℕ) (bytes tail : List ℕ) (index : List ℕ)
    → total ≡ head_length + length bytes
    → message
        (record { status = success; total_length = total; index = index; buf = bytes ++ tail })
      ≡ (request_front total (le32 1) ++ b'F' ∷ []) ++ bytes
unfolding message build_head
message_lem total bytes tail index e =
    let n : total - head_length ≡ length bytes = omega arith in
    rw (n, take-append bytes tail)
      (ap (λ h. h ++ bytes)
        (ap (λ r. le32 total ++ r) (sym (append_assoc (le32 magic_number) (le32 1) (b'F' ∷ [])))
          ∙ sym (append_assoc (le32 total) (le32 magic_number ++ le32 1) (b'F' ∷ []))))

pub lower-IsString : (name : List ℕ) → AllAllowed name → IsString (lower name)
lower-IsString [] a = a
lower-IsString (c ∷ name) a = (lower_byte_range c a.0, lower-IsString name a.1)

lower-IsLong :
    (names : List (List ℕ))
    → All AllAllowed names
    → All (λ name. 3 ≤ length name) names
    → All IsLong (map lower names)
lower-IsLong [] a l = a
lower-IsLong (name ∷ names) a l =
    ((lower-IsString name a.0, omega (arith, l.0, length-lower name)), lower-IsLong names a.1 l.1)

pub length-front : (total : ℕ) → length (request_front total (le32 1) ++ b'F' ∷ []) ≡ head_length
length-front total = omega (
  arith,
  length-append (request_front total (le32 1)) (b'F' ∷ []),
  length-append (le32 total) (le32 magic_number ++ le32 1),
  length-append (le32 magic_number) (le32 1),
  length-le32 total,
  length-le32 magic_number,
  length-le32 1,
)

-- The request of the client for `names`: its head and its body.
request_lem :
    (name : List ℕ) (names : List (List ℕ)) (tail : List ℕ) (w : Walk)
    → All AllAllowed (name ∷ names)
    → head_length + length (encode (name ∷ names)) < 2 ^ 32
    → pre_do (encode (name ∷ names) ++ tail) (length (name ∷ names)) ≡ some w
    → let lowered = map lower (name ∷ names) in
      message w
      ≡ (request_front (head_length + length (encode lowered)) (le32 1) ++ b'F' ∷ [])
        ++ encode lowered
request_lem name names tail w a small e =
    let lowered = map lower (name ∷ names) in
    let total : head_length + length (encode (name ∷ names))
        ≡ head_length + length (encode lowered) =
      omega (arith, length-encode-lower (name ∷ names)) in
    let sent = some-injective {A = Walk} _ _ (sym e ∙ pre_do_lem name names tail a small) in
    ap message sent
    ∙ message_lem _ (encode lowered) tail _ total
    ∙ ap (λ n. (request_front n (le32 1) ++ b'F' ∷ []) ++ encode lowered) total

module _ (trie_retrieve : List ℕ → Option ℕ) (kache_at : ℕ → Kache) (clock : ℕ → ℕ) where
  -- The exchange, in the terms of the loop.
  pub exchange_request :
      (name : List ℕ) (names : List (List ℕ)) (behind : List ℕ) (chunks : List (List ℕ))
      (tail : List ℕ) (w : Walk) (fresh : ℕ → List ℕ)
      → All AllAllowed (name ∷ names)
      → All (λ n. 3 ≤ length n) (name ∷ names)
      → head_length + length (encode (name ∷ names)) < 2 ^ 31
      → pre_do (encode (name ∷ names) ++ tail) (length (name ∷ names)) ≡ some w
      → All IsChunk chunks
      → concat chunks ≡ drop head_length (message w)
      → ((n : ℕ) → length (fresh n) ≡ n)
      → 3 ≤ length behind
      → let lowered = map lower (name ∷ names) in
        let misses = all_misses trie_retrieve kache_at clock tcp_policy 0 lowered in
        let front = request_front (head_length + length (encode (name ∷ names))) (le32 1) in
        let head = front ++ first_flag misses ∷ [] in
        serv trie_retrieve kache_at clock (take head_length (message w)) behind chunks fresh
        ≡ some (
            writev (head ++ answers trie_retrieve kache_at clock tcp_policy 0 lowered)
            ∷ follow_up head misses
            ∷ [])
  exchange_request name names behind chunks tail w fresh a long small e c parts f three =
      let lowered = map lower (name ∷ names) in
      let size = length-encode-lower (name ∷ names) in
      let total = head_length + length (encode lowered) in
      let head = request_front total (le32 1) ++ b'F' ∷ [] in
      let sent = request_lem name names tail w a (omega arith) e in
      let front : take head_length (message w) ≡ head =
        ap (take head_length) sent
        ∙ take-append_at head_length head (encode lowered) (length-front total) in
      let body : drop head_length (message w) ≡ encode lowered =
        ap (drop head_length) sent
        ∙ drop-append_at head_length head (encode lowered) (length-front total) in
      rw (front, ← size)
        (serve_request trie_retrieve kache_at clock b'F' (le32 1) (lower name) (map lower names)
          behind chunks fresh (length-le32 1) (lower-IsLong (name ∷ names) a long)
          (omega (arith, size, small)) c (parts ∙ body) f three)

  -- What the client makes of one or more names of three or more allowed bytes, together shorter than
  -- 2^31 - 13, the TCP server answers by the head of the request (so the length in it is that of the
  -- request) with the flag of the answer, and one word for each name in lower case, in order: the
  -- address of a record that is not older than a day, else 127.0.0.2. This holds whatever the parts in
  -- which the body comes; the head comes whole, and its block has three bytes or more behind it.
  pub exchange_lem :
      (name : List ℕ) (names : List (List ℕ)) (behind : List ℕ) (chunks : List (List ℕ))
      (tail : List ℕ) (w : Walk) (fresh : ℕ → List ℕ)
      → All AllAllowed (name ∷ names)
      → All (λ n. 3 ≤ length n) (name ∷ names)
      → head_length + length (encode (name ∷ names)) < 2 ^ 31
      → pre_do (encode (name ∷ names) ++ tail) (length (name ∷ names)) ≡ some w
      → All IsChunk chunks
      → concat chunks ≡ drop head_length (message w)
      → ((n : ℕ) → length (fresh n) ≡ n)
      → 3 ≤ length behind
      → let lowered = map lower (name ∷ names) in
        serv trie_retrieve kache_at clock (take head_length (message w)) behind chunks fresh
        ≡ some (
            served
              (request_front (head_length + length (encode (name ∷ names))) (le32 1))
              (reply_words trie_retrieve kache_at clock tcp_hit 0 lowered)
              (missed_nodes trie_retrieve kache_at clock tcp_hit (λ n. some n) 0 lowered))
  exchange_lem name names behind chunks tail w fresh a long small e c parts f three =
      exchange_request name names behind chunks tail w fresh a long small e c parts f three
      ∙ served_names trie_retrieve kache_at clock
          (request_front (head_length + length (encode (name ∷ names))) (le32 1))
          (map lower (name ∷ names))
