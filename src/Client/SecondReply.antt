-- ===== src/Client/SecondReply.antt =====
-- The loop of `tcp_dns_search` over the second message.
use dnscache.Common.{
  ℕ, suc, ◌+◌, ◌*◌, ◌^◌, ◌<◌, ◌≡◌, refl, some, List, [], ◌∷◌, ◌++◌, length, All, map, get_elem?,
  arith,
}
use dnscache.Common.Bytes.{IsString, le32}
use dnscache.Protocol.{encode, head_length}
use dnscache.Client.RoundTrip.{starts}
use dnscache.Client.Replies.{Call, word, call_of, deliver_second}
use dnscache.Client.Delivery.{le32s, call_of-starts, first_word, le32s_assoc, next_word}

-- Names that the DNS threads have resolved, each with its index: the words of a second message.
abbrev pub pair_words : List (ℕ × Call) → List ℕ
pair_words [] = []
pair_words (p ∷ found) = p.0 ∷ p.1.address ∷ pair_words found

-- The index is that of the name, and index and address are words.
abbrev pub IsFound : List (List ℕ) → ℕ × Call → Type 0
IsFound names p = (p.0 < 2 ^ 32) × (p.1.address < 2 ^ 32) × (get_elem? names p.0 ≡ some p.1.domain)

abbrev pub found_calls : List (ℕ × Call) → List Call
found_calls = map (λ p. p.1)

deliver_second_step :
    (left i at ip : ℕ) (index buf retbuf : List ℕ) (c : Call) (calls : List Call)
    → word retbuf (2 * i) ≡ some at
    → word retbuf (2 * i + 1) ≡ some ip
    → call_of index at buf (some ip) ≡ some c
    → deliver_second left (i + 1) index buf retbuf ≡ some calls
    → deliver_second (suc left) i index buf retbuf ≡ some (c ∷ calls)
unfolding deliver_second
deliver_second_step left i at ip index buf retbuf c calls w w' k more =
    rw (deliver_second, w, w', k, more) refl

pub deliver_second_lem :
    (names : List (List ℕ)) (found : List (ℕ × Call)) (tail front rest : List ℕ) (i : ℕ)
    → All IsString names
    → All (IsFound names) found
    → length front ≡ head_length + 4 * (2 * i)
    → deliver_second
        (length found)
        i
        (starts 0 names)
        (encode names ++ tail)
        (front ++ (le32s (pair_words found) ++ rest))
      ≡ some (found_calls found)
unfolding deliver_second
deliver_second_lem names [] tail front rest i a f l = refl
deliver_second_lem names (p ∷ found) tail front rest i a f l =
    let (at, c) = p in
    let front' = front ++ le32 at in
    let front'' = front' ++ le32 c.address in
    let l' = next_word front (2 * i) at l in
    let l'' : length front'' ≡ head_length + 4 * (2 * (i + 1)) =
      omega (arith, next_word front' (2 * i + 1) c.address l') in
    let assoc = le32s_assoc front rest (c.address ∷ pair_words found) at in
    let assoc' = le32s_assoc front' rest (pair_words found) c.address in
    let here = call_of-starts names [] tail c.domain at c.address a f.0.2 in
    let more = deliver_second_lem names found tail front'' rest (i + 1) a f.1 l'' in
    deliver_second_step (length found) i at c.address (starts 0 names) (encode names ++ tail) _ c
      (found_calls found) (first_word front rest (c.address ∷ pair_words found) (2 * i) at l f.0.0)
      (rw (assoc) (first_word front' rest (pair_words found) (2 * i + 1) c.address l' f.0.1)) here
      (rw (assoc, assoc') more)
