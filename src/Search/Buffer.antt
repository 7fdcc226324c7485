-- ===== src/Search/Buffer.antt =====
-- Reads of names and writes of answers in one buffer, side by side.
use dnscache.Common.{
  ℕ, ◌+◌, ◌≤◌, ◌≡◌, sym, ap, ◌∙◌, some, List, [], ◌∷◌, ◌++◌, length, take, drop, arith,
  append_assoc, length-append, take-append-drop, length-take_le, length-drop,
}
use dnscache.Common.Bytes.{
  IsString, string_at, poke, le32, string_at-append, poke-append, length-le32,
}
use dnscache.Protocol.{encode}

-- A name that fits: at least three bytes, so four with the NUL.
abbrev pub IsLong : List ℕ → Type 0
IsLong name = IsString name × (3 ≤ length name)

pub length-encode : (names : List (List ℕ)) → length names ≤ length (encode names)
length-encode [] = omega arith
length-encode (name ∷ names) =
    omega (arith, length-append name (0 ∷ encode names), length-encode names)

pub read_name :
    (out junk name rest : List ℕ)
    → IsString name
    → string_at (out ++ (junk ++ (name ++ 0 ∷ rest))) (length out + length junk) ≡ some name
read_name out junk name rest h =
    rw (← append_assoc out junk (name ++ 0 ∷ rest), ← length-append out junk)
      (string_at-append (out ++ junk) name rest h)

-- The bytes up to the end of a name, split for a write of four bytes.
pub split_done :
    (junk name rest : List ℕ)
    → junk ++ (name ++ 0 ∷ rest)
      ≡ take 4 (junk ++ (name ++ 0 ∷ [])) ++ (drop 4 (junk ++ (name ++ 0 ∷ [])) ++ rest)
split_done junk name rest =
    let done = junk ++ (name ++ 0 ∷ []) in
    sym (
      sym (append_assoc (take 4 done) (drop 4 done) rest)
      ∙ ap (λ l. l ++ rest) (take-append-drop 4 done)
      ∙ append_assoc junk (name ++ 0 ∷ []) rest
      ∙ ap (λ l. junk ++ l) (append_assoc name (0 ∷ []) rest))

pub length-done :
    (out junk name : List ℕ) (word : ℕ)
    → 3 ≤ length name
    → length (out ++ le32 word) + length (drop 4 (junk ++ (name ++ 0 ∷ [])))
      ≡ length out + length junk + (length name + 1)
length-done out junk name word long = omega (
  arith,
  length-append out (le32 word),
  length-le32 word,
  length-drop 4 (junk ++ (name ++ 0 ∷ [])),
  length-append junk (name ++ 0 ∷ []),
  length-append name (0 ∷ []),
)

pub write_answer :
    (out junk name rest vs : List ℕ) (p : ℕ)
    → length out ≡ p
    → 3 ≤ length name
    → length vs ≡ 4
    → poke (out ++ (junk ++ (name ++ 0 ∷ rest))) p vs
      ≡ some ((out ++ vs) ++ (drop 4 (junk ++ (name ++ 0 ∷ [])) ++ rest))
write_answer out junk name rest vs p e long four =
    let done = junk ++ (name ++ 0 ∷ []) in
    rw (← e, split_done junk name rest, append_assoc out vs (drop 4 done ++ rest))
      (poke-append out (take 4 done) (drop 4 done ++ rest) vs (
        omega (
          arith,
          length-take_le 4 done,
          length-append junk (name ++ 0 ∷ []),
          length-append name (0 ∷ []),
        )))
