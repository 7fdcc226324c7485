-- ===== src/List2tri.antt =====
-- src/server/list2tri.c: the tool that numbers the names of `out.list` and stores them in the trie
-- that the server loads. The trie (a copy of libdatrie) and its alphabet are parameters, and the
-- result is the trie that `trie_save` is given.
pub mod Stored
pub mod Addresses
mod Examples
use dnscache.Common.{
  ℕ, zero, suc, ◌+◌, ◌-◌, ◌^◌, Bool, Option, none, some, List, [], ◌∷◌, ◌++◌, map, ltb, leb, ◌==◌,
  if◌then◌else◌, length, take, drop, replicate,
}
use dnscache.Common.Bytes.{c_string}

-- The bytes that `fgets` takes from a file, at most `n` of them, and those it leaves.
unfoldable pub fgets_take : ℕ → List ℕ → List ℕ × List ℕ
fgets_take zero file = ([], file)
fgets_take (suc n) [] = ([], [])
fgets_take (suc n) (c ∷ file) =
    let (line, left) = fgets_take n file in if c == 10 then (10 ∷ [], file) else (c ∷ line, left)

-- The line and its NUL over the start of the buffer.
abbrev pub overwrite : List ℕ → List ℕ → List ℕ
overwrite buff line = line ++ 0 ∷ drop (suc (length line)) buff

-- `fgets(buff, n, file)`: `none` is NULL, at the end of the file.
unfoldable pub fgets : ℕ → List ℕ → List ℕ → Option (List ℕ × List ℕ)
unfolding fgets_take
fgets n buff [] = none
fgets n buff (c ∷ file) =
    let (line, left) = fgets_take (n - 1) (c ∷ file) in some (overwrite buff line, left)

-- The `for` loop of `replace_n`.
unfoldable pub cut_newline : ℕ → List ℕ → List ℕ
cut_newline zero buff = buff
cut_newline (suc rounds) [] = []
cut_newline (suc rounds) (c ∷ buff) =
    let rest = cut_newline rounds buff in if c == 10 then 0 ∷ buff else c ∷ rest

unfoldable pub replace_n : List ℕ → List ℕ
unfolding cut_newline
replace_n buff = let cut = cut_newline 80 buff in take 79 cut ++ 0 ∷ drop 80 cut

-- A `char`, which has a sign, as the unsigned 32 bits of an `AlphaChar`.
unfoldable pub alpha_char : ℕ → ℕ
alpha_char c = if ltb c 128 then c else 2 ^ 32 - (256 - c)

unfoldable pub char2alphachar : List ℕ → List ℕ
unfolding alpha_char
char2alphachar buff = map alpha_char (take 80 buff)

-- The largest `int`.
abbrev pub int_max : ℕ
int_max = 2 ^ 31 - 1

module _ {ℓ ℓm} {Trie : Type ℓ} {AlphaMap : Type ℓm} (alpha_map_new : AlphaMap)
    (alpha_map_add_range : AlphaMap → ℕ → ℕ → AlphaMap) (trie_new : AlphaMap → Trie) where
  -- The trie before the first name.
  unfoldable pub new_trie : Trie
  new_trie =
      let am = alpha_map_add_range alpha_map_new 45 46 in
      let am = alpha_map_add_range am 48 57 in
      let am = alpha_map_add_range am 97 122 in let am = alpha_map_add_range am 95 95 in trie_new am

module _ {ℓ} {Trie : Type ℓ} (trie_store : Trie → List ℕ → ℕ → Trie) where
  -- `trie_store(tr_, key, var++)`. It is a fault to step past the largest `int`, and for `key` to
  -- have no NUL.
  unfoldable pub store_key : Trie → List ℕ → ℕ → Option Trie
  store_key trie key var = elim (c_string key) [
    | none ↦ none
    | some name ↦ if leb int_max var then none else some (trie_store trie name var)
  ]

  -- The `while` loop; `none` is a fault, or fuel that ran out.
  unfoldable pub store_lines : ℕ → List ℕ → ℕ → Trie → List ℕ → Option Trie
  unfolding fgets replace_n char2alphachar store_key
  store_lines zero buff var trie domains = none
  store_lines (suc rounds) buff var trie domains = elim (fgets 80 buff domains) [
    | none ↦ some trie
    | some (line, left) ↦
        let cut = replace_n line in
        elim (store_key trie (char2alphachar cut) var) [
          | none ↦ none
          | some grown ↦ store_lines rounds cut (var + 1) grown left
        ]
  ]

  module _ {ℓm} {AlphaMap : Type ℓm} (alpha_map_new : AlphaMap)
      (alpha_map_add_range : AlphaMap → ℕ → ℕ → AlphaMap) (trie_new : AlphaMap → Trie) where
    -- `main`. The buffer is zero at the start; a file that does not open is a fault of `fgets`.
    unfoldable pub list2tri : ℕ → Option (List ℕ) → Option Trie
    unfolding store_lines new_trie
    list2tri rounds none = none
    list2tri rounds (some domains) =
        store_lines rounds (replicate 80 0) 1 (new_trie alpha_map_new alpha_map_add_range trie_new)
          domains
