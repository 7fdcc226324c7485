-- ===== src/Kache/Init.antt =====
-- `kache_init`: the start values of both arrays.
use dnscache.Common.{
  update, ℕ, zero, suc, ◌+◌, ◌-◌, ◌*◌, ◌%◌, ◌^◌, ◌≤◌, ◌<◌, ◌≡◌, refl, Bool, true, false, Option,
  none, some, List, [], ◌∷◌, leb, ◌==◌, ◌&&◌, ◌||◌, if◌then◌else◌, length, get_elem?, arith,
}
use native.Mathlib.Nat.{add-zero}
use dnscache.Kache.{Data, HashData, Kache}

-- `TRIESIZE`.
abbrev pub trie_size : ℕ
trie_size = 1843314 + 1

abbrev is_space : ℕ → Bool
is_space c = (leb 9 c && leb c 13) || (c == 32)

digits_value : ℕ → List ℕ → ℕ
digits_value acc [] = acc
digits_value acc (c ∷ s) =
    let rest = digits_value (acc * 10 + (c - 48)) s in if leb 48 c && leb c 57 then rest else acc

-- `atol` stops at the limits of `long`, as `strtol` does.
abbrev at_most : ℕ → ℕ → ℕ
at_most limit n = if leb limit n then limit else n

signed_value : ℕ → List ℕ → ℕ
unfolding digits_value
signed_value c s =
    if c == 45
    then (2 ^ 32 - at_most (2 ^ 63) (digits_value 0 s) % 2 ^ 32) % 2 ^ 32
    else if c == 43
    then at_most (2 ^ 63 - 1) (digits_value 0 s) % 2 ^ 32
    else at_most (2 ^ 63 - 1) (digits_value 0 (c ∷ s)) % 2 ^ 32

-- `(uint32) atol(buff)`.
unfoldable pub atol32 : List ℕ → ℕ
unfolding signed_value
atol32 [] = 0
atol32 (c ∷ s) = let rest = atol32 s in if is_space c then rest else signed_value c s

abbrev record_of : List ℕ → ℕ → Data
record_of line now = record { ip = atol32 line; timestamp = now }

-- The `for` loop, over what each `fgets` returns. A missing line fails the assertion.
fill : ℕ → ℕ → ℕ → List (List ℕ) → (ℕ → Data) → Option (ℕ → Data)
fill zero i now lines m = some m
fill (suc rounds) i now [] m = none
fill (suc rounds) i now (line ∷ lines) m =
    fill rounds (i + 1) now lines (update m i (record_of line now))

abbrev pub zeroed : HashData
zeroed = record { h_data = record { ip = 0; timestamp = 0 }; part_key = 0 ∷ 0 ∷ 0 ∷ 0 ∷ [] }

-- `none` is a failed assertion. `fresh` is what `dc_alloc` leaves in `main_tr_data`.
pub kache_init :
    (trie_loaded : Bool) (fresh : ℕ → Data) (now : ℕ) (iplist : Option (List (List ℕ)))
    → Option Kache
unfolding fill
kache_init false fresh now iplist = none
kache_init true fresh now none = none
kache_init true fresh now (some lines) = elim (fill (trie_size - 1) 1 now lines fresh) [
  | none ↦ none
  | some m ↦ some (record { main_tr_data = m; hash_data = λ _. zeroed })
]

-- Below the start the loop writes nothing, and the `j`-th line goes to index `i + j`.
add_suc_right : (i j : ℕ) → i + suc j ≡ i + 1 + j
add_suc_right i j = omega arith

fill_lem :
    (rounds i now : ℕ) (lines : List (List ℕ)) (m : ℕ → Data)
    → rounds ≤ length lines
    → (r : ℕ → Data) × (fill rounds i now lines m ≡ some r)
      × ((j : ℕ) → j < i → r j ≡ m j)
      × ((j : ℕ) (line : List ℕ)
          → j < rounds
          → get_elem? lines j ≡ some line
          → r (i + j) ≡ record_of line now)
unfolding fill
fill_lem zero i now lines m h = (m, refl, λ j l. refl, λ j line l e. absurd (omega arith))
fill_lem (suc rounds) i now [] m h = absurd (omega arith)
fill_lem (suc rounds) i now (line ∷ lines) m h =
    let (r, e, below, at) =
      fill_lem rounds (i + 1) now lines (update m i (record_of line now)) (omega arith) in
    (r, e, (λ j l. ground (arith, below j)), at_line r below at)
  where
    at_line :
        (r : ℕ → Data)
        → ((j : ℕ) → j < i + 1 → r j ≡ update m i (record_of line now) j)
        → ((j : ℕ) (l : List ℕ)
            → j < rounds
            → get_elem? lines j ≡ some l
            → r (i + 1 + j) ≡ record_of l now)
        → (j : ℕ) (l : List ℕ) → j < suc rounds
        → get_elem? (line ∷ lines) j ≡ some l
        → r (i + j) ≡ record_of l now
    at_line r below at zero l lt e = ground (arith, below i, add-zero i)
    at_line r below at (suc j) l lt e = ground (arith, at j l (omega arith) e, add_suc_right i j)

-- The start state: the `i`-th line of the address list is the record of index `i + 1`, stamped with
-- the present time, and the side table is zero.
pub kache_init_lem :
    (fresh : ℕ → Data) (now : ℕ) (lines : List (List ℕ))
    → trie_size ≤ length lines + 1
    → (k : Kache) × (kache_init true fresh now (some lines) ≡ some k)
      × ((j : ℕ) (line : List ℕ)
          → j + 1 < trie_size
          → get_elem? lines j ≡ some line
          → k.main_tr_data (1 + j) ≡ record_of line now)
      × ((h : ℕ) → k.hash_data h ≡ zeroed)
unfolding kache_init
kache_init_lem fresh now lines h =
    let (r, e, below, at) = fill_lem (trie_size - 1) 1 now lines fresh (omega arith) in
    (
      record { main_tr_data = r; hash_data = λ _. zeroed },
      rw (e, kache_init) refl,
      λ j line l g. at j line (omega arith) g,
      λ x. refl,
    )
