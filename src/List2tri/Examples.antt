-- ===== src/List2tri/Examples.antt =====
-- The tool at a concrete trie, a function from keys to numbers, and runs of it.
use dnscache.Common.{
  ℕ, zero, suc, ◌≡◌, ◌≢◌, refl, ap, true, false, Bool, Option, none, some, List, [], ◌∷◌, ◌++◌,
  ◌==◌, ◌&&◌, ◌<◌, ltb, not, if◌then◌else◌, length, All, arith, replicate, length-replicate,
  Bool-cases, inl, inr, get_elem?,
}
use dnscache.Common.Bytes.{c_string}
use dnscache.Common.Text.{codes}
use dnscache.Kache.{Data, Kache}
use dnscache.Kache.Init.{kache_init, atol32}
use dnscache.Kache.Laws.{lookup}
use dnscache.List2tri.{char2alphachar, store_lines, new_trie, list2tri}
use dnscache.List2tri.Stored.{IsNameByte, IsLine, text_of, list2tri_long_line, store_all}
use dnscache.List2tri.Addresses.{IsLastLine, list2tri-kache_init}

abbrev same : List ℕ → List ℕ → Bool
same [] [] = true
same [] (d ∷ ds) = false
same (c ∷ cs) [] = false
same (c ∷ cs) (d ∷ ds) = (c == d) && same cs ds

same_refl : (cs : List ℕ) → same cs cs ≡ true
same_refl [] = refl
same_refl (c ∷ cs) = ground (arith, same_refl cs)

same→eq : (cs ds : List ℕ) → same cs ds ≡ true → cs ≡ ds
same→eq [] [] e = refl
same→eq [] (d ∷ ds) e = absurd cc
same→eq (c ∷ cs) [] e = absurd cc
same→eq (c ∷ cs) (d ∷ ds) e = ground (arith, same→eq cs ds)

abbrev Trie : Type 0
Trie = List ℕ → Option ℕ

abbrev trie_store : Trie → List ℕ → ℕ → Trie
trie_store t key v other = if same key other then some v else t other

retrieve-store : (t : Trie) (key : List ℕ) (v : ℕ) → trie_store t key v key ≡ some v
retrieve-store t key v = rw (same_refl key) refl

retrieve-store_other :
    (t : Trie) (key other : List ℕ) (v : ℕ) → key ≢ other → trie_store t key v other ≡ t other
retrieve-store_other t key other v h = elim (Bool-cases (same key other)) [
  | inl e ↦ absurd (h (same→eq key other e))
  | inr e ↦ rw e refl
]

-- The ranges of an alphabet.
abbrev AlphaMap : Type 0
AlphaMap = List (ℕ × ℕ)

abbrev add_range : AlphaMap → ℕ → ℕ → AlphaMap
add_range am from to = (from, to) ∷ am

abbrev empty_trie : AlphaMap → Trie
empty_trie am key = none

-- The first name is on two lines.
abbrev some_names : List (List ℕ)
some_names = codes "com.a" ∷ codes "com.b" ∷ codes "com.a" ∷ []

abbrev number_of : List ℕ → Option Trie → Option ℕ
number_of key none = none
number_of key (some t) = t key

abbrev zeros : List ℕ
zeros = 0 ∷ 0 ∷ 0 ∷ 0 ∷ 0 ∷ 0 ∷ 0 ∷ 0 ∷ 0 ∷ 0 ∷ []

-- The buffer at the start.
abbrev blank : List ℕ
blank = zeros ++ zeros ++ zeros ++ zeros ++ zeros ++ zeros ++ zeros ++ zeros

abbrev built : Option Trie
built = store_lines trie_store 4 blank 1 (λ key. none) (text_of some_names)

some_names_run :
    (number_of (codes "com.a") built ≡ some 3)
    × (number_of (codes "com.b") built ≡ some 2)
    × (number_of (codes "com") built ≡ none)
unfolding store_lines c_string
some_names_run = (refl, refl, refl)

-- A file that does not open.
no_file_run : list2tri trie_store [] add_range empty_trie 4 none ≡ none
unfolding list2tri
no_file_run = refl

alpha_run : char2alphachar (228 ∷ 97 ∷ 0 ∷ []) ≡ 4294967268 ∷ 97 ∷ 0 ∷ []
unfolding char2alphachar
alpha_run = refl

is_name_byte : ℕ → Bool
is_name_byte b = ltb 0 b && (ltb b 128 && not (b == 10))

abbrev all_name_bytes : List ℕ → Bool
all_name_bytes [] = true
all_name_bytes (b ∷ s) = is_name_byte b && all_name_bytes s

all_name_bytes_lem : (s : List ℕ) → all_name_bytes s ≡ true → All IsNameByte s
unfolding is_name_byte
all_name_bytes_lem [] h = tt
all_name_bytes_lem (b ∷ s) h = (ground arith, all_name_bytes_lem s (ground arith))

some_lines : All IsLine some_names
unfolding is_name_byte
some_lines =
    let a = all_name_bytes_lem (codes "com.a") refl in
    let b = all_name_bytes_lem (codes "com.b") refl in
    ((a, omega arith), ((b, omega arith), ((a, omega arith), tt)))

abbrev no_data : Data
no_data = record { ip = 0; timestamp = 0 }

-- An address list of the length that the server wants.
address_list : List (List ℕ)
address_list = codes "1" ∷ codes "16909060" ∷ replicate 1843312 (codes "7")

length-address_list : length address_list ≡ 1843314
unfolding address_list
length-address_list = ap (λ n. suc (suc n)) (length-replicate 1843312 (codes "7"))

abbrev is_com_b : Option (List ℕ) → Bool
is_com_b none = false
is_com_b (some name) = same name (codes "com.b")

last_line : IsLastLine some_names (codes "com.b") 1
last_line = (refl, later)
  where
    later : (i : ℕ) → 1 < i → get_elem? some_names i ≢ some (codes "com.b")
    later zero l = absurd (omega arith)
    later (suc zero) l = absurd (omega arith)
    later (suc (suc zero)) l = λ e. let differ : false ≡ true = ap is_com_b e in absurd cc
    later (suc (suc (suc i))) l = λ e. absurd cc

list2tri-kache_init_example :
    (t : Trie) × (list2tri trie_store [] add_range empty_trie 4 (some (text_of some_names))
      ≡ some t)
    × (k : Kache) × (kache_init true (λ _. no_data) 7 (some address_list) ≡ some k)
    × (lookup t k (codes "com.b") ≡ some (record { ip = atol32 (codes "16909060"); timestamp = 7 }))
unfolding address_list
list2tri-kache_init_example =
    let start =
      list2tri-kache_init {0, 0, 0} trie_store (λ t. t) (λ _. Unit)
        (λ t key v _. retrieve-store t key v) retrieve-store_other [] add_range empty_trie
        (λ am key. refl) 4 some_names (λ _. no_data) 7 address_list some_lines (omega arith)
        (omega arith) (omega (arith, length-address_list)) in
    (
      start.0,
      start.1,
      start.2,
      start.3,
      start.4 1 (codes "com.b") (codes "16909060") tt last_line refl,
    )

abbrev long_name : List ℕ
long_name = codes "com.a-name-of-79-bytes-that-fills-the-whole-of-the-line-buffer-with-no-room-lef"

list2tri_long_line_example :
    list2tri trie_store [] add_range empty_trie 9 (some (text_of (long_name ∷ some_names)))
    ≡ some (store_all trie_store (new_trie [] add_range empty_trie) 1 (long_name ∷ [] ∷ some_names))
unfolding is_name_byte
list2tri_long_line_example =
    list2tri_long_line trie_store [] add_range empty_trie 9 long_name some_names
      (all_name_bytes_lem long_name refl) refl some_lines (omega arith) (omega arith)
