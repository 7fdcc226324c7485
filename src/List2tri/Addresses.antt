-- ===== src/List2tri/Addresses.antt =====
-- src/server/list2tri.c with `kache_init` of src/server/dl_kache.c: the tool numbers the lines of
-- the name list and the server the lines of its address list, and the two numberings meet.
use dnscache.Common.{
  ℕ, zero, suc, ◌+◌, ◌≤◌, ◌<◌, ◌≡◌, ◌≢◌, refl, ap, sym, ◌∙◌, true, false, Option, none, some, List,
  [], ◌∷◌, length, get_elem?, All, arith,
}
use dnscache.Kache.{Data, Kache, kache_retrieve, part_len, strncmp_eq}
use dnscache.Hash.{bkdr_hash}
use dnscache.Kache.Init.{trie_size, atol32, zeroed, kache_init, kache_init_lem}
use dnscache.Kache.Laws.{lookup}
use dnscache.List2tri.{new_trie, list2tri}
use dnscache.List2tri.Stored.{IsLine, text_of, store_all, list2tri-text_of}

get_elem?-lt :
    (names : List (List ℕ)) (j : ℕ) {name : List ℕ}
    → get_elem? names j ≡ some name
    → j < length names
get_elem?-lt [] j e = absurd cc
get_elem?-lt (n ∷ names) zero e = omega arith
get_elem?-lt (n ∷ names) (suc j) e = omega (arith, get_elem?-lt names j e)

-- The name is on no line.
abbrev pub IsUnlisted : List (List ℕ) → List ℕ → Type 0
IsUnlisted names name = (i : ℕ) → get_elem? names i ≢ some name

-- The last line with the name is line `j`.
abbrev pub IsLastLine : List (List ℕ) → List ℕ → ℕ → Type 0
IsLastLine names name j =
    (get_elem? names j ≡ some name) × ((i : ℕ) → j < i → get_elem? names i ≢ some name)

strncmp_eq_zero :
    (n c : ℕ) (part key : List ℕ) → 0 < n → 0 < c → strncmp_eq n (0 ∷ part) (c ∷ key) ≡ false
unfolding strncmp_eq
strncmp_eq_zero zero c part key l pos = absurd (omega arith)
strncmp_eq_zero (suc n) c part key l pos = ground arith

part_len_pos : (c : ℕ) (key : List ℕ) → 0 < part_len (c ∷ key)
part_len_pos c key = ground arith

-- In the zeroed side table, no name but the empty one is found.
lookup-zeroed :
    (trie_retrieve : List ℕ → Option ℕ) (k : Kache) (c : ℕ) (name : List ℕ)
    → ((h : ℕ) → k.hash_data h ≡ zeroed)
    → 0 < c
    → trie_retrieve (c ∷ name) ≡ none
    → lookup trie_retrieve k (c ∷ name) ≡ none
unfolding lookup kache_retrieve
lookup-zeroed trie_retrieve k c name z pos e =
    rw
      (
        kache_retrieve,
        e,
        z (bkdr_hash (c ∷ name)),
        strncmp_eq_zero (part_len (c ∷ name)) c (0 ∷ 0 ∷ 0 ∷ []) name (part_len_pos c name) pos,
      )
      refl

module _ {ℓ ℓk} {Trie : Type ℓ} (trie_store : Trie → List ℕ → ℕ → Trie)
    (trie_retrieve : Trie → List ℕ → Option ℕ) (IsKey : List ℕ → Type ℓk)
    (retrieve-store : (t : Trie) (key : List ℕ) (v : ℕ)
      → IsKey key
      → trie_retrieve (trie_store t key v) key ≡ some v)
    (retrieve-store_other : (t : Trie) (key other : List ℕ) (v : ℕ)
      → key ≢ other
      → trie_retrieve (trie_store t key v) other ≡ trie_retrieve t other) where
  retrieve-store_all_other :
      (t : Trie) (var : ℕ) (names : List (List ℕ)) (name : List ℕ)
      → IsUnlisted names name
      → trie_retrieve (store_all trie_store t var names) name ≡ trie_retrieve t name
  retrieve-store_all_other t var [] name h = refl
  retrieve-store_all_other t var (n ∷ names) name h =
      retrieve-store_all_other (trie_store t n var) (var + 1) names name (λ i. h (suc i))
      ∙ retrieve-store_other t n name var (λ e. h 0 (ap some e))

  -- A name is stored under the number of its last line.
  retrieve-store_all :
      (t : Trie) (var : ℕ) (names : List (List ℕ)) (name : List ℕ) (j : ℕ)
      → IsKey name
      → IsLastLine names name j
      → trie_retrieve (store_all trie_store t var names) name ≡ some (var + j)
  retrieve-store_all t var [] name j key h = absurd cc
  retrieve-store_all t var (n ∷ names) name zero key h =
      let e : name ≡ n = cc in
      retrieve-store_all_other (trie_store t n var) (var + 1) names name
        (λ i. h.1 (suc i) (omega arith))
      ∙ ap (λ m. trie_retrieve (trie_store t m var) name) (sym e)
      ∙ retrieve-store t name var key
      ∙ ap some (omega arith)
  retrieve-store_all t var (n ∷ names) name (suc j) key h =
      retrieve-store_all (trie_store t n var) (var + 1) names name j key
        (h.0, λ i l. h.1 (suc i) (omega arith))
      ∙ ap some (omega arith)

  module _ {ℓm} {AlphaMap : Type ℓm} (alpha_map_new : AlphaMap)
      (alpha_map_add_range : AlphaMap → ℕ → ℕ → AlphaMap) (trie_new : AlphaMap → Trie)
      (retrieve-trie_new : (am : AlphaMap) (key : List ℕ)
        → trie_retrieve (trie_new am) key ≡ none) where
    -- When the tool has run over a list of names and the server has started with the trie and a
    -- long enough address list, the cache gives each name that the trie can hold the address of
    -- its last line, with the present time, and finds no other name but the empty one.
    pub list2tri-kache_init :
        (rounds : ℕ) (names : List (List ℕ)) (fresh : ℕ → Data) (now : ℕ) (lines : List (List ℕ))
        → All IsLine names
        → length names < rounds
        → length names < trie_size
        → trie_size ≤ length lines + 1
        → (t : Trie) × (list2tri trie_store alpha_map_new alpha_map_add_range trie_new rounds
              (some (text_of names))
            ≡ some t)
          × (k : Kache) × (kache_init true fresh now (some lines) ≡ some k)
          × ((j : ℕ) (name line : List ℕ)
              → IsKey name
              → IsLastLine names name j
              → get_elem? lines j ≡ some line
              → lookup (trie_retrieve t) k name
                ≡ some (record { ip = atol32 line; timestamp = now }))
          × ((c : ℕ) (name : List ℕ)
              → 0 < c
              → IsUnlisted names (c ∷ name)
              → lookup (trie_retrieve t) k (c ∷ name) ≡ none)
    unfolding lookup kache_retrieve new_trie
    list2tri-kache_init rounds names fresh now lines h l m s =
        let start = new_trie alpha_map_new alpha_map_add_range trie_new in
        let (k, e, main, side) = kache_init_lem fresh now lines s in
        (
          store_all trie_store start 1 names,
          list2tri-text_of trie_store alpha_map_new alpha_map_add_range trie_new rounds names h l
              (omega arith),
          k,
          e,
          λ j name line key last at.
              rw (lookup, kache_retrieve, retrieve-store_all start 1 names name j key last)
                (ap some (main j line (omega (arith, get_elem?-lt names j last.0)) at)),
          λ c name pos un.
              lookup-zeroed (trie_retrieve (store_all trie_store start 1 names)) k c name side pos
                (retrieve-store_all_other start 1 names (c ∷ name) un ∙ retrieve-trie_new _ _),
        )
