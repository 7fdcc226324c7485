-- ===== src/Kache.antt =====
-- src/server/dl_kache.c and src/server/dl_kache.h: the cache. Names of the main trie own a record
-- of `main_tr_data`; every other name shares the slot of its hash in `hash_data`. The trie (a copy
-- of libdatrie) is the parameter `trie_retrieve`, a key's index if it is stored.
pub mod Init
pub mod Laws
mod Examples
use dnscache.Common.{
  update, ℕ, zero, suc, ◌+◌, ◌-◌, ◌%◌, ◌^◌, ◌≡◌, Bool, true, false, Option, none, some, List, [],
  ◌∷◌, ◌++◌, ltb, leb, ◌==◌, ◌&&◌, ◌||◌, if◌then◌else◌, length, take, drop,
}
use dnscache.Hash.{bkdr_hash}

-- `data_t`. The address is kept as a `uint32`.
pub record Data : Type 0 where
  pub ip : ℕ
  pub timestamp : ℕ

-- `hash_data_t`; `part_key` has four bytes.
pub record HashData : Type 0 where
  pub h_data : Data
  pub part_key : List ℕ

-- The two arrays.
pub record Kache : Type 0 where
  pub main_tr_data : ℕ → Data
  pub hash_data : ℕ → HashData

-- The `data_t *` that `kache_retrieve` returns.
pub data Slot : Type 0 where
  main_slot : ℕ → Slot
  hash_slot : ℕ → Slot

-- `*slot`.
abbrev pub deref : Kache → Slot → Data
deref k (main_slot i) = k.main_tr_data i
deref k (hash_slot h) = (k.hash_data h).h_data

-- `0 == strncmp(part_key, key, n)`, where `key` ends in a NUL and `part_key` has no end of its own.
unfoldable pub strncmp_eq : ℕ → List ℕ → List ℕ → Bool
strncmp_eq zero part key = true
strncmp_eq (suc n) [] key = false
strncmp_eq (suc n) (p ∷ part) [] = p == 0
strncmp_eq (suc n) (p ∷ part) (c ∷ key) = (p == c) && ((p == 0) || strncmp_eq n part key)

-- `strlen(key) > 4 ? 4 : strlen(key)`.
abbrev pub part_len : List ℕ → ℕ
part_len key = if ltb 4 (length key) then 4 else length key

retrieve_hash : Kache → List ℕ → Option Slot
retrieve_hash k key =
    let hash_val = bkdr_hash key in
    if strncmp_eq (part_len key) (k.hash_data hash_val).part_key key
    then some (hash_slot hash_val)
    else none

store_hash : Kache → List ℕ → Data → Kache
store_hash k key d =
    let hash_val = bkdr_hash key in
    let len = part_len key in
    record k {
      hash_data = update k.hash_data hash_val (record {
        h_data = d;
        part_key = take len key ++ drop len (k.hash_data hash_val).part_key;
      });
    }

module _ (trie_retrieve : List ℕ → Option ℕ) where
  unfoldable pub kache_retrieve : Kache → Option (List ℕ) → Option Slot
  unfolding retrieve_hash
  kache_retrieve k none = none
  kache_retrieve k (some key) = elim (trie_retrieve key) [
    | some index ↦ some (main_slot index)
    | none ↦ retrieve_hash k key
  ]

  unfoldable pub kache_store : Kache → Option (List ℕ) → Data → Kache
  unfolding store_hash
  kache_store k none d = k
  kache_store k (some key) d = elim (trie_retrieve key) [
    | some index ↦ record k { main_tr_data = update k.main_tr_data index d }
    | none ↦ store_hash k key d
  ]
