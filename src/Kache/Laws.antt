-- ===== src/Kache/Laws.antt =====
-- What a `kache_retrieve` finds after a `kache_store`.
use dnscache.Common.{
  ℕ, zero, suc, ◌≤◌, ◌≡◌, refl, ◌≢◌, true, Option, none, some, List, [], ◌∷◌, ◌++◌, length, take,
  drop, arith, Option-cases, inl, inr, ◌↔◌,
}
use dnscache.Common.Bytes.{IsString}
use mathlib.Core.Option
use dnscache.Hash.{bkdr_hash}
use dnscache.Kache.{
  Data, Kache, Slot, main_slot, hash_slot, deref, strncmp_eq, part_len, retrieve_hash,
  kache_retrieve, store_hash, kache_store,
}

-- A string equals itself as far as `strncmp` looks, whatever follows in the field.
strncmp_eq-take :
    (n : ℕ) (key rest : List ℕ) → n ≤ length key → strncmp_eq n (take n key ++ rest) key ≡ true
unfolding strncmp_eq
strncmp_eq-take zero key rest h = refl
strncmp_eq-take (suc n) [] rest h = absurd (omega arith)
strncmp_eq-take (suc n) (c ∷ key) rest h = ground (arith, strncmp_eq-take n key rest (omega arith))

part_len-le : (key : List ℕ) → part_len key ≤ length key
part_len-le key = ground arith

-- Where all bytes that `strncmp` looks at come from a string that is long enough.
strncmp_eq_iff :
    (n m : ℕ) (key rest key' : List ℕ)
    → n ≤ m
    → n ≤ length key
    → n ≤ length key'
    → IsString key'
    → (strncmp_eq n (take m key ++ rest) key' ≡ true) ↔ (take n key ≡ take n key')
unfolding strncmp_eq
strncmp_eq_iff zero m key rest key' a b c s = (λ _. refl, λ _. refl)
strncmp_eq_iff (suc n) zero key rest key' a b c s = absurd (omega arith)
strncmp_eq_iff (suc n) (suc m) [] rest key' a b c s = absurd (omega arith)
strncmp_eq_iff (suc n) (suc m) (x ∷ key) rest [] a b c s = absurd (omega arith)
strncmp_eq_iff (suc n) (suc m) (x ∷ key) rest (y ∷ key') a b c s =
    let (there, back) =
      strncmp_eq_iff n m key rest key' (omega arith) (omega arith) (omega arith) s.1 in
    (λ h. ground (arith, there), λ h. ground (arith, back))

-- The record of a name, by the array that owns it.
abbrev pub place : Option ℕ → List ℕ → Slot
place (some index) key = main_slot index
place none key = hash_slot (bkdr_hash key)

module _ (trie_retrieve : List ℕ → Option ℕ) where
  -- The record that the server reads for a name.
  unfoldable pub lookup : Kache → List ℕ → Option Data
  lookup k key = Option.map (deref k) (kache_retrieve trie_retrieve k (some key))

  -- A stored record is found again under its name, whichever array the name belongs to.
  pub lookup-store :
      (k : Kache) (key : List ℕ) (d : Data)
      → lookup (kache_store trie_retrieve k (some key) d) key ≡ some d
  unfolding lookup kache_retrieve kache_store retrieve_hash store_hash
  lookup-store k key d = elim (Option-cases (trie_retrieve key)) [
    | inr (index, e) ↦ rw (e, kache_retrieve, kache_store) (ground arith)
    | inl e ↦
        rw (e, kache_retrieve, kache_store)
          (ground (
            arith,
            strncmp_eq-take (part_len key) key
                (drop (part_len key) (k.hash_data (bkdr_hash key)).part_key) (part_len-le key),
          ))
  ]

  -- A store leaves every name alone whose record is another: another index of the trie, another
  -- hash, or the other array.
  pub lookup-store_other :
      (k : Kache) (key key' : List ℕ) (d : Data)
      → place (trie_retrieve key) key ≢ place (trie_retrieve key') key'
      → lookup (kache_store trie_retrieve k (some key) d) key' ≡ lookup k key'
  unfolding lookup kache_retrieve kache_store retrieve_hash store_hash
  lookup-store_other k key key' d apart = ground arith

  -- Two names outside the trie with one hash: after a store under the first, the second is found,
  -- with the first one's record, if both agree in the bytes that are compared (four, or all of a
  -- shorter second name), and it is not found if they differ there. The first name has as many
  -- bytes as are compared.
  pub lookup-store_shared :
      (k : Kache) (key key' : List ℕ) (d : Data)
      → trie_retrieve key ≡ none
      → trie_retrieve key' ≡ none
      → bkdr_hash key ≡ bkdr_hash key'
      → part_len key' ≤ length key
      → IsString key'
      → (take (part_len key') key ≡ take (part_len key') key'
          → lookup (kache_store trie_retrieve k (some key) d) key' ≡ some d)
        × (take (part_len key') key ≢ take (part_len key') key'
            → lookup (kache_store trie_retrieve k (some key) d) key' ≡ none)
  unfolding lookup kache_retrieve kache_store retrieve_hash store_hash
  lookup-store_shared k key key' d e e' h n s =
      let part = (k.hash_data (bkdr_hash key)).part_key in
      let (there, back) =
        strncmp_eq_iff (part_len key') (part_len key) key (drop (part_len key) part) key'
          (ground arith) n (part_len-le key') s in
      (λ same. ground (arith, back), λ differ. ground (arith, there))
