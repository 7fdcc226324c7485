-- ===== src/Memory/Blocks.antt =====
-- What `malloc` gives: blocks that do not overlap, and the chunks that `new_chunks` makes of them.
use dnscache.Common.{
  ℕ, zero, suc, ◌+◌, ◌≤◌, ◌<◌, ◌≡◌, ◌≢◌, ◌⊎◌, inl, inr, refl, sym, ◌∙◌, List, [], ◌∷◌, ◌++◌, length,
  All, update, arith, length-append, append_assoc,
}
use mathlib.Core.Path.{subst}
use dnscache.Slist.Chains.{NotIn, Distinct, update_same, update_other, append-All}
use dnscache.Slist.Blocks.{Apart}
use dnscache.Slist.Views.{All-weaker}

-- The blocks of different calls do not overlap; a block has room for 1024 nodes.
abbrev pub Spaced : (ℕ → ℕ) → Type 0
Spaced malloc = (i j : ℕ) → i < j → (malloc i + 1024 ≤ malloc j) ⊎ (malloc j + 1024 ≤ malloc i)

module _ (malloc : ℕ → ℕ) where
  -- An address in one of the first `calls` blocks.
  abbrev pub Old : (calls : ℕ) → ℕ → Type 0
  Old calls a = (i : ℕ) × (i < calls) × (malloc i ≤ a) × (a < malloc i + 1024)

  pub Old-more : (calls more a : ℕ) → calls ≤ more → Old calls a → Old more a
  Old-more calls more a l (i, less, low, high) = (i, omega arith, low, high)

  -- The chunks of `n` calls from `k` on, the last first.
  abbrev pub made : (n k : ℕ) → List ℕ
  made zero k = []
  made (suc n) k = made n (k + 1) ++ malloc k ∷ []

  -- The words before the chunks.
  abbrev pub stamped : (n k cap : ℕ) → (ℕ → ℕ) → ℕ → ℕ
  stamped zero k cap w = w
  stamped (suc n) k cap w = stamped n (k + 1) cap (update w (malloc k) cap)

  pub Old-made : (n k : ℕ) → All (Old (k + n)) (made n k)
  Old-made zero k = tt
  Old-made (suc n) k =
      append-All (Old (k + suc n)) (made n (k + 1)) (malloc k ∷ [])
        (let e : k + 1 + n ≡ k + suc n = omega arith in rw e at (Old-made n (k + 1)))
        ((k, omega arith, omega arith, omega arith), tt)

  pub length-made : (n k : ℕ) → length (made n k) ≡ n
  length-made zero k = refl
  length-made (suc n) k =
      omega (arith, length-append (made n (k + 1)) (malloc k ∷ []), length-made n (k + 1))

  stamped_kept : (n k cap : ℕ) (w : ℕ → ℕ) (a : ℕ) → w a ≡ cap → stamped n k cap w a ≡ cap
  stamped_kept zero k cap w a e = e
  stamped_kept (suc n) k cap w a e =
      stamped_kept n (k + 1) cap (update w (malloc k) cap) a (ground arith)

  pub stamped-made : (n k cap : ℕ) (w : ℕ → ℕ) → All (λ c. stamped n k cap w c ≡ cap) (made n k)
  stamped-made zero k cap w = tt
  stamped-made (suc n) k cap w =
      append-All (λ c. stamped (suc n) k cap w c ≡ cap) (made n (k + 1)) (malloc k ∷ [])
        (stamped-made n (k + 1) cap (update w (malloc k) cap))
        (
          stamped_kept n (k + 1) cap (update w (malloc k) cap) (malloc k)
              (update_same w (malloc k) cap),
          tt,
        )

  module _ (spaced : Spaced malloc) where
    pub new_Apart : (k j n a : ℕ) → k ≤ j → n ≤ 1024 → Old k a → Apart (malloc j) n a
    new_Apart k j n a l few (i, less, low, high) = elim (spaced i j (omega arith)) [
      | inl above ↦ inl (omega arith)
      | inr below ↦ inr (omega arith)
    ]

    pub new_differs : (k j a : ℕ) → k ≤ j → Old k a → malloc j ≢ a
    new_differs k j a l (i, less, low, high) e = elim (spaced i j (omega arith)) [
      | inl above ↦ absurd (omega arith)
      | inr below ↦ absurd (omega arith)
    ]

    pub stamped-Old :
        (n k j cap : ℕ) (w : ℕ → ℕ) (a : ℕ) → k ≤ j → Old k a → stamped n j cap w a ≡ w a
    stamped-Old zero k j cap w a l old = refl
    stamped-Old (suc n) k j cap w a l old =
        stamped-Old n k (j + 1) cap (update w (malloc j) cap) a (omega arith) old
        ∙ update_other w (malloc j) a cap (λ e. new_differs k j a l old (sym e))

    pub NotIn-made : (n k j a : ℕ) → k ≤ j → Old k a → NotIn a (made n j)
    NotIn-made zero k j a l old = tt
    NotIn-made (suc n) k j a l old =
        append-All (λ b. a ≢ b) (made n (j + 1)) (malloc j ∷ [])
          (NotIn-made n k (j + 1) a (omega arith) old) ((λ e. new_differs k j a l old (sym e)), tt)

    -- New chunks differ from each other and from those that there are.
    pub Distinct-made :
        (n k j : ℕ) (xs : List ℕ) → k ≤ j → All (Old k) xs → Distinct xs → Distinct (made n j ++ xs)
    Distinct-made zero k j xs l old d = d
    Distinct-made (suc n) k j xs l old d =
        subst Distinct (sym (append_assoc (made n (j + 1)) (malloc j ∷ []) xs)) (
          Distinct-made n (j + 1) (j + 1) (malloc j ∷ xs) (omega arith)
            (
              (j, omega arith, omega arith, omega arith),
              All-weaker (Old k) (Old (j + 1)) xs (λ a o. Old-more k (j + 1) a (omega arith) o) old,
            )
            (All-weaker (Old k) (λ a. malloc j ≢ a) xs (λ a o. new_differs k j a l o) old, d))
