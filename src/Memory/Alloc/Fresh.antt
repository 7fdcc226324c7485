-- ===== src/Memory/Alloc/Fresh.antt =====
-- `mm_pre_alloc`, `mk_el` and `expand_el` of src/server/dc_mm1.c: the chunks that they make.
use dnscache.Common.{
  ℕ, zero, suc, ◌+◌, ◌≤◌, ◌<◌, ◌≡◌, refl, sym, ap, ◌∙◌, some, inl, inr, List, [], ◌∷◌, ◌++◌, map,
  All, update, arith, append_assoc, map-append,
}
use mathlib.Core.Path.{subst}
use dnscache.Slist.{Pointer, Heap, Slist, mk_slist, sl_expand}
use dnscache.Slist.Chains.{append-All}
use dnscache.Slist.Ends.{Shows, push_lem}
use dnscache.Slist.Blocks.{block, Apart}
use dnscache.Slist.Views.{mk_slist-Shows, sl_expand-Shows}
use dnscache.Memory.Chunks.{Memory, called, new_chunks, mm_pre_alloc}
use dnscache.Memory.Blocks.{Spaced, Old, Old-more, made, stamped, new_Apart, new_differs}

-- The memory after `n` calls of `malloc` for chunks.
abbrev pub with_new : (malloc : ℕ → ℕ) → (n cap : ℕ) → Memory → Memory
with_new malloc n cap m = record m {
  calls = m.calls + n;
  capacity_word = stamped malloc n m.calls cap m.capacity_word;
}

module _ (malloc : ℕ → ℕ) (garbage : Heap) where
  with_new_next :
      (n cap : ℕ) (m : Memory)
      → with_new malloc n cap (record m {
        calls = m.calls + 1;
        capacity_word = update m.capacity_word (malloc m.calls) cap;
      })
        ≡ with_new malloc (suc n) cap m
  with_new_next n cap m =
      let e : m.calls + 1 + n ≡ m.calls + suc n = omega arith in
      ap
        (λ k. record m {
          calls = k;
          capacity_word = stamped malloc (suc n) m.calls cap m.capacity_word;
        })
        e

  -- The loop pushes each chunk that it makes.
  pub new_chunks_lem :
      (P : ℕ → Type 0) (n cap : ℕ) (sl : Slist) (ds : List Pointer) (room : ℕ) (m : Memory)
      → Shows P sl ds (n + room)
      → (sl' : Slist) × (new_chunks malloc garbage n cap sl m ≡ some (sl', with_new malloc n cap m))
        × Shows P sl' (map some (made malloc n m.calls) ++ ds) room
  unfolding new_chunks
  new_chunks_lem P zero cap sl ds room m s =
      let e : m.calls + 0 ≡ m.calls = omega arith in
      let r : 0 + room ≡ room = omega arith in
      (sl, rw (new_chunks, e) refl, subst (Shows P sl ds) r s)
  new_chunks_lem P (suc n) cap sl ds room m s =
      let more : suc n + room ≡ suc (n + room) = omega arith in
      let ptr = malloc m.calls in
      let m1 : Memory = record m {
        calls = m.calls + 1;
        capacity_word = update m.capacity_word ptr cap;
      } in
      let (sl1, run, s1) =
        push_lem P (some ptr) sl ds (suc (n + room)) (subst (Shows P sl ds) more s) in
      let (sl2, run', s2) = new_chunks_lem P n cap sl1 (some ptr ∷ ds) room m1 s1 in
      (
        sl2,
        rw (new_chunks, run) (run' ∙ ap (λ x. some (sl2, x)) (with_new_next n cap m)),
        subst (λ l. Shows P sl2 l room)
            (sym (append_assoc (map some (made malloc n (m.calls + 1))) (some ptr ∷ []) ds)
              ∙ ap (λ l. l ++ ds) (sym (map-append some (made malloc n (m.calls + 1)) (ptr ∷ []))))
            s2,
      )

  module _ (spaced : Spaced malloc) where
    block-Old :
        (i calls n j : ℕ)
        → i < calls
        → j + n ≤ 1024
        → All (Old malloc calls) (block (malloc i + j) n)
    block-Old i calls zero j l few = tt
    block-Old i calls (suc n) j l few = (
      (i, l, omega arith, omega arith),
      let e : malloc i + j + 1 ≡ malloc i + (j + 1) = omega arith in
          rw (e) (block-Old i calls n (j + 1) l (omega arith)),
    )

    -- The two blocks of a list.
    pub block_made :
        (i calls n : ℕ) → i < calls → n ≤ 1024 → All (Old malloc calls) (block (malloc i) n)
    block_made i calls n l few =
        let e : malloc i + 0 ≡ malloc i = omega arith in
        subst (λ p. All (Old malloc calls) (block p n)) e (block-Old i calls n 0 l (omega arith))

    pub second_Apart : (k n : ℕ) → n ≤ 1024 → Apart (malloc k) n (malloc (k + 1))
    second_Apart k n few = elim (spaced k (k + 1) (omega arith)) [
      | inl above ↦ inr (omega arith)
      | inr below ↦ inl (omega arith)
    ]

    pub second-Old : (k : ℕ) → Old malloc (k + 2) (malloc (k + 1))
    second-Old k = (k + 1, omega arith, omega arith, omega arith)

    pub empty_made :
        (k n : ℕ)
        → n < 1024
        → Shows
            (Old malloc (k + 2))
            (mk_slist garbage (malloc k) (malloc (k + 1)) (suc n))
            []
            (suc n)
    empty_made k n few =
        mk_slist-Shows (Old malloc (k + 2)) garbage (malloc k) (malloc (k + 1)) n
          (second_Apart k (suc n) (omega arith))
          (append-All (Old malloc (k + 2)) (block (malloc k) (suc n)) (malloc (k + 1) ∷ [])
            (block_made k (k + 2) (suc n) (omega arith) (omega arith)) (second-Old k, tt))

    -- `mm_pre_alloc` ends in a list of as many new chunks as it is asked for.
    pub mm_pre_alloc_lem :
        (cap n : ℕ) (m : Memory)
        → n < 1024
        → (sl : Slist) × (mm_pre_alloc malloc garbage cap (suc n) m
            ≡ some (sl, with_new malloc (suc n) cap (called malloc garbage 2 m)))
          × Shows
              (Old malloc (m.calls + 2))
              sl
              (map some (made malloc (suc n) (m.calls + 2)) ++ [])
              0
    unfolding mm_pre_alloc
    mm_pre_alloc_lem cap n m few =
        let e : suc n + 0 ≡ suc n = omega arith in
        let (sl, run, s) =
          new_chunks_lem (Old malloc (m.calls + 2)) (suc n) cap
            (mk_slist garbage (malloc m.calls) (malloc (m.calls + 1)) (suc n)) [] 0
            (called malloc garbage 2 m)
            (subst
              (Shows (Old malloc (m.calls + 2))
                (mk_slist garbage (malloc m.calls) (malloc (m.calls + 1)) (suc n)) [])
              (sym e) (empty_made m.calls n few)) in
        (sl, run, s)

    -- The list of an extra capacity with two new chunks before those that it has.
    pub expanded_lem :
        (cap : ℕ) (sl : Slist) (ds : List Pointer) (m : Memory)
        → Shows (Old malloc m.calls) sl ds 0
        → (sl' : Slist) × (new_chunks malloc garbage 2 cap
              (sl_expand sl (malloc m.calls) (malloc (m.calls + 1)) 2)
              (called malloc garbage 2 m)
            ≡ some (sl', with_new malloc 2 cap (called malloc garbage 2 m)))
          × Shows (Old malloc (m.calls + 2)) sl' (map some (made malloc 2 (m.calls + 2)) ++ ds) 0
    expanded_lem cap sl ds m s =
        let k = m.calls in
        new_chunks_lem (Old malloc (k + 2)) 2 cap (sl_expand sl (malloc k) (malloc (k + 1)) 2) ds 0
          (called malloc garbage 2 m)
          (sl_expand-Shows (Old malloc k) (Old malloc (k + 2)) sl ds (malloc k) (malloc (k + 1)) 1 0
            (λ a old. (
              new_Apart malloc spaced k k 2 a (omega arith) (omega arith) old,
              new_differs malloc spaced k (k + 1) a (omega arith) old,
              Old-more malloc k (k + 2) a (omega arith) old,
            ))
            (second_Apart k 2 (omega arith)) (block_made k (k + 2) 2 (omega arith) (omega arith))
            (second-Old k) s)
