-- ===== src/Memory/Free/Return.antt =====
-- `free_extra` and `free_pre_alloced`: the parts of `dc_free` of src/server/dc_mm1.c that put a chunk
-- back into its list.
use dnscache.Common.{
  ℕ, suc, ◌<◌, ◌≡◌, ◌≢◌, refl, sym, ap, ◌∙◌, true, some, none, Option, inl, inr, ◌⊎◌, List, [], ◌∷◌,
  ◌++◌, map, length, update, arith, append_assoc, map-append, length-append, ◌==◌, Bool-cases,
  ==_refl,
}
use mathlib.Core.Path.{subst}
use dnscache.Slist.{Pointer}
use dnscache.Slist.Chains.{NotIn, update_same, update_other}
use dnscache.Slist.Ends.{Shows, push_lem, pop_lem}
use dnscache.Slist.Views.{mv2head-Shows, Shows-length}
use dnscache.Memory.Chunks.{ChunksManager, ExtraListManager, Memory, plus16, count_up}
use dnscache.Memory.Free.{free_extra, free_pre_alloced}
use dnscache.Memory.Blocks.{Old}
use dnscache.Memory.Views.{IsManager, IsList, IsExtra}
use dnscache.Memory.Free.Puts.{
  with_list, others, drop_list_lem, stored, e', free_extra_dropped, free_extra_kept,
  free_pre_alloced_run,
}

module _ (malloc : ℕ → ℕ) where
  -- The list of an extra capacity afterwards: with `a` among its idle chunks, or dropped.
  abbrev pub Returned :
      (run : (rounds : ℕ) → Option Memory) → (m : Memory) (cap a : ℕ) (idle given : List ℕ) → Type 0
  Returned run m cap a idle given =
      (n : ℕ) × (t : ℕ → Option ExtraListManager) × (f : List Pointer) × (idle' : List ℕ)
      × ((rounds : ℕ) → n < rounds → run rounds ≡ some (with_list t f cap m))
      × IsExtra malloc m.calls (t cap) idle' given
      × ((c : ℕ) → c ≢ cap → t c ≡ m.elm_table c)
      × ((idle' ≡ a ∷ idle) ⊎ ((idle' ≡ []) × (t cap ≡ none)))

  no_more : (xs : List ℕ) → length xs ≡ 0 → xs ≡ []
  no_more [] e = refl
  no_more (x ∷ xs) e = absurd (omega (arith, e))

  pub free_extra_lem :
      (a cap : ℕ) (e : ExtraListManager) (m : Memory) (idle l r : List ℕ)
      → IsList malloc m.calls e idle (l ++ a ∷ r)
      → NotIn a (idle ++ l)
      → Returned (λ rounds. free_extra rounds a cap e m) m cap a idle (l ++ r)
  free_extra_lem a cap e m idle l r old apart =
      let P = Old malloc m.calls in
      let total = length-append l (a ∷ r) in
      let left = length-append l r in
      let parts : map some (idle ++ (l ++ a ∷ r)) ≡ map some (idle ++ l) ++ some a ∷ map some r =
        ap (map some) (sym (append_assoc idle l (a ∷ r))) ∙ map-append some (idle ++ l) (a ∷ r) in
      let shown = subst (λ ds. Shows P e.chunks_list ds 0) parts old.shown in
      let (sl, moved, s) =
        mv2head-Shows P (suc e.chunks_list.length) (some a) e.chunks_list (map some (idle ++ l))
          (map some r) 0 shown (others a (idle ++ l) apart) (==_refl a)
          (omega (
            arith,
            Shows-length P e.chunks_list (map some (idle ++ l) ++ some a ∷ map some r) 0 shown,
            length-append (map some (idle ++ l)) (some a ∷ map some r),
          )) in
      let joined : map some (idle ++ l) ++ map some r ≡ map some (idle ++ (l ++ r)) =
        sym (map-append some (idle ++ l) r) ∙ ap (map some) (append_assoc idle l r) in
      let s' : Shows P sl (map some (a ∷ (idle ++ (l ++ r)))) 0 =
        subst (λ ds. Shows P sl (some a ∷ ds) 0) joined s in
      elim (Bool-cases (plus16 e.idle_num 1 == e.total_num)) [
        | inl z ↦
            let (n, bs, frees) =
              drop_list_lem P cap (e' a cap e m sl) (stored cap e sl m)
                (map some (a ∷ (idle ++ (l ++ r)))) 0 s' in
            let t = update (stored cap e sl m).elm_table cap none in
            (
              n,
              t,
              m.freed ++ (map some (a ∷ (idle ++ (l ++ r))) ++ bs),
              [],
              λ rounds enough.
                  free_extra_dropped a cap e m sl rounds _ moved z (frees rounds enough),
              rw (update_same (stored cap e sl m).elm_table cap none) (
                refl,
                no_more (l ++ r) (
                    let c = old.idle_counted in
                    let d = old.total_counted in
                    let b = old.few in
                    let same_count : plus16 e.idle_num 1 ≡ e.total_num = ground arith in
                    omega (arith, same_count, c, d, b, total, left)),
              ),
              λ c ne.
                  update_other (stored cap e sl m).elm_table cap c none ne
                  ∙ update_other m.elm_table cap c _ ne,
              inr (refl, update_same (stored cap e sl m).elm_table cap none),
            )
        | inr z ↦ (
          0,
          (stored cap e sl m).elm_table,
          m.freed,
          a ∷ idle,
          λ rounds enough. free_extra_kept a cap e m sl rounds moved z,
          rw (update_same m.elm_table cap (some (e' a cap e m sl))) (record {
            shown = s';
            idle_counted = omega (arith, old.idle_counted, old.few, total);
            total_counted = omega (arith, old.total_counted, total, left);
            few = omega (arith, old.few, total, left);
          }),
          λ c ne. update_other m.elm_table cap c _ ne,
          inl refl,
        )
      ]

  pub free_pre_alloced_lem :
      (a pos : ℕ) (m : Memory) (idle l r : List ℕ)
      → IsManager malloc m.calls (m.chunks_manager_table pos) idle (l ++ a ∷ r)
      → NotIn a l
      → m.pre_alloc_mutex pos ≡ true
      → (mgr : ChunksManager) × (free_pre_alloced a pos m
          ≡ some (record m {
            chunks_manager_table = update m.chunks_manager_table pos mgr;
            pre_alloc_free = count_up m.pre_alloc_free pos;
          }))
        × IsManager malloc m.calls mgr (a ∷ idle) (l ++ r)
  free_pre_alloced_lem a pos m idle l r old apart lock =
      let P = Old malloc m.calls in
      let mgr = m.chunks_manager_table pos in
      let total = length-append l (a ∷ r) in
      let left = length-append l r in
      let shown =
        subst (λ ds. Shows P mgr.alloced_chunks ds (length idle)) (map-append some l (a ∷ r))
          old.out_shown in
      let (sl, moved, s) =
        mv2head-Shows P (suc mgr.alloced_chunks.length) (some a) mgr.alloced_chunks (map some l)
          (map some r) (length idle) shown (others a l apart) (==_refl a)
          (omega (
            arith,
            Shows-length P mgr.alloced_chunks (map some l ++ some a ∷ map some r) (length idle)
                shown,
            length-append (map some l) (some a ∷ map some r),
          )) in
      let (alloced, popped, s1) =
        pop_lem P sl (some a ∷ (map some l ++ map some r)) (length idle) s in
      let room : length (l ++ a ∷ r) ≡ suc (length (l ++ r)) = omega (arith, total, left) in
      let (filled, pushed, s2) =
        push_lem P (some a) mgr.idle_chunks (map some idle) (suc (length (l ++ r)))
          (subst (Shows P mgr.idle_chunks (map some idle)) room old.idle_shown) in
      (
        record mgr {
          idle_num = plus16 mgr.idle_num 1;
          idle_chunks = filled;
          alloced_chunks = alloced;
        },
        free_pre_alloced_run a pos m (some a) sl alloced filled lock moved popped pushed,
        record {
          idle_shown = s2;
          out_shown =
              subst (λ ds. Shows P alloced ds (suc (length idle))) (sym (map-append some l r)) s1;
          idle_counted = omega (arith, old.idle_counted, old.few, total);
          few = omega (arith, old.few, total, left);
        },
      )
