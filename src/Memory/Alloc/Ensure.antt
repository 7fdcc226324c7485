-- ===== src/Memory/Alloc/Ensure.antt =====
-- `mk_el` and `expand_el` of src/server/dc_mm1.c, as `dc_alloc` calls them: a capacity gets idle
-- chunks in its extra list.
use dnscache.Common.{
  ℕ, ◌+◌, ◌^◌, ◌<◌, ◌≡◌, refl, sym, ap, ◌∙◌, true, false, some, none, inl, inr, List, [], ◌∷◌, ◌++◌,
  map, length, update, arith, Option-cases, ◌==◌,
}
use mathlib.Core.Path.{subst}
use dnscache.Slist.{Heap, Slist, sl_expand}
use dnscache.Slist.Ends.{Shows}
use dnscache.Memory.Chunks.{
  mm_pre_alloc, new_chunks, ExtraListManager, Memory, called, mk_el, expand_el, plus16,
}
use dnscache.Memory.Alloc.{ensure_extra}
use dnscache.Memory.Blocks.{Spaced, Old, made, stamped, length-made}
use dnscache.Memory.Views.{IsList, IsExtra, HasClass}
use dnscache.Memory.Frames.{shown_later}
use dnscache.Memory.Alloc.Fresh.{mm_pre_alloc_lem, expanded_lem}
use dnscache.Memory.Alloc.Stock.{busy, stocked, stocked-Frame, Ensured, stocked-HasClass}

module _ (malloc : ℕ → ℕ) (spaced : Spaced malloc) (garbage : Heap) where
  mk_el_run :
      (cap : ℕ) (m m1 : Memory) (sl : Slist)
      → m.elm_table cap ≡ none
      → mm_pre_alloc malloc garbage cap 2 (called malloc garbage 1 m) ≡ some (sl, m1)
      → mk_el malloc garbage cap m
        ≡ some (record m1 {
          elm_table =
              update m1.elm_table cap
                (some (record { idle_num = 2; total_num = 2; chunks_list = sl }));
        })
  unfolding mk_el
  mk_el_run cap m m1 sl e run = rw (mk_el, e, run) refl

  expand_el_run :
      (cap : ℕ) (m m1 : Memory) (e : ExtraListManager) (sl : Slist)
      → m.elm_table cap ≡ some e
      → new_chunks malloc garbage 2 cap
          (sl_expand e.chunks_list (malloc m.calls) (malloc (m.calls + 1)) 2)
          (called malloc garbage 2 m)
        ≡ some (sl, m1)
      → expand_el malloc garbage cap m
        ≡ some (record m1 {
          elm_table = update m1.elm_table cap (
              some (record {
                idle_num = plus16 e.idle_num 2;
                total_num = plus16 e.total_num 2;
                chunks_list = sl;
              }));
        })
  unfolding expand_el
  expand_el_run cap m m1 e sl is run = rw (expand_el, is, run) refl

  mk_el_ensures :
      (cap : ℕ) (m : Memory) (given extra_given : List ℕ)
      → m.elm_table cap ≡ none
      → HasClass malloc m cap (busy given [] extra_given)
      → Ensured malloc spaced (mk_el malloc garbage cap m) m cap given [] extra_given
  mk_el_ensures cap m given extra_given e has =
      let k = m.calls in
      let (_, nobody) = subst (λ o. IsExtra malloc k o [] extra_given) e has.extra in
      let (sl, run, s) =
        mm_pre_alloc_lem malloc garbage spaced cap 1 (called malloc garbage 1 m) (omega arith) in
      let el : ExtraListManager = record { idle_num = 2; total_num = 2; chunks_list = sl } in
      let next : k + 1 + 2 ≡ k + 3 = omega arith in
      let new = made malloc 2 (k + 3) in
      let listed : IsList malloc (k + 3 + 2) el new extra_given = record {
        shown =
            subst (λ x. Shows (Old malloc (k + 3 + 2)) sl (map some (new ++ x)) 0) (sym nobody)
              (subst (λ j. Shows (Old malloc (k + 3 + 2)) sl (map some (made malloc 2 j ++ [])) 0)
                next (shown_later malloc (k + 1 + 2) (k + 3 + 2) (omega arith) sl _ 0 s));
        idle_counted = sym (length-made malloc 2 (k + 3));
        total_counted = omega (arith, length-made malloc 2 (k + 3), ap length nobody);
        few = omega (arith, length-made malloc 2 (k + 3), ap length nobody);
      } in
      (
        stocked malloc spaced 3 cap el m,
        malloc (k + 3 + 1),
        malloc (k + 3) ∷ [],
        mk_el_run cap m _ sl e run
            ∙ ap
                (λ j. some (record m {
                  elm_table = update m.elm_table cap (some el);
                  calls = j + 2;
                  capacity_word = stamped malloc 2 j cap m.capacity_word;
                }))
                next,
        stocked-HasClass malloc spaced 3 cap el m given extra_given has listed,
        omega arith,
        stocked-Frame malloc spaced 3 cap el m,
      )

  expand_el_ensures :
      (cap : ℕ) (e : ExtraListManager) (m : Memory) (given extra_given : List ℕ)
      → m.elm_table cap ≡ some e
      → length extra_given + 2 < 2 ^ 16
      → HasClass malloc m cap (busy given [] extra_given)
      → Ensured malloc spaced (expand_el malloc garbage cap m) m cap given [] extra_given
  expand_el_ensures cap e m given extra_given is few has =
      let k = m.calls in
      let old = subst (λ o. IsExtra malloc k o [] extra_given) is has.extra in
      let (sl, run, s) =
        expanded_lem malloc garbage spaced cap e.chunks_list (map some extra_given) m old.shown in
      let el : ExtraListManager = record {
        idle_num = plus16 e.idle_num 2;
        total_num = plus16 e.total_num 2;
        chunks_list = sl;
      } in
      let new = made malloc 2 (k + 2) in
      let listed : IsList malloc (k + 2 + 2) el new extra_given = record {
        shown = shown_later malloc (k + 2) (k + 2 + 2) (omega arith) sl _ 0 s;
        idle_counted = omega (arith, old.idle_counted, length-made malloc 2 (k + 2));
        total_counted = omega (arith, old.total_counted, few, length-made malloc 2 (k + 2));
        few = omega (arith, few, length-made malloc 2 (k + 2));
      } in
      (
        stocked malloc spaced 2 cap el m,
        malloc (k + 2 + 1),
        malloc (k + 2) ∷ [],
        expand_el_run cap m _ e sl is run,
        stocked-HasClass malloc spaced 2 cap el m given extra_given has listed,
        omega arith,
        stocked-Frame malloc spaced 2 cap el m,
      )

  -- `dc_alloc` makes the list if there is none, and expands it if it has no idle chunk.
  pub ensure_extra_lem :
      (cap : ℕ) (m : Memory) (given idle extra_given : List ℕ)
      → length (idle ++ extra_given) + 2 < 2 ^ 16
      → HasClass malloc m cap (busy given idle extra_given)
      → Ensured malloc spaced (ensure_extra malloc garbage cap m) m cap given idle extra_given
  unfolding ensure_extra
  ensure_extra_lem cap m given [] extra_given few has = elim (Option-cases (m.elm_table cap)) [
    | inl e ↦
        subst (λ r. Ensured malloc spaced r m cap given [] extra_given) (rw (ensure_extra, e) refl)
          (mk_el_ensures cap m given extra_given e has)
    | inr (e, is) ↦
        let old = subst (λ o. IsExtra malloc m.calls o [] extra_given) is has.extra in
        let none_idle : (e.idle_num == 0) ≡ true = let c = old.idle_counted in ground arith in
        subst (λ r. Ensured malloc spaced r m cap given [] extra_given)
          (rw (ensure_extra, is, none_idle) refl)
          (expand_el_ensures cap e m given extra_given is (omega (arith, few)) has)
  ]
  ensure_extra_lem cap m given (a ∷ rest) extra_given few has =
      elim (Option-cases (m.elm_table cap)) [
        | inl e ↦
            let (nothing, _) =
              subst (λ o. IsExtra malloc m.calls o (a ∷ rest) extra_given) e has.extra in
            absurd cc
        | inr (e, is) ↦
            let old = subst (λ o. IsExtra malloc m.calls o (a ∷ rest) extra_given) is has.extra in
            let some_idle : (e.idle_num == 0) ≡ false = let c = old.idle_counted in ground arith in
            (
              m,
              a,
              rest,
              rw (ensure_extra, is, some_idle) refl,
              has,
              omega arith,
              record {
                tables = λ i ne. refl;
                lists = λ c ne. refl;
                pre_locks = refl;
                extra_locks = refl;
                later = omega arith;
                words = λ b o. refl;
              },
            )
      ]
