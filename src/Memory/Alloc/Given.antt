-- ===== src/Memory/Alloc/Given.antt =====
-- `dc_alloc` of src/server/dc_mm1.c: the chunk that it gives.
use dnscache.Common.{
  ℕ, suc, ◌+◌, ◌-◌, ◌^◌, ◌≤◌, ◌<◌, ◌≡◌, refl, sym, ◌∙◌, true, false, some, inl, inr, List, [], ◌∷◌,
  ◌++◌, length, arith, length-append, ◌==◌, Option-cases, Bool-cases, le→leb, leb,
}
use mathlib.Core.Path.{subst}
use dnscache.Slist.{Heap}
use dnscache.Memory.SizeClass.{biggest_cap, cap_of}
use dnscache.Memory.Chunks.{small, Memory}
use dnscache.Memory.Alloc.{
  Result, is_extra, has_idle, ensure_extra, select_extra, alloc_extra, alloc_other, dc_alloc,
}
use dnscache.Memory.Blocks.{Spaced, Old-more}
use dnscache.Memory.Views.{View, IsExtra, IsPre, HasClass, Frame}
use dnscache.Memory.Alloc.Stock.{busy}
use dnscache.Memory.Alloc.Ensure.{ensure_extra_lem}
use dnscache.Memory.Alloc.SelectOwn.{select_pre_alloced_lem}
use dnscache.Memory.Alloc.Select.{lock_extra_lem, Taken, select_extra_lem}

abbrev viewed : (pre_idle pre_out extra_idle extra_out : List ℕ) → View
viewed pre_idle given extra_idle extra_given = record {
  pre_idle = pre_idle;
  pre_out = given;
  extra_idle = extra_idle;
  extra_out = extra_given;
}

Frame-twice :
    (malloc : ℕ → ℕ) (m m1 m2 : Memory) (cap : ℕ)
    → Frame malloc m m1 cap
    → Frame malloc m1 m2 cap
    → Frame malloc m m2 cap
Frame-twice malloc m m1 m2 cap f g = record {
  tables = λ i ne. g.tables i ne ∙ f.tables i ne;
  lists = λ c ne. g.lists c ne ∙ f.lists c ne;
  pre_locks = g.pre_locks ∙ f.pre_locks;
  extra_locks = g.extra_locks ∙ f.extra_locks;
  later = omega (arith, f.later, g.later);
  words = λ a old. g.words a (Old-more malloc m.calls m1.calls a f.later old) ∙ f.words a old;
}

module _ (malloc : ℕ → ℕ) (m : Memory) (cap : ℕ) (extra_given : List ℕ) where
  has_idle-none :
      IsExtra malloc m.calls (m.elm_table cap) [] extra_given → has_idle (m.elm_table cap) ≡ false
  has_idle-none is = elim (Option-cases (m.elm_table cap)) [
    | inl e ↦ rw (e) refl
    | inr (e, eq) ↦
        let c = (subst (λ o. IsExtra malloc m.calls o [] extra_given) eq is).idle_counted in
        rw (eq) (ground arith)
  ]

  has_idle-some :
      (a : ℕ) (rest : List ℕ)
      → IsExtra malloc m.calls (m.elm_table cap) (a ∷ rest) extra_given
      → has_idle (m.elm_table cap) ≡ true
  has_idle-some a rest is = elim (Option-cases (m.elm_table cap)) [
    | inl e ↦
        let (nothing, _) = subst (λ o. IsExtra malloc m.calls o (a ∷ rest) extra_given) e is in
        absurd cc
    | inr (e, eq) ↦
        let c = (subst (λ o. IsExtra malloc m.calls o (a ∷ rest) extra_given) eq is).idle_counted in
        rw (eq) (ground arith)
  ]

Taken-more :
    (malloc : ℕ → ℕ) (r : Result) (m : Memory) (cap : ℕ) (v : View)
    → Taken malloc 0 r m cap v
    → Taken malloc 2 r m cap v
Taken-more malloc r m cap v (a, m', v', run, has, ins, fewer, f) =
    (a, m', v', run, has, ins, omega (arith, fewer), f)

alloc_extra_run :
    (malloc : ℕ → ℕ) (garbage : Heap) (again : ℕ → Memory → Result) (cap : ℕ) (m m1 : Memory)
    → cap ≤ biggest_cap
    → m.extra_mutex cap ≡ true
    → ensure_extra malloc garbage cap m ≡ some m1
    → alloc_extra malloc garbage again cap m ≡ select_extra again cap m1
unfolding alloc_extra
alloc_extra_run malloc garbage again cap m m1 l lock run =
    rw (alloc_extra, lock_extra_lem cap m l lock, run) refl

module _ (malloc : ℕ → ℕ) (spaced : Spaced malloc) (garbage : Heap) where
  module _ (again : ℕ → Memory → Result) (cap : ℕ) (small_cap : cap ≤ biggest_cap)
      (m : Memory) where
    alloc_extra_lem :
        (given idle extra_given : List ℕ)
        → length (idle ++ extra_given) + 2 < 2 ^ 16
        → HasClass malloc m cap (busy given idle extra_given)
        → Taken malloc 2
            (alloc_extra malloc garbage again cap m)
            m
            cap
            (busy given idle extra_given)
    alloc_extra_lem given idle extra_given few has =
        let (m1, a, rest, run, has1, more, f) =
          ensure_extra_lem malloc spaced garbage cap m given idle extra_given few has in
        let (b, m2, v', run', has2, ins, fewer, g) =
          select_extra_lem malloc again cap m1 a rest given extra_given small_cap has1 in
        (
          b,
          m2,
          v',
          alloc_extra_run malloc garbage again cap m m1 small_cap has.extra_lock run ∙ run',
          has2,
          ins,
          omega (
            arith,
            more,
            fewer,
            length-append (a ∷ rest) (given ++ extra_given),
            length-append idle (given ++ extra_given),
          ),
          Frame-twice malloc m m1 m2 cap f g,
        )

    alloc_other_lem :
        (given idle extra_given : List ℕ)
        → length (idle ++ extra_given) + 2 < 2 ^ 16
        → HasClass malloc m cap (busy given idle extra_given)
        → Taken malloc 2
            (alloc_other malloc garbage again cap m)
            m
            cap
            (busy given idle extra_given)
    unfolding alloc_other
    alloc_other_lem given [] extra_given few has =
        let below : leb cap 30 ≡ true = le→leb small_cap in
        let no_idle : has_idle (m.elm_table cap) ≡ false =
          has_idle-none malloc m cap extra_given has.extra in
        subst (λ r. Taken malloc 2 r m cap (busy given [] extra_given))
          (rw (alloc_other, below, no_idle) refl) (alloc_extra_lem given [] extra_given few has)
    alloc_other_lem given (a ∷ rest) extra_given few has =
        let below : leb cap 30 ≡ true = le→leb small_cap in
        let idle : has_idle (m.elm_table cap) ≡ true =
          has_idle-some malloc m cap extra_given a rest has.extra in
        subst (λ r. Taken malloc 2 r m cap (busy given (a ∷ rest) extra_given))
          (rw (alloc_other, below, idle) refl)
          (Taken-more malloc _ m cap (busy given (a ∷ rest) extra_given)
            (select_extra_lem malloc again cap m a rest given extra_given small_cap has))

  module _ (rounds size : ℕ) (sized : (size == 0) ≡ false) (l : cap_of size ≤ biggest_cap)
      (m : Memory) where
    abbrev run : Result
    unfolding dc_alloc
    run = dc_alloc malloc garbage (suc rounds) size m

    abbrev again : ℕ → Memory → Result
    unfolding dc_alloc
    again size' m' = dc_alloc malloc garbage rounds size' m'

    Taken-extra :
        (given idle extra_given : List ℕ)
        → is_extra (cap_of size) ≡ true
        → length (idle ++ extra_given) + 2 < 2 ^ 16
        → HasClass malloc m (cap_of size) (busy given idle extra_given)
        → Taken malloc 2 run m (cap_of size) (busy given idle extra_given)
    unfolding dc_alloc
    Taken-extra given idle extra_given extra few has =
        subst (λ r. Taken malloc 2 r m (cap_of size) (busy given idle extra_given))
          (rw (dc_alloc, sized, extra) refl)
          (alloc_other_lem again (cap_of size) l m given idle extra_given few has)

    Taken-own :
        (pre_idle given idle extra_given : List ℕ)
        → is_extra (cap_of size) ≡ false
        → length (idle ++ extra_given) + 2 < 2 ^ 16
        → HasClass malloc m (cap_of size) (viewed pre_idle given idle extra_given)
        → Taken malloc 2 run m (cap_of size) (viewed pre_idle given idle extra_given)
    unfolding dc_alloc
    Taken-own pre_idle given idle extra_given own few has =
        let counted : (m.chunks_manager_table (cap_of size - small)).idle_num ≡ length pre_idle =
          (subst
            (λ x.
              IsPre malloc x m.calls (m.chunks_manager_table (cap_of size - small)) pre_idle given)
            own has.pre).idle_counted in
        by_idle pre_idle counted has
      where
        by_idle :
            (pre_idle : List ℕ)
            → (m.chunks_manager_table (cap_of size - small)).idle_num ≡ length pre_idle
            → HasClass malloc m (cap_of size) (viewed pre_idle given idle extra_given)
            → Taken malloc 2 run m (cap_of size) (viewed pre_idle given idle extra_given)
        by_idle [] counted has =
            let z : ((m.chunks_manager_table (cap_of size - small)).idle_num == 0) ≡ true =
              ground arith in
            subst (λ r. Taken malloc 2 r m (cap_of size) (busy given idle extra_given))
              (rw (dc_alloc, sized, own, z) refl)
              (alloc_extra_lem again (cap_of size) l m given idle extra_given few has)
        by_idle (a ∷ rest) counted has =
            let z : ((m.chunks_manager_table (cap_of size - small)).idle_num == 0) ≡ false =
              ground arith in
            let v = viewed (a ∷ rest) given idle extra_given in
            subst (λ r. Taken malloc 2 r m (cap_of size) v) (rw (dc_alloc, sized, own, z) refl)
              (Taken-more malloc _ m (cap_of size) v
                (select_pre_alloced_lem malloc again (cap_of size) m a v rest own refl has))

    Taken-any :
        (pre_idle given idle extra_given : List ℕ)
        → length (idle ++ extra_given) + 2 < 2 ^ 16
        → HasClass malloc m (cap_of size) (viewed pre_idle given idle extra_given)
        → Taken malloc 2 run m (cap_of size) (viewed pre_idle given idle extra_given)
    unfolding dc_alloc
    Taken-any pre_idle given idle extra_given few has = elim (Bool-cases (is_extra (cap_of size))) [
      | inl extra ↦
          let (nothing, _) =
            subst
              (λ x.
                IsPre malloc x m.calls (m.chunks_manager_table (cap_of size - small)) pre_idle
                  given)
              extra has.pre in
          subst (λ i. Taken malloc 2 run m (cap_of size) (viewed i given idle extra_given))
            (sym nothing)
            (Taken-extra given idle extra_given extra few (
              subst (λ i. HasClass malloc m (cap_of size) (viewed i given idle extra_given)) nothing
                has))
      | inr own ↦ Taken-own pre_idle given idle extra_given own few has
    ]

    -- `dc_alloc` without a call of itself: a chunk of the capacity goes to the caller.
    pub dc_alloc-Taken :
        (v : View)
        → length (v.extra_idle ++ v.extra_out) + 2 < 2 ^ 16
        → HasClass malloc m (cap_of size) v
        → Taken malloc 2 (dc_alloc malloc garbage (suc rounds) size m) m (cap_of size) v
    unfolding dc_alloc
    dc_alloc-Taken v few has = Taken-any v.pre_idle v.pre_out v.extra_idle v.extra_out few has
