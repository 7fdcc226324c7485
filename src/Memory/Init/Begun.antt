-- ===== src/Memory/Init/Begun.antt =====
-- `mm_init` of src/server/dc_mm1.c: both of its loops.
use dnscache.Common.{
  ℕ, zero, suc, ◌+◌, ◌≤◌, ◌<◌, ◌≡◌, refl, sym, ap, ◌∙◌, Bool, true, some, inl, inr, ◌⊎◌, List,
  update, arith, ℕ_discrete,
}
use mathlib.Core.Path.{subst}
use dnscache.Slist.{Heap}
use dnscache.Slist.Chains.{update_same, update_other}
use dnscache.Memory.Chunks.{small, chunk_type_num, Memory, called, init_classes, init_extra}
use dnscache.Memory.Blocks.{Spaced, made}
use dnscache.Memory.Alloc.Fresh.{mm_pre_alloc_lem}
use dnscache.Memory.Init.Begin.{
  chunks_num_bounds, Ready, class_made, init_classes_run, class_made-Ready, class_made_kept,
}

-- The memory after the loop over the extra capacities.
abbrev pub locked : (j : ℕ) → (ℕ → Bool) → (apply frees : ℕ → ℕ) → Memory → Memory
locked j mutexes apply frees m = record m {
  calls = m.calls + j;
  extra_mutex = mutexes;
  extra_apply = apply;
  extra_free = frees;
}

module _ (malloc : ℕ → ℕ) (garbage : Heap) where
  pub init_extra_lem :
      (j : ℕ) (m : Memory)
      → (mutexes : ℕ → Bool) × (apply : ℕ → ℕ) × (frees : ℕ → ℕ) × (init_extra malloc garbage j m
          ≡ locked j mutexes apply frees m)
        × ((c : ℕ) → (m.extra_mutex c ≡ true) ⊎ ((1 ≤ c) × (c ≤ j)) → mutexes c ≡ true)
        × (mutexes 0 ≡ m.extra_mutex 0)
  unfolding init_extra
  init_extra_lem zero m =
      let e : m.calls + 0 ≡ m.calls = omega arith in
      (
        m.extra_mutex,
        m.extra_apply,
        m.extra_free,
        ap (λ k. record m { calls = k }) (sym e),
        λ c h. elim h [ inl t ↦ t | inr (low, high) ↦ absurd (omega arith) ],
        refl,
      )
  init_extra_lem (suc j) m =
      let m1 : Memory = record (called malloc garbage 1 m) {
        extra_mutex = update m.extra_mutex (suc j) true;
        extra_apply = update m.extra_apply (suc j) 0;
        extra_free = update m.extra_free (suc j) 0;
      } in
      let (mutexes, apply, frees, run, kept, zeroth) = init_extra_lem j m1 in
      let e : m.calls + 1 + j ≡ m.calls + suc j = omega arith in
      (
        mutexes,
        apply,
        frees,
        run
            ∙ ap
                (λ k. record m {
                  calls = k;
                  extra_mutex = mutexes;
                  extra_apply = apply;
                  extra_free = frees;
                })
                e,
        λ c h. kept c (elim (ℕ_discrete c (suc j)) [
          | yes same ↦ inl (ap m1.extra_mutex same ∙ update_same m.extra_mutex (suc j) true)
          | no ne ↦ elim h [
            | inl t ↦ inl (update_other m.extra_mutex (suc j) c true ne ∙ t)
            | inr (low, high) ↦ inr (low, omega (arith, ne))
          ]
        ]),
        zeroth ∙ update_other m.extra_mutex (suc j) 0 true (λ e. absurd (omega (arith, e))),
      )

  module _ (spaced : Spaced malloc) where
    abbrev pub AllReady : (from : ℕ) → Memory → (ℕ → List ℕ) → Type 0
    AllReady from m idles =
        (c : ℕ) → from ≤ c → c < chunk_type_num → Ready malloc spaced garbage m c (idles c)

    pub init_classes_lem :
        (i : ℕ) (m : Memory) (idles : ℕ → List ℕ)
        → AllReady i m idles
        → (m' : Memory) × (idles' : ℕ → List ℕ) × (init_classes malloc garbage i m ≡ some m')
          × AllReady 0 m' idles'
          × (m'.elm_table ≡ m.elm_table)
          × (m'.extra_mutex ≡ m.extra_mutex)
    unfolding init_classes
    init_classes_lem zero m idles ready = (m, idles, refl, ready, refl, refl)
    init_classes_lem (suc i) m idles ready =
        let (n, e, few) = chunks_num_bounds i in
        let (sl, made_run, s) =
          mm_pre_alloc_lem malloc garbage spaced (small + i) n (called malloc garbage 1 m)
            (omega arith) in
        let new = made malloc (suc n) (m.calls + 1 + 2) in
        let m1 = class_made malloc spaced garbage i (suc n) sl m in
        let (m', idles', run, ready', lists, locks) =
          init_classes_lem i m1 (update idles i new) (λ c low high. elim (ℕ_discrete c i) [
            | yes same ↦
                subst (λ x. Ready malloc spaced garbage m1 x (update idles i new x)) (sym same)
                  (rw (update_same idles i new)
                    (class_made-Ready malloc spaced garbage i n sl m few s))
            | no ne ↦ rw (update_other idles i c new ne) (
                class_made_kept malloc spaced garbage i (suc n) c sl m (idles c) ne
                  (ready c (omega (arith, ne)) high))
          ]) in
        (
          m',
          idles',
          init_classes_run malloc spaced garbage i (suc n) sl m e made_run ∙ run,
          ready',
          lists,
          locks,
        )
