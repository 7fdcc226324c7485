-- ===== src/Memory/Free/Released.antt =====
-- What `dc_free` of src/server/dc_mm1.c promises: the chunk is idle again, and callers keep the others.
use dnscache.Common.{
  ℕ, ◌-◌, ◌≡◌, ◌≢◌, refl, sym, ap, ◌∙◌, false, some, Option, inl, inr, ◌⊎◌, List, [], ◌∷◌, ◌++◌,
  update, arith, append_assoc, append-nil, Option-cases,
}
use mathlib.Core.Path.{subst}
use dnscache.Slist.Chains.{NotIn, All-append, append-All, update_same, update_other}
use dnscache.Memory.Chunks.{small, ExtraListManager, Memory, count_up}
use dnscache.Memory.Alloc.{is_extra}
use dnscache.Memory.Free.{free_extra, free_pre_alloced}
use dnscache.Memory.Views.{View, out, IsManager, IsList, IsExtra, IsPre, Marked, HasClass}
use dnscache.Memory.Frames.{Good, Good-insert}
use dnscache.Memory.Free.Puts.{with_list}
use dnscache.Memory.Free.Return.{free_extra_lem, free_pre_alloced_lem}
use dnscache.Memory.Free.Freed.{nonempty, Good-drop, IsBack, Back, Good-out}

module _ (malloc : ℕ → ℕ) where
  -- The chunks after a return to the extra list.
  Good-returned :
      (P : ℕ → Type 0) (a : ℕ) (pre idle idle' given : List ℕ) {Dropped : Type 0}
      → (idle' ≡ a ∷ idle) ⊎ ((idle' ≡ []) × Dropped)
      → Good P (a ∷ ((pre ++ idle) ++ given))
      → Good P ((pre ++ idle') ++ given)
  Good-returned P a pre idle idle' given (inl e) g =
      subst (λ i. Good P ((pre ++ i) ++ given)) (sym e)
        (subst (Good P) (sym (append_assoc pre (a ∷ idle) given)) (
          Good-insert P pre a (idle ++ given)
            (subst (λ xs. Good P (a ∷ xs)) (append_assoc pre idle given) g)))
  Good-returned P a pre idle idle' given (inr (e, _)) ((p, all), (n, d)) =
      subst (λ i. Good P ((pre ++ i) ++ given)) (sym e)
        (subst (λ xs. Good P (xs ++ given)) (sym (append-nil pre))
          (Good-drop P pre idle given (subst (Good P) (append_assoc pre idle given) (all, d))))

  pub Back-list :
      (run : (rounds : ℕ) → Option Memory) (m : Memory) (cap a : ℕ) (v : View) (l k r : List ℕ)
      → v.extra_out ≡ k ++ a ∷ r
      → l ≡ v.pre_out ++ k
      → HasClass malloc m cap v
      → ((e : ExtraListManager)
          → m.elm_table cap ≡ some e
          → (rounds : ℕ) → run rounds ≡ free_extra rounds a cap e m)
      → Back malloc run m cap a v l r
  Back-list run m cap a v l k r here before has runs = elim (Option-cases (m.elm_table cap)) [
    | inl e ↦
        let (_, nothing) =
          subst (λ o. IsExtra malloc m.calls o v.extra_idle v.extra_out) e has.extra in
        absurd (nonempty k a r (sym here ∙ nothing))
    | inr (e, is) ↦
        let whole : out v ≡ l ++ a ∷ r =
          ap (λ o. v.pre_out ++ o) here
          ∙ (sym (append_assoc v.pre_out k (a ∷ r)) ∙ ap (λ o. o ++ a ∷ r) (sym before)) in
        let ((_, all), (apart, d)) = Good-out malloc m cap a v l r has whole in
        let (not_idle, not_out) =
          All-append (λ b. a ≢ b) (v.pre_idle ++ v.extra_idle) (l ++ r) apart in
        let not_l = (All-append (λ b. a ≢ b) l r not_out).0 in
        let not_k = (All-append (λ b. a ≢ b) v.pre_out k (subst (NotIn a) before not_l)).1 in
        let old : IsList malloc m.calls e v.extra_idle (k ++ a ∷ r) =
          subst (IsList malloc m.calls e v.extra_idle) here
            (subst (λ o. IsExtra malloc m.calls o v.extra_idle v.extra_out) is has.extra) in
        let (n, t, f, idle', frees, listed, kept, choice) =
          free_extra_lem malloc a cap e m v.extra_idle k r old (
            append-All (λ b. a ≢ b) v.extra_idle k
              (All-append (λ b. a ≢ b) v.pre_idle v.extra_idle not_idle).1 not_k) in
        let left : v.pre_out ++ (k ++ r) ≡ l ++ r =
          sym (append_assoc v.pre_out k r) ∙ ap (λ o. o ++ r) (sym before) in
        let (all', d') =
          Good-returned (Marked malloc m cap) a v.pre_idle v.extra_idle idle'
            (v.pre_out ++ (k ++ r)) choice
            (subst (λ o. Good (Marked malloc m cap) (a ∷ ((v.pre_idle ++ v.extra_idle) ++ o)))
              (sym left) (Good-out malloc m cap a v l r has whole)) in
        let returned : IsBack (with_list t f cap m) cap a v
            (record v { extra_idle = idle'; extra_out = k ++ r }) =
          elim choice [ inl e' ↦ inr (inl (refl, e')) | inr (_, gone) ↦ inr (inr (refl, gone)) ] in
        (
          n,
          with_list t f cap m,
          record v { extra_idle = idle'; extra_out = k ++ r },
          λ rounds enough. runs e is rounds ∙ frees rounds enough,
          record {
            pre = has.pre;
            extra = listed;
            pre_lock = has.pre_lock;
            extra_lock = has.extra_lock;
            marked = all';
            distinct = d';
          },
          left,
          record {
            tables = λ i ne. refl;
            lists = kept;
            pre_locks = refl;
            extra_locks = refl;
            later = omega arith;
            words = λ b o. refl;
          },
          returned,
        )
  ]

  pub Back-own :
      (run : (rounds : ℕ) → Option Memory) (m : Memory) (cap a : ℕ) (v : View) (l k r : List ℕ)
      → v.pre_out ≡ l ++ a ∷ k
      → r ≡ k ++ v.extra_out
      → is_extra cap ≡ false
      → HasClass malloc m cap v
      → ((rounds : ℕ) → run rounds ≡ free_pre_alloced a (cap - small) m)
      → Back malloc run m cap a v l r
  Back-own run m cap a v l k r here after own has runs =
      let whole : out v ≡ l ++ a ∷ r =
        ap (λ o. o ++ v.extra_out) here
        ∙ (append_assoc l (a ∷ k) v.extra_out ∙ ap (λ o. l ++ a ∷ o) (sym after)) in
      let pos = cap - small in
      let ((p, all), (apart, d)) = Good-out malloc m cap a v l r has whole in
      let (_, not_out) = All-append (λ b. a ≢ b) (v.pre_idle ++ v.extra_idle) (l ++ r) apart in
      let old : IsManager malloc m.calls (m.chunks_manager_table pos) v.pre_idle (l ++ a ∷ k) =
        subst (IsManager malloc m.calls (m.chunks_manager_table pos) v.pre_idle) here (
          subst (λ x. IsPre malloc x m.calls (m.chunks_manager_table pos) v.pre_idle v.pre_out) own
            has.pre) in
      let (mgr, freed, managed) =
        free_pre_alloced_lem malloc a pos m v.pre_idle l k old
          (All-append (λ b. a ≢ b) l r not_out).0 (has.pre_lock own) in
      let m' : Memory = record m {
        chunks_manager_table = update m.chunks_manager_table pos mgr;
        pre_alloc_free = count_up m.pre_alloc_free pos;
      } in
      let left : (l ++ k) ++ v.extra_out ≡ l ++ r =
        append_assoc l k v.extra_out ∙ ap (λ o. l ++ o) (sym after) in
      let (all', d') =
        subst (λ o. Good (Marked malloc m cap) (a ∷ ((v.pre_idle ++ v.extra_idle) ++ o))) (sym left)
          (Good-out malloc m cap a v l r has whole) in
      (
        0,
        m',
        record v { pre_idle = a ∷ v.pre_idle; pre_out = l ++ k },
        λ rounds enough. runs rounds ∙ freed,
        record {
          pre =
              subst
                (λ x.
                  IsPre malloc x m.calls (m'.chunks_manager_table pos) (a ∷ v.pre_idle) (l ++ k))
                (sym own) (rw (update_same m.chunks_manager_table pos mgr) managed);
          extra = has.extra;
          pre_lock = has.pre_lock;
          extra_lock = has.extra_lock;
          marked = all';
          distinct = d';
        },
        left,
        record {
          tables = λ i ne. update_other m.chunks_manager_table pos i mgr ne;
          lists = λ c ne. refl;
          pre_locks = refl;
          extra_locks = refl;
          later = omega arith;
          words = λ b o. refl;
        },
        inl (refl, refl),
      )
