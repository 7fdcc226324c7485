-- ===== src/Memory/Alloc/Select.antt =====
-- `select_extra` of src/server/dc_mm1.c: a chunk goes to the caller.
use dnscache.Common.{
  ℕ, suc, ◌+◌, ◌≤◌, ◌≡◌, refl, sym, ap, ◌∙◌, true, false, some, inl, inr, List, [], ◌∷◌, ◌++◌, map,
  length, update, arith, append_assoc, append-nil, map-append, length-append, ◌==◌, Option-cases,
  le→leb, leb,
}
use mathlib.Core.Path.{subst}
use dnscache.Slist.{Pointer, Slist, pop, append}
use dnscache.Slist.Chains.{update_same, update_other}
use dnscache.Slist.Ends.{Shows, pop_lem}
use dnscache.Slist.Append.{append_lem}
use dnscache.Memory.SizeClass.{biggest_cap}
use dnscache.Memory.Chunks.{ExtraListManager, Memory, minus16, count_up}
use dnscache.Memory.Alloc.{Result, lock_extra, payload, select_extra}
use dnscache.Memory.Blocks.{Old}
use dnscache.Memory.Views.{View, out, chunks, Inserted, IsList, IsExtra, Marked, HasClass, Frame}
use dnscache.Memory.Frames.{Good, Good-insert}
use dnscache.Memory.Alloc.Stock.{busy}

pub lock_extra_lem :
    (cap : ℕ) (m : Memory)
    → cap ≤ biggest_cap
    → m.extra_mutex cap ≡ true
    → lock_extra cap m ≡ some m
lock_extra_lem cap m l e = let b : leb cap 30 ≡ true = le→leb l in rw (b, e) refl

select_extra_run :
    (again : ℕ → Memory → Result) (cap : ℕ) (m : Memory) (e : ExtraListManager) (ptr : Pointer)
    (rest list : Slist)
    → lock_extra cap m ≡ some m
    → m.elm_table cap ≡ some e
    → (e.idle_num == 0) ≡ false
    → pop e.chunks_list ≡ (ptr, rest)
    → append ptr rest ≡ some (0, list)
    → select_extra again cap m
      ≡ some (
        payload ptr,
        record m {
          elm_table =
              update m.elm_table cap
                (some (record e { idle_num = minus16 e.idle_num; chunks_list = list }));
          extra_apply = count_up m.extra_apply cap;
        },
      )
unfolding select_extra
select_extra_run again cap m e ptr rest list lock is idle popped appended =
    rw (select_extra, lock, is, idle, popped, appended, popped) refl

module _ (malloc : ℕ → ℕ) where
  -- A chunk that was idle or is new goes to the caller; there are at most `new` chunks more.
  abbrev pub Taken : (new : ℕ) → Result → Memory → (cap : ℕ) → View → Type 0
  Taken new r m cap v =
      (a : ℕ) × (m' : Memory) × (v' : View) × (r ≡ some (some (suc a), m'))
      × HasClass malloc m' cap v'
      × Inserted a (out v) (out v')
      × (length (chunks v') ≤ length (chunks v) + new)
      × Frame malloc m m' cap

  -- `Good` for the chunks when `a` goes from the head of the idle ones to the end.
  Good-last :
      (P : ℕ → Type 0) (a : ℕ) (rest given last : List ℕ)
      → Good P (a ∷ (rest ++ (given ++ last)))
      → Good P (rest ++ (given ++ (last ++ a ∷ [])))
  Good-last P a rest given last g =
      subst (Good P)
        (append_assoc rest (given ++ last) (a ∷ [])
          ∙ ap (λ l. rest ++ l) (append_assoc given last (a ∷ [])))
        (Good-insert P (rest ++ (given ++ last)) a []
          (subst (λ l. Good P (a ∷ l)) (sym (append-nil (rest ++ (given ++ last)))) g))

  pub select_extra_lem :
      (again : ℕ → Memory → Result) (cap : ℕ) (m : Memory) (a : ℕ) (rest given last : List ℕ)
      → cap ≤ biggest_cap
      → HasClass malloc m cap (busy given (a ∷ rest) last)
      → Taken 0 (select_extra again cap m) m cap (busy given (a ∷ rest) last)
  select_extra_lem again cap m a rest given last l has = elim (Option-cases (m.elm_table cap)) [
    | inl e ↦
        let (nothing, _) = subst (λ o. IsExtra malloc m.calls o (a ∷ rest) last) e has.extra in
        absurd cc
    | inr (e, is) ↦
        let P = Old malloc m.calls in
        let old = subst (λ o. IsExtra malloc m.calls o (a ∷ rest) last) is has.extra in
        let (sl1, popped, s1) =
          pop_lem P e.chunks_list (some a ∷ map some (rest ++ last)) 0 old.shown in
        let (sl2, appended, s2) = append_lem P (some a) sl1 (map some (rest ++ last)) 1 s1 in
        let e' : ExtraListManager = record e { idle_num = minus16 e.idle_num; chunks_list = sl2 } in
        let m' : Memory = record m {
          elm_table = update m.elm_table cap (some e');
          extra_apply = count_up m.extra_apply cap;
        } in
        let longer : length (last ++ a ∷ []) ≡ length last + 1 = length-append last (a ∷ []) in
        let listed : IsList malloc m.calls e' rest (last ++ a ∷ []) = record {
          shown =
              subst (λ x. Shows P sl2 x 0)
                (sym (map-append some (rest ++ last) (a ∷ []))
                  ∙ ap (map some) (append_assoc rest last (a ∷ [])))
                s2;
          idle_counted = omega (arith, old.idle_counted, old.few);
          total_counted = omega (arith, old.total_counted, longer);
          few = omega (arith, old.few, longer);
        } in
        let (all, d) =
          Good-last (Marked malloc m cap) a rest given last (has.marked, has.distinct) in
        (
          a,
          m',
          busy given rest (last ++ a ∷ []),
          select_extra_run again cap m e (some a) sl1 sl2 (lock_extra_lem cap m l has.extra_lock) is
              (let c = old.idle_counted in ground arith) popped appended,
          record {
            pre = has.pre;
            extra = rw (update_same m.elm_table cap (some e')) listed;
            pre_lock = has.pre_lock;
            extra_lock = has.extra_lock;
            marked = all;
            distinct = d;
          },
          (
            given ++ last,
            [],
            sym (append-nil (given ++ last)),
            sym (append_assoc given last (a ∷ [])),
          ),
          omega (
            arith,
            length-append rest (given ++ (last ++ a ∷ [])),
            length-append given (last ++ a ∷ []),
            longer,
            length-append rest (given ++ last),
            length-append given last,
          ),
          record {
            tables = λ i ne. refl;
            lists = λ c ne. update_other m.elm_table cap c (some e') ne;
            pre_locks = refl;
            extra_locks = refl;
            later = omega arith;
            words = λ b o. refl;
          },
        )
  ]
