-- ===== src/Memory/Alloc/SelectOwn.antt =====
-- `select_pre_alloced` of src/server/dc_mm1.c: a chunk goes to the caller.
use dnscache.Common.{
  ℕ, suc, ◌-◌, ◌≡◌, refl, sym, ap, true, false, some, List, [], ◌∷◌, ◌++◌, map, length, update,
  arith, length-append, ◌==◌,
}
use mathlib.Core.Path.{subst}
use dnscache.Slist.{Pointer, Slist, push, pop}
use dnscache.Slist.Chains.{update_same, update_other}
use dnscache.Slist.Ends.{push_lem, pop_lem}
use dnscache.Memory.Chunks.{small, ChunksManager, Memory, minus16, count_up}
use dnscache.Memory.Alloc.{Result, is_extra, payload, select_pre_alloced}
use dnscache.Memory.Blocks.{Old}
use dnscache.Memory.Views.{View, out, IsManager, IsPre, Marked, HasClass}
use dnscache.Memory.Frames.{Good, Good-insert}
use dnscache.Memory.Alloc.Select.{Taken}

select_pre_alloced_run :
    (again : ℕ → Memory → Result) (cap : ℕ) (m : Memory) (ptr : Pointer) (idle alloced : Slist)
    → m.pre_alloc_mutex (cap - small) ≡ true
    → ((m.chunks_manager_table (cap - small)).idle_num == 0) ≡ false
    → pop (m.chunks_manager_table (cap - small)).idle_chunks ≡ (ptr, idle)
    → push ptr (m.chunks_manager_table (cap - small)).alloced_chunks ≡ some (0, alloced)
    → select_pre_alloced again cap m
      ≡ some (
        payload ptr,
        record m {
          chunks_manager_table =
              update m.chunks_manager_table
                (cap - small)
                (record (m.chunks_manager_table (cap - small)) {
                  idle_num = minus16 (m.chunks_manager_table (cap - small)).idle_num;
                  idle_chunks = idle;
                  alloced_chunks = alloced;
                });
          pre_alloc_apply = count_up m.pre_alloc_apply (cap - small);
        },
      )
unfolding select_pre_alloced
select_pre_alloced_run again cap m ptr idle alloced lock some_idle popped pushed =
    rw (select_pre_alloced, lock, some_idle, popped, pushed, popped) refl

module _ (malloc : ℕ → ℕ) where
  pub select_pre_alloced_lem :
      (again : ℕ → Memory → Result) (cap : ℕ) (m : Memory) (a : ℕ) (v : View) (rest : List ℕ)
      → is_extra cap ≡ false
      → v.pre_idle ≡ a ∷ rest
      → HasClass malloc m cap v
      → Taken malloc 0 (select_pre_alloced again cap m) m cap v
  select_pre_alloced_lem again cap m a v rest own is has =
      let P = Old malloc m.calls in
      let mgr = m.chunks_manager_table (cap - small) in
      let old : IsManager malloc m.calls mgr (a ∷ rest) v.pre_out =
        subst (λ i. IsManager malloc m.calls mgr i v.pre_out) is
          (subst (λ x. IsPre malloc x m.calls mgr v.pre_idle v.pre_out) own has.pre) in
      let (idle, popped, s1) =
        pop_lem P mgr.idle_chunks (some a ∷ map some rest) (length v.pre_out) old.idle_shown in
      let (alloced, pushed, s2) =
        push_lem P (some a) mgr.alloced_chunks (map some v.pre_out) (suc (length rest))
          old.out_shown in
      let mgr' : ChunksManager = record mgr {
        idle_num = minus16 mgr.idle_num;
        idle_chunks = idle;
        alloced_chunks = alloced;
      } in
      let m' : Memory = record m {
        chunks_manager_table = update m.chunks_manager_table (cap - small) mgr';
        pre_alloc_apply = count_up m.pre_alloc_apply (cap - small);
      } in
      let v' : View = record v { pre_idle = rest; pre_out = a ∷ v.pre_out } in
      let managed : IsManager malloc m.calls mgr' rest (a ∷ v.pre_out) = record {
        idle_shown = s1;
        out_shown = s2;
        idle_counted = omega (arith, old.idle_counted, old.few);
        few = omega (arith, old.few);
      } in
      let (all, d) = Good-insert (Marked malloc m cap) (rest ++ v.extra_idle) a (out v) (
        subst (λ i. Good (Marked malloc m cap) ((i ++ v.extra_idle) ++ out v)) is
          (has.marked, has.distinct)) in
      (
        a,
        m',
        v',
        select_pre_alloced_run again cap m (some a) idle alloced (has.pre_lock own)
            (let c = old.idle_counted in ground arith) popped pushed,
        record {
          pre =
              subst
                (λ x.
                  IsPre malloc x m.calls (m'.chunks_manager_table (cap - small)) rest
                    (a ∷ v.pre_out))
                (sym own) (rw (update_same m.chunks_manager_table (cap - small) mgr') managed);
          extra = has.extra;
          pre_lock = has.pre_lock;
          extra_lock = has.extra_lock;
          marked = all;
          distinct = d;
        },
        ([], out v, refl, refl),
        omega (
          arith,
          length-append (rest ++ v.extra_idle) (a ∷ out v),
          length-append rest v.extra_idle,
          length-append (v.pre_idle ++ v.extra_idle) (out v),
          length-append v.pre_idle v.extra_idle,
          ap length is,
        ),
        record {
          tables = λ i ne. update_other m.chunks_manager_table (cap - small) i mgr' ne;
          lists = λ c ne. refl;
          pre_locks = refl;
          extra_locks = refl;
          later = omega arith;
          words = λ b o. refl;
        },
      )
