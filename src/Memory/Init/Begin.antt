-- ===== src/Memory/Init/Begin.antt =====
-- `mm_init` of src/server/dc_mm1.c: the tables that it leaves.
use dnscache.Common.{
  ℕ, suc, ◌+◌, ◌-◌, ◌≤◌, ◌<◌, ◌≡◌, ◌≢◌, refl, sym, ◌∙◌, true, false, some, List, [], ◌++◌, map,
  length, All, update, arith, append-nil,
}
use mathlib.Core.Path.{subst}
use dnscache.Slist.{Slist, Heap, mk_slist}
use dnscache.Slist.Chains.{Distinct, update_same, update_other}
use dnscache.Slist.Ends.{Shows}
use dnscache.Slist.Views.{All-weaker}
use dnscache.Memory.Chunks.{
  small, chunks_num, ChunksManager, Memory, called, mm_pre_alloc, init_classes,
}
use dnscache.Memory.Blocks.{Spaced, Old, Old-more, made, stamped-Old, length-made}
use dnscache.Memory.Views.{IsManager, Marked}
use dnscache.Memory.Frames.{shown_later, IsPre-later}
use dnscache.Memory.Alloc.Fresh.{with_new, empty_made}
use dnscache.Memory.Alloc.Stock.{Good-new}

-- `mm_init` makes some chunks of each class, and not too many.
pub chunks_num_bounds : (i : ℕ) → (n : ℕ) × (chunks_num i ≡ suc n) × (n < 512)
chunks_num_bounds i = (chunks_num i - 1, ground arith, ground arith)

module _ (malloc : ℕ → ℕ) (spaced : Spaced malloc) (garbage : Heap) where
  -- The class at `i` has the chunks `idle`, and nobody has one.
  pub record Ready (m : Memory) (i : ℕ) (idle : List ℕ) : Type 0 where
    pub managed : IsManager malloc m.calls (m.chunks_manager_table i) idle []
    pub lock : m.pre_alloc_mutex i ≡ true
    pub marked : All (Marked malloc m (small + i)) idle
    pub distinct : Distinct idle
    pub few : length idle ≤ 512

  abbrev pub class_manager : (i n : ℕ) → Slist → (calls : ℕ) → ChunksManager
  class_manager i n idle calls = record {
    chunks_cap = small + i;
    idle_num = n;
    idle_chunks = idle;
    alloced_chunks = mk_slist garbage (malloc calls) (malloc (calls + 1)) n;
  }

  -- The memory after one round of the loop over the classes.
  abbrev pub class_made : (i n : ℕ) → Slist → Memory → Memory
  class_made i n idle m =
      let m' =
        with_new malloc n (small + i) (called malloc garbage 2 (called malloc garbage 1 m)) in
      record m' {
        calls = m'.calls + 3;
        chunks_manager_table = update m'.chunks_manager_table i (class_manager i n idle m'.calls);
        pre_alloc_mutex = update m'.pre_alloc_mutex i true;
        pre_alloc_apply = update m'.pre_alloc_apply i 0;
        pre_alloc_free = update m'.pre_alloc_free i 0;
      }

  pub init_classes_run :
      (i n : ℕ) (idle : Slist) (m : Memory)
      → chunks_num i ≡ n
      → mm_pre_alloc malloc garbage (small + i) n (called malloc garbage 1 m)
        ≡ some (
          idle,
          with_new malloc n (small + i) (called malloc garbage 2 (called malloc garbage 1 m)),
        )
      → init_classes malloc garbage (suc i) m
        ≡ init_classes malloc garbage i (class_made i n idle m)
  unfolding init_classes
  init_classes_run i n idle m e run =
      subst
        (λ k.
          mm_pre_alloc malloc garbage (small + i) k (called malloc garbage 1 m)
            ≡ some (
              idle,
              with_new malloc k (small + i) (called malloc garbage 2 (called malloc garbage 1 m)),
            )
          → init_classes malloc garbage (suc i) m
            ≡ init_classes malloc garbage i (class_made i k idle m))
        e (λ run'. rw (init_classes, run') refl) run

  pub class_made-Ready :
      (i n : ℕ) (idle : Slist) (m : Memory)
      → n < 512
      → Shows
          (Old malloc (m.calls + 1 + 2))
          idle
          (map some (made malloc (suc n) (m.calls + 1 + 2)) ++ [])
          0
      → Ready (class_made i (suc n) idle m) i (made malloc (suc n) (m.calls + 1 + 2))
  class_made-Ready i n idle m few s =
      let j = m.calls + 1 + 2 in
      let new = made malloc (suc n) j in
      let m' =
        with_new malloc (suc n) (small + i) (called malloc garbage 2 (called malloc garbage 1 m)) in
      let m'' = class_made i (suc n) idle m in
      let counted = length-made malloc (suc n) j in
      let (all, d) =
        Good-new malloc spaced m m' j (suc n) (small + i) [] (omega arith) refl refl (tt, tt) in
      let mgr = class_manager i (suc n) idle m'.calls in
      record {
        managed = rw (update_same m.chunks_manager_table i mgr) (record {
          idle_shown =
              shown_later malloc j (j + suc n + 3) (omega arith) idle (map some new) 0
                (subst (λ ds. Shows (Old malloc j) idle ds 0) (append-nil (map some new)) s);
          out_shown =
              shown_later malloc (j + suc n + 2) (j + suc n + 3) (omega arith) _ [] (length new) (
                subst (Shows (Old malloc (j + suc n + 2)) _ []) (sym counted)
                  (empty_made malloc garbage spaced (j + suc n) n (omega arith)));
          idle_counted = sym counted;
          few = omega (arith, counted);
        });
        lock = update_same m.pre_alloc_mutex i true;
        marked =
            All-weaker (Marked malloc m' (small + i)) (Marked malloc m'' (small + i)) new
              (λ a o. (Old-more malloc m'.calls m''.calls a (omega arith) o.0, o.1))
              (subst (All (Marked malloc m' (small + i))) (append-nil new) all);
        distinct = subst Distinct (append-nil new) d;
        few = omega (arith, counted);
      }

  pub class_made_kept :
      (i n c : ℕ) (idle : Slist) (m : Memory) (xs : List ℕ)
      → c ≢ i
      → Ready m c xs
      → Ready (class_made i n idle m) c xs
  class_made_kept i n c idle m xs ne ready =
      let m' = class_made i n idle m in
      record {
        managed =
            rw
              (update_other m.chunks_manager_table i c
                (class_manager i n idle (m.calls + 1 + 2 + n)) ne)
              (IsPre-later malloc m.calls m'.calls (omega arith) false _ xs [] ready.managed);
        lock = update_other m.pre_alloc_mutex i c true ne ∙ ready.lock;
        marked =
            All-weaker (Marked malloc m (small + c)) (Marked malloc m' (small + c)) xs
              (λ a o. (
                Old-more malloc m.calls m'.calls a (omega arith) o.0,
                stamped-Old malloc spaced n m.calls (m.calls + 1 + 2) (small + i) m.capacity_word a
                      (omega arith) o.0
                    ∙ o.1,
              ))
              ready.marked;
        distinct = ready.distinct;
        few = ready.few;
      }
