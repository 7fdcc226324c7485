-- ===== src/Memory/Free/Puts.antt =====
-- The branches of `free_extra` and `free_pre_alloced`, the parts of `dc_free` of src/server/dc_mm1.c that put a chunk
-- back into its list.
use dnscache.Common.{
  ℕ, suc, ◌<◌, ◌≡◌, refl, sym, ap, ◌∙◌, true, false, some, none, Option, List, [], ◌∷◌, ◌++◌, map,
  length, All, update, arith, ◌==◌, ne→==, if◌then◌else◌,
}
use dnscache.Slist.{Pointer, Slist, same, mv2head, traverse, sl_free, push, pop}
use dnscache.Slist.Chains.{NotIn}
use dnscache.Slist.Ends.{Shows}
use dnscache.Slist.Walks.{blocks, traverse_lem, sl_free_lem}
use dnscache.Memory.Chunks.{ExtraListManager, Memory, plus16, count_up}
use dnscache.Memory.Free.{drop_list, counted_extra, free_extra, free_pre_alloced}

-- The memory after changes of an extra list.
abbrev pub with_list : (ℕ → Option ExtraListManager) → List Pointer → (cap : ℕ) → Memory → Memory
with_list table freed cap m = record m {
  elm_table = table;
  freed = freed;
  extra_free = count_up m.extra_free cap;
}

pub others : (a : ℕ) (xs : List ℕ) → NotIn a xs → All (λ x. same x (some a) ≡ false) (map some xs)
others a [] n = tt
others a (x ∷ xs) n = (ne→== x a (λ e. n.0 (sym e)), others a xs n.1)

pub drop_list_run :
    (rounds cap : ℕ) (e : ExtraListManager) (m : Memory) (nodes : List ℕ) (bs : List Pointer)
    → traverse (suc e.chunks_list.length) e.chunks_list ≡ some nodes
    → sl_free rounds e.chunks_list ≡ some bs
    → drop_list rounds cap e m
      ≡ some (record m {
        elm_table = update m.elm_table cap none;
        freed = m.freed ++ (map (λ b. (e.chunks_list.heap b).data_ptr) nodes ++ bs);
      })
unfolding drop_list
drop_list_run rounds cap e m nodes bs visits frees = rw (drop_list, visits, frees) refl

-- A list that is dropped gives its data, its blocks and nodes to `free`.
pub drop_list_lem :
    (P : ℕ → Type 0) (cap : ℕ) (e : ExtraListManager) (m : Memory) (ds : List Pointer) (room : ℕ)
    → Shows P e.chunks_list ds room
    → (n : ℕ) × (bs : List Pointer) × ((rounds : ℕ)
        → n < rounds
        → drop_list rounds cap e m
          ≡ some
              (record m { elm_table = update m.elm_table cap none; freed = m.freed ++ (ds ++ bs) }))
drop_list_lem P cap e m ds room (used, free, mems, holds, c, _, all) = (
  length mems,
  blocks e.chunks_list.heap mems,
  λ rounds enough.
      drop_list_run rounds cap e m used (blocks e.chunks_list.heap mems)
        (traverse_lem (suc e.chunks_list.length) e.chunks_list used free mems holds
          (omega (arith, holds.counted)))
        (sl_free_lem rounds e.chunks_list used free mems holds enough)
      ∙ ap
          (λ l. some (record m {
            elm_table = update m.elm_table cap none;
            freed = m.freed ++ (l ++ blocks e.chunks_list.heap mems);
          }))
          c,
)

abbrev pub stored : (cap : ℕ) → ExtraListManager → Slist → Memory → Memory
stored cap e sl m = record m {
  elm_table =
      update m.elm_table cap (some (record e { idle_num = plus16 e.idle_num 1; chunks_list = sl }));
}

module _ (a cap : ℕ) (e : ExtraListManager) (m : Memory) (sl : Slist) where
  abbrev pub e' : ExtraListManager
  e' = record e { idle_num = plus16 e.idle_num 1; chunks_list = sl }

  pub free_extra_run :
      (rounds : ℕ)
      → mv2head (suc e.chunks_list.length) (some a) e.chunks_list ≡ some (0, sl)
      → free_extra rounds a cap e m
        ≡ counted_extra cap (
            if e'.idle_num == e'.total_num
            then drop_list rounds cap e' (stored cap e sl m)
            else some (stored cap e sl m))
  unfolding free_extra
  free_extra_run rounds moved = rw (free_extra, moved) refl

  pub free_extra_dropped :
      (rounds : ℕ) (m' : Memory)
      → mv2head (suc e.chunks_list.length) (some a) e.chunks_list ≡ some (0, sl)
      → (e'.idle_num == e'.total_num) ≡ true
      → drop_list rounds cap e' (stored cap e sl m) ≡ some m'
      → free_extra rounds a cap e m ≡ counted_extra cap (some m')
  free_extra_dropped rounds m' moved z run = free_extra_run rounds moved ∙ rw (z, run) refl

  pub free_extra_kept :
      (rounds : ℕ)
      → mv2head (suc e.chunks_list.length) (some a) e.chunks_list ≡ some (0, sl)
      → (e'.idle_num == e'.total_num) ≡ false
      → free_extra rounds a cap e m ≡ counted_extra cap (some (stored cap e sl m))
  free_extra_kept rounds moved z = free_extra_run rounds moved ∙ rw (z) refl

pub free_pre_alloced_run :
    (a pos : ℕ) (m : Memory) (ptr : Pointer) (sl alloced idle : Slist)
    → m.pre_alloc_mutex pos ≡ true
    → mv2head
        (suc (m.chunks_manager_table pos).alloced_chunks.length)
        (some a)
        (m.chunks_manager_table pos).alloced_chunks
      ≡ some (0, sl)
    → pop sl ≡ (ptr, alloced)
    → push ptr (m.chunks_manager_table pos).idle_chunks ≡ some (0, idle)
    → free_pre_alloced a pos m
      ≡ some (record m {
        chunks_manager_table =
            update m.chunks_manager_table pos (record (m.chunks_manager_table pos) {
              idle_num = plus16 (m.chunks_manager_table pos).idle_num 1;
              idle_chunks = idle;
              alloced_chunks = alloced;
            });
        pre_alloc_free = count_up m.pre_alloc_free pos;
      })
unfolding free_pre_alloced
free_pre_alloced_run a pos m ptr sl alloced idle lock moved popped pushed =
    rw (free_pre_alloced, lock, moved, popped, pushed, popped) refl
