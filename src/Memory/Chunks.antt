-- ===== src/Memory/Chunks.antt =====
-- The tables of chunks of src/server/dc_mm1.c and dc_mm_structs.h, and what makes and expands them.
-- A chunk is known by the address of the word before it, which holds its capacity; the pointer that a
-- caller has is one word further.
use dnscache.Common.{
  ℕ, zero, suc, ◌+◌, ◌-◌, ◌%◌, ◌^◌, Bool, true, Option, none, some, List, ltb, if◌then◌else◌,
  update,
}
use dnscache.Slist.{Pointer, Heap, Slist, mk_slist, sl_expand, push}
use dnscache.Memory.SizeClass.{biggest_cap}

abbrev pub small : ℕ
small = 1

abbrev pub big : ℕ
big = 20

abbrev pub chunk_type_num : ℕ
chunk_type_num = big - small + 1

abbrev pub default_extra : ℕ
default_extra = 2

abbrev pub chunks_num : ℕ → ℕ
chunks_num i = if ltb i 5 then 512 else if ltb i 10 then 256 else if ltb i 15 then 128 else 56

pub record ChunksManager : Type 0 where
  pub chunks_cap : ℕ
  pub idle_num : ℕ
  pub idle_chunks : Slist
  pub alloced_chunks : Slist

pub record ExtraListManager : Type 0 where
  pub idle_num : ℕ
  pub total_num : ℕ
  pub chunks_list : Slist

-- `capacity_word` is the word before a chunk, `calls` counts the calls of `malloc`, and `freed` has
-- what `free` was given. A mutex that is NULL is `false`.
pub record Memory : Type 0 where
  pub chunks_manager_table : ℕ → ChunksManager
  pub elm_table : ℕ → Option ExtraListManager
  pub pre_alloc_mutex : ℕ → Bool
  pub extra_mutex : ℕ → Bool
  pub pre_alloc_apply : ℕ → ℕ
  pub pre_alloc_free : ℕ → ℕ
  pub extra_apply : ℕ → ℕ
  pub extra_free : ℕ → ℕ
  pub capacity_word : ℕ → ℕ
  pub calls : ℕ
  pub freed : List Pointer

-- `++x`, `--x` and `x += n` of a `uint16`.
abbrev pub plus16 : ℕ → ℕ → ℕ
plus16 x n = (x + n) % 2 ^ 16

abbrev pub minus16 : ℕ → ℕ
minus16 x = (x + 2 ^ 16 - 1) % 2 ^ 16

abbrev pub count_up : (ℕ → ℕ) → ℕ → ℕ → ℕ
count_up f i = update f i ((f i + 1) % 2 ^ 64)

-- `malloc i` is the block that the call `i` gives, and `garbage` what its nodes hold.
module _ (malloc : ℕ → ℕ) (garbage : Heap) where
  abbrev pub called : ℕ → Memory → Memory
  called n m = record m { calls = m.calls + n }

  -- The loops that make chunks of one capacity and push them.
  unfoldable pub new_chunks : (counts cap : ℕ) → Slist → Memory → Option (Slist × Memory)
  new_chunks zero cap sl m = some (sl, m)
  new_chunks (suc counts) cap sl m =
      let ptr = malloc m.calls in
      elim (push (some ptr) sl) [
        | none ↦ none
        | some (_, sl') ↦
            new_chunks counts cap sl'
              (record m { calls = m.calls + 1; capacity_word = update m.capacity_word ptr cap })
      ]

  -- Two calls of `malloc`, in `mk_slist`, then one for each chunk.
  unfoldable pub mm_pre_alloc : (capacity counts : ℕ) → Memory → Option (Slist × Memory)
  unfolding new_chunks
  mm_pre_alloc capacity counts m =
      new_chunks counts capacity (mk_slist garbage (malloc m.calls) (malloc (m.calls + 1)) counts)
        (called 2 m)

  unfoldable pub mk_el : ℕ → Memory → Option Memory
  unfolding mm_pre_alloc
  mk_el cap m = elim (m.elm_table cap) [
    | some e ↦ some m
    | none ↦ elim (mm_pre_alloc cap default_extra (called 1 m)) [
      | none ↦ none
      | some (sl, m') ↦ some (record m' {
        elm_table = update m'.elm_table cap (
            some
              (record { idle_num = default_extra; total_num = default_extra; chunks_list = sl }));
      })
    ]
  ]

  unfoldable pub expand_el : ℕ → Memory → Option Memory
  unfolding new_chunks
  expand_el cap m = elim (m.elm_table cap) [
    | none ↦ none
    | some e ↦
        elim (new_chunks default_extra cap
          (sl_expand e.chunks_list (malloc m.calls) (malloc (m.calls + 1)) default_extra)
          (called 2 m)) [
            | none ↦ none
            | some (sl, m') ↦ some (record m' {
              elm_table = update m'.elm_table cap (
                  some (record {
                    idle_num = plus16 e.idle_num default_extra;
                    total_num = plus16 e.total_num default_extra;
                    chunks_list = sl;
                  }));
            })
          ]
  ]

  -- The loop of `mm_init` over the classes, from the biggest down: the block of the manager, its
  -- chunks, and the list for those that are allocated.
  unfoldable pub init_classes : ℕ → Memory → Option Memory
  unfolding mm_pre_alloc
  init_classes zero m = some m
  init_classes (suc i) m = elim (mm_pre_alloc (small + i) (chunks_num i) (called 1 m)) [
    | none ↦ none
    | some (idle, m') ↦ init_classes i (record (called 3 m') {
      chunks_manager_table = update m'.chunks_manager_table i (record {
        chunks_cap = small + i;
        idle_num = chunks_num i;
        idle_chunks = idle;
        alloced_chunks = mk_slist garbage (malloc m'.calls) (malloc (m'.calls + 1)) (chunks_num i);
      });
      pre_alloc_mutex = update m'.pre_alloc_mutex i true;
      pre_alloc_apply = update m'.pre_alloc_apply i 0;
      pre_alloc_free = update m'.pre_alloc_free i 0;
    })
  ]

  -- `while(--j)` from BIGGEST_CAP + 1: it ends before 0.
  unfoldable pub init_extra : ℕ → Memory → Memory
  init_extra zero m = m
  init_extra (suc j) m = init_extra j (record (called 1 m) {
    extra_mutex = update m.extra_mutex (suc j) true;
    extra_apply = update m.extra_apply (suc j) 0;
    extra_free = update m.extra_free (suc j) 0;
  })

  unfoldable pub mm_init : Memory → Option Memory
  unfolding init_classes init_extra
  mm_init m = elim (init_classes chunk_type_num m) [
    | none ↦ none
    | some m' ↦ some (init_extra biggest_cap m')
  ]
