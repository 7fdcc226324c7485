-- ===== src/Memory/Free.antt =====
-- `dc_free`, `dc_realloc` and `print_statics` of src/server/dc_mm1.c, each as one step that no other
-- thread comes between. `none` is a use of NULL or of an index past a table.
pub mod Puts
pub mod Return
pub mod Freed
pub mod Released
pub mod Regained
pub mod Resized
use dnscache.Common.{
  ℕ, zero, suc, ◌+◌, ◌-◌, ◌%◌, ◌^◌, Option, none, some, List, [], ◌∷◌, ◌++◌, ◌==◌, if◌then◌else◌,
  update, take, map,
}
use mathlib.Core.Option
use dnscache.Common.Bytes.{poke}
use dnscache.Slist.{Pointer, Heap, push, pop, find, mv2head, traverse, sl_free}
use dnscache.Memory.SizeClass.{biggest_cap, pow2}
use dnscache.Memory.Chunks.{small, ExtraListManager, Memory, plus16, count_up}
use dnscache.Memory.Alloc.{is_extra, lock_extra, dc_alloc}

-- The chunks, blocks and nodes of a list all of whose chunks are idle go to `free`, then its manager.
-- The loop of `sl_free` has `rounds` rounds.
unfoldable pub drop_list : (rounds cap : ℕ) → ExtraListManager → Memory → Option Memory
drop_list rounds cap e m =
    let sl = e.chunks_list in
    elim (traverse (suc sl.length) sl) [
      | none ↦ none
      | some nodes ↦ elim (sl_free rounds sl) [
        | none ↦ none
        | some blocks ↦ some (record m {
          elm_table = update m.elm_table cap none;
          freed = m.freed ++ (map (λ a. (sl.heap a).data_ptr) nodes ++ blocks);
        })
      ]
    ]

abbrev pub counted_extra : ℕ → Option Memory → Option Memory
counted_extra cap none = none
counted_extra cap (some m) = some (record m { extra_free = count_up m.extra_free cap })

-- A chunk of an extra list: it becomes the first, and the list goes when all its chunks are idle.
unfoldable pub free_extra :
    (rounds word_before_ptr cap : ℕ) → ExtraListManager → Memory → Option Memory
unfolding drop_list
free_extra rounds word_before_ptr cap e m =
    elim (mv2head (suc e.chunks_list.length) (some word_before_ptr) e.chunks_list) [
      | none ↦ none
      | some (_, sl) ↦
          let e' : ExtraListManager = record e {
            idle_num = plus16 e.idle_num 1;
            chunks_list = sl;
          } in
          let m' = record m { elm_table = update m.elm_table cap (some e') } in
          counted_extra cap
            (if e'.idle_num == e'.total_num then drop_list rounds cap e' m' else some m')
    ]

-- A chunk of a class of its own goes back to the idle chunks.
unfoldable pub free_pre_alloced : (word_before_ptr pos : ℕ) → Memory → Option Memory
free_pre_alloced word_before_ptr pos m =
    let mgr = m.chunks_manager_table pos in
    if m.pre_alloc_mutex pos
    then elim (mv2head (suc mgr.alloced_chunks.length) (some word_before_ptr) mgr.alloced_chunks) [
      | none ↦ none
      | some (_, sl) ↦
          let (ptr, alloced) = pop sl in
          elim (push ptr mgr.idle_chunks) [
            | none ↦ none
            | some (_, idle) ↦ some (record m {
              chunks_manager_table = update m.chunks_manager_table pos (record mgr {
                idle_num = plus16 mgr.idle_num 1;
                idle_chunks = idle;
                alloced_chunks = alloced;
              });
              pre_alloc_free = count_up m.pre_alloc_free pos;
            })
          ]
    ]
    else none

unfoldable pub dc_free : (rounds : ℕ) → Pointer → Memory → Option Memory
unfolding free_extra free_pre_alloced
dc_free rounds none m = some m
dc_free rounds (some ptr) m =
    let word_before_ptr = ptr - 1 in
    let cap = m.capacity_word word_before_ptr in
    if is_extra cap
    then elim (m.elm_table cap) [
      | none ↦ none
      | some e ↦ elim (lock_extra cap m) [
        | none ↦ none
        | some m' ↦ free_extra rounds word_before_ptr cap e m'
      ]
    ]
    else (let sl = (m.chunks_manager_table (cap - small)).alloced_chunks in
        elim (find (suc sl.length) (some word_before_ptr) sl) [
          | none ↦ none
          | some found ↦
              if found == 0
              then elim (lock_extra cap m) [
                | none ↦ none
                | some m' ↦ elim (m'.elm_table cap) [
                  | none ↦ some m'
                  | some e ↦ free_extra rounds word_before_ptr cap e m'
                ]
              ]
              else free_pre_alloced word_before_ptr (cap - small) m
        ])

-- `memcpy(new_ptr, ptr, POW2(cap))`, where a chunk at an address has the bytes that `bytes` says.
abbrev pub copy_chunk : (bytes : ℕ → List ℕ) → (new_ptr ptr cap : ℕ) → Option (ℕ → List ℕ)
copy_chunk bytes new_ptr ptr cap =
    Option.map (λ b. update bytes new_ptr b) (poke (bytes new_ptr) 0 (take (pow2 cap) (bytes ptr)))

-- `dc_realloc`: the pointer, the memory and the bytes of the chunks. The test whether the size fits
-- the chunk has an empty branch. `again` bounds the calls of `dc_alloc`, `rounds` the loop of `sl_free`.
unfoldable pub dc_realloc :
    (malloc : ℕ → ℕ) (garbage : Heap) (again rounds : ℕ)
    → Pointer
    → (size : ℕ) → Memory
    → (bytes : ℕ → List ℕ) → Option (Pointer × Memory × (ℕ → List ℕ))
unfolding dc_alloc dc_free
dc_realloc malloc garbage again rounds none size m bytes =
    Option.map (λ r. (r.0, r.1, bytes)) (dc_alloc malloc garbage again size m)
dc_realloc malloc garbage again rounds (some ptr) size m bytes =
    if size == 0
    then Option.map (λ m'. (none, m', bytes)) (dc_free rounds (some ptr) m)
    else elim (dc_alloc malloc garbage again size m) [
      | none ↦ none
      | some (none, m') ↦ none
      | some (some new_ptr, m') ↦ elim (copy_chunk bytes new_ptr ptr (m.capacity_word (ptr - 1))) [
        | none ↦ none
        | some bytes' ↦
            Option.map (λ m''. (some new_ptr, m'', bytes')) (dc_free rounds (some ptr) m')
      ]
    ]

-- The counts that `print_statics` prints for one capacity.
abbrev pub apply_count : Memory → ℕ → ℕ
apply_count m i =
    if is_extra i
    then m.extra_apply i
    else (m.extra_apply i + m.pre_alloc_apply (i - small)) % 2 ^ 64

abbrev pub free_count : Memory → ℕ → ℕ
free_count m i =
    if is_extra i then m.extra_free i else (m.extra_free i + m.pre_alloc_free (i - small)) % 2 ^ 64

statics_from : (left i : ℕ) → Memory → List (ℕ × ℕ × ℕ)
statics_from zero i m = []
statics_from (suc left) i m =
    (pow2 i, apply_count m i, free_count m i) ∷ statics_from left (i + 1) m

unfoldable pub print_statics : Memory → List (ℕ × ℕ × ℕ)
unfolding statics_from
print_statics m = statics_from biggest_cap 1 m
