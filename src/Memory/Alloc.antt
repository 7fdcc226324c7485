-- ===== src/Memory/Alloc.antt =====
-- `dc_alloc` of src/server/dc_mm1.c, as one step that no other thread comes between. `none` is a use
-- of NULL or of an index past a table.
pub mod Fresh
pub mod Stock
pub mod Ensure
pub mod Select
pub mod SelectOwn
pub mod Given
pub mod Granted
use dnscache.Common.{
  ℕ, zero, suc, ◌-◌, Bool, true, false, Option, none, some, ltb, leb, ◌==◌, ◌||◌, ◌&&◌,
  if◌then◌else◌, update,
}
use mathlib.Core.Option
use dnscache.Slist.{Pointer, Heap, push, pop, append}
use dnscache.Memory.SizeClass.{biggest_cap, pow2, cap_of}
use dnscache.Memory.Chunks.{
  small, big, ExtraListManager, Memory, minus16, count_up, mk_el, expand_el,
}

-- A result with the memory afterwards.
abbrev pub Result : Type 0
Result = Option (Pointer × Memory)

-- `pthread_mutex_lock(extra_mutex[cap])`.
abbrev pub lock_extra : ℕ → Memory → Option Memory
lock_extra cap m = if leb cap biggest_cap && m.extra_mutex cap then some m else none

-- `(void *)((uint64 *)ptr + 1)`.
abbrev pub payload : Pointer → Pointer
payload = Option.map suc

-- `again` is the call of `dc_alloc` with POW2(cap).
unfoldable pub select_pre_alloced : (again : ℕ → Memory → Result) → (cap : ℕ) → Memory → Result
select_pre_alloced again cap m =
    let pos = cap - small in
    let mgr = m.chunks_manager_table pos in
    if m.pre_alloc_mutex pos
    then (if mgr.idle_num == 0
        then again (pow2 cap) m
        else (let (ptr, idle) = pop mgr.idle_chunks in
            elim (push ptr mgr.alloced_chunks) [
              | none ↦ none
              | some (_, alloced) ↦ some (
                payload ptr,
                record m {
                  chunks_manager_table = update m.chunks_manager_table pos (record mgr {
                    idle_num = minus16 mgr.idle_num;
                    idle_chunks = idle;
                    alloced_chunks = alloced;
                  });
                  pre_alloc_apply = count_up m.pre_alloc_apply pos;
                },
              )
            ]))
    else none

unfoldable pub select_extra : (again : ℕ → Memory → Result) → (cap : ℕ) → Memory → Result
select_extra again cap m = elim (lock_extra cap m) [
  | none ↦ none
  | some _ ↦ elim (m.elm_table cap) [
    | none ↦ again (pow2 cap) m
    | some e ↦
        if e.idle_num == 0
        then again (pow2 cap) m
        else (let (ptr, rest) = pop e.chunks_list in
            elim (append ptr rest) [
              | none ↦ none
              | some (_, list) ↦ some (
                payload ptr,
                record m {
                  elm_table =
                      update m.elm_table cap
                        (some (record e { idle_num = minus16 e.idle_num; chunks_list = list }));
                  extra_apply = count_up m.extra_apply cap;
                },
              )
            ])
  ]
]

-- The list is made if there is none, and expanded if it has no idle chunk.
unfoldable pub ensure_extra : (malloc : ℕ → ℕ) (garbage : Heap) → ℕ → Memory → Option Memory
unfolding mk_el expand_el
ensure_extra malloc garbage cap m = elim (m.elm_table cap) [
  | none ↦ mk_el malloc garbage cap m
  | some e ↦ if e.idle_num == 0 then expand_el malloc garbage cap m else some m
]

-- Whether the list has an idle chunk.
abbrev pub has_idle : Option ExtraListManager → Bool
has_idle none = false
has_idle (some e) = if e.idle_num == 0 then false else true

abbrev pub is_extra : ℕ → Bool
is_extra cap = ltb cap small || ltb big cap

module _ (malloc : ℕ → ℕ) (garbage : Heap) where
  -- What follows the lock of `extra_mutex[cap]` in `dc_alloc`.
  unfoldable pub alloc_extra : (again : ℕ → Memory → Result) → ℕ → Memory → Result
  unfolding select_extra ensure_extra
  alloc_extra again cap m = elim (lock_extra cap m) [
    | none ↦ none
    | some m' ↦ elim (ensure_extra malloc garbage cap m') [
      | none ↦ none
      | some m'' ↦ select_extra again cap m''
    ]
  ]

  -- A capacity without chunks of its own: the mutex is taken only to make or to expand the list.
  unfoldable pub alloc_other : (again : ℕ → Memory → Result) → ℕ → Memory → Result
  unfolding alloc_extra select_extra
  alloc_other again cap m =
      if leb cap biggest_cap
      then (if has_idle (m.elm_table cap)
          then select_extra again cap m
          else alloc_extra again cap m)
      else none

  -- `dc_alloc`, with the calls of itself that it may make.
  unfoldable pub dc_alloc : (rounds size : ℕ) → Memory → Result
  unfolding cap_of alloc_extra alloc_other select_pre_alloced
  dc_alloc zero size m = none
  dc_alloc (suc rounds) size m =
      if size == 0
      then some (none, m)
      else (let cap = cap_of size in
          if is_extra cap
          then alloc_other (λ size' m'. dc_alloc rounds size' m') cap m
          else if (m.chunks_manager_table (cap - small)).idle_num == 0
          then alloc_extra (λ size' m'. dc_alloc rounds size' m') cap m
          else select_pre_alloced (λ size' m'. dc_alloc rounds size' m') cap m)
