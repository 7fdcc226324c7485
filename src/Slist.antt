-- ===== src/Slist.antt =====
-- src/server/slist.c and its copy src/client/slist.c: a single linked list whose nodes come from a
-- blank list. An address counts nodes; `none` as a pointer is NULL, and as a result it is the use
-- of NULL.
pub mod Chains
pub mod Ends
pub mod Append
pub mod Blocks
pub mod Walks
pub mod Moved
pub mod Mv2head
pub mod Views
mod Examples
use mathlib.Core.Option
use dnscache.Common.{
  ℕ, zero, suc, ◌+◌, ◌-◌, Bool, true, false, Option, none, some, List, [], ◌∷◌, ◌==◌, if◌then◌else◌,
  update,
}

abbrev pub Pointer : Type 0
Pointer = Option ℕ

abbrev pub is_null : Pointer → Bool
is_null none = true
is_null (some a) = false

-- `p == q` for pointers.
abbrev pub same : Pointer → Pointer → Bool
same none none = true
same none (some b) = false
same (some a) none = false
same (some a) (some b) = a == b

pub record SlNode : Type 0 where
  pub data_ptr : Pointer
  pub next : Pointer

-- The nodes in memory.
abbrev pub Heap : Type 0
Heap = ℕ → SlNode

abbrev pub set_next : Heap → ℕ → Pointer → Heap
set_next h a p = update h a (record { data_ptr = (h a).data_ptr; next = p })

abbrev pub set_data : Heap → ℕ → Pointer → Heap
set_data h a d = update h a (record { data_ptr = d; next = (h a).next })

pub record Slist : Type 0 where
  pub heap : Heap
  pub head : Pointer
  pub end_ptr : Pointer
  pub blank : Pointer
  pub length : ℕ
  pub capacity : ℕ
  pub memlist : Pointer

-- The loops that link the nodes of a new block: the heap and the last node.
unfoldable pub link : (rounds ptr : ℕ) → Heap → Heap × ℕ
link zero ptr h = (h, ptr)
link (suc rounds) ptr h = link rounds (ptr + 1) (set_next h ptr (some (ptr + 1)))

abbrev pub rounds_of : ℕ → ℕ
rounds_of zero = 0
rounds_of (suc n) = n

-- `my_alloc` gives `capacity` nodes from `p` on, and the node `mem`.
unfoldable pub mk_slist : Heap → (p mem capacity : ℕ) → Slist
unfolding link
mk_slist h p mem capacity =
    let h1 = set_next (set_data h mem (some p)) mem none in
    let (h2, last) = link (rounds_of capacity) p h1 in
    record {
      heap = set_next h2 last none;
      head = none;
      end_ptr = none;
      blank = some p;
      length = 0;
      capacity = capacity;
      memlist = some mem;
    }

unfoldable pub sl_expand : Slist → (p mem delta : ℕ) → Slist
unfolding link
sl_expand sl p mem delta =
    let (h1, last) = link (rounds_of delta) p sl.heap in
    let h2 = set_next h1 last sl.blank in
    record sl {
      heap = set_next (set_data h2 mem (some p)) mem sl.memlist;
      capacity = sl.capacity + delta;
      blank = some p;
      memlist = some mem;
    }

-- `append`: the result and the list afterwards.
unfoldable pub append : Pointer → Slist → Option (ℕ × Slist)
append d sl = if sl.length == sl.capacity then some (1, sl) else elim sl.blank [
  | none ↦ none
  | some ptr ↦
      let blank' = (sl.heap ptr).next in
      let h = set_data sl.heap ptr d in
      elim sl.head [
        | none ↦ some (
          0,
          record sl {
            heap = set_next h ptr none;
            head = some ptr;
            end_ptr = some ptr;
            blank = blank';
            length = suc sl.length;
          },
        )
        | some first ↦ elim sl.end_ptr [
          | none ↦ none
          | some last ↦ some (
            0,
            record sl {
              heap = set_next (set_next h last (some ptr)) ptr none;
              end_ptr = some ptr;
              blank = blank';
              length = suc sl.length;
            },
          )
        ]
      ]
]

-- `pop`: the data, NULL on an empty list. A list with a head has a length above 0.
unfoldable pub pop : Slist → Pointer × Slist
pop sl = elim sl.head [
  | none ↦ (none, sl)
  | some ptr ↦
      let rest = (sl.heap ptr).next in
      (
        (sl.heap ptr).data_ptr,
        record sl {
          heap = set_next sl.heap ptr sl.blank;
          head = rest;
          end_ptr = if is_null rest then none else sl.end_ptr;
          blank = some ptr;
          length = sl.length - 1;
        },
      )
]

unfoldable pub push : Pointer → Slist → Option (ℕ × Slist)
push d sl = if sl.length == sl.capacity then some (1, sl) else elim sl.blank [
  | none ↦ none
  | some ptr ↦ some (
    0,
    record sl {
      heap = set_next (set_data sl.heap ptr d) ptr sl.head;
      head = some ptr;
      end_ptr = if is_null sl.end_ptr then some ptr else sl.end_ptr;
      blank = (sl.heap ptr).next;
      length = suc sl.length;
    },
  )
]

-- The loops over `next` have the rounds that they may take; `none` is the end of those.
unfoldable pub find_from : ℕ → Heap → Pointer → Pointer → Option ℕ
find_from zero h ptr d = none
find_from (suc n) h none d = some 0
find_from (suc n) h (some a) d =
    let rest = find_from n h (h a).next d in if same (h a).data_ptr d then some 1 else rest

unfoldable pub find : ℕ → Pointer → Slist → Option ℕ
unfolding find_from
find n d sl = find_from n sl.heap sl.head d

-- The node `cur` behind `pre` becomes the head.
abbrev pub moved : (pre cur : ℕ) → Slist → Slist
moved pre cur sl = record sl {
  heap = set_next (set_next sl.heap pre (sl.heap cur).next) cur sl.head;
  head = some cur;
  end_ptr = if same (some cur) sl.end_ptr then some pre else sl.end_ptr;
}

unfoldable pub mv2head_from : ℕ → Pointer → (pre : ℕ) → (cur : Pointer) → Slist → Option (ℕ × Slist)
mv2head_from zero d pre cur sl = none
mv2head_from (suc n) d pre none sl = some (1, sl)
mv2head_from (suc n) d pre (some a) sl =
    let rest = mv2head_from n d a (sl.heap a).next sl in
    if same (sl.heap a).data_ptr d then some (0, moved pre a sl) else rest

-- `mv2head`; an empty list is a use of NULL.
unfoldable pub mv2head : ℕ → Pointer → Slist → Option (ℕ × Slist)
unfolding mv2head_from
mv2head n d sl = elim sl.head [
  | none ↦ none
  | some first ↦
      if same (sl.heap first).data_ptr d
      then some (0, sl)
      else mv2head_from n d first (sl.heap first).next sl
]

-- The nodes that `traverse` hands to `visit`, in order, and with their data those that `sl_free`
-- frees.
unfoldable pub visited : ℕ → Heap → Pointer → Option (List ℕ)
visited zero h ptr = none
visited (suc n) h none = some []
visited (suc n) h (some a) = Option.map (λ xs. a ∷ xs) (visited n h (h a).next)

unfoldable pub traverse : ℕ → Slist → Option (List ℕ)
unfolding visited
traverse n sl = visited n sl.heap sl.head

-- Each call of `my_free`: the block of a node of `memlist`, then the node.
unfoldable pub freed : ℕ → Heap → Pointer → Option (List Pointer)
freed zero h ptr = none
freed (suc n) h none = some []
freed (suc n) h (some a) = Option.map (λ ps. (h a).data_ptr ∷ some a ∷ ps) (freed n h (h a).next)

unfoldable pub sl_free : ℕ → Slist → Option (List Pointer)
unfolding freed
sl_free n sl = freed n sl.heap sl.memlist
