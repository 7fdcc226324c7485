-- ===== src/Slist/Ends.antt =====
-- `push` and `pop` of slist.c against a list of data.
use dnscache.Common.{
  ℕ, zero, suc, ◌-◌, ◌≡◌, ◌≢◌, refl, ap, ap₂, ◌∙◌, true, false, Option, none, some, List, [], ◌∷◌,
  ◌++◌, ◌==◌, if◌then◌else◌, length, All, update, arith,
}
use mathlib.Core.Path.{subst}
use dnscache.Slist.{Pointer, is_null, SlNode, Heap, set_next, set_data, Slist, push, pop}
use dnscache.Slist.Chains.{
  Chain, NotIn, Distinct, contents, last_of, Holds, update_same, Chain-other, contents_other,
  All-append, append-All, Distinct-middle, Distinct-insert, last_cases,
}

module _ (P : ℕ → Type 0) where
  -- The list holds the data `ds` in order, has `room` blank nodes, and all its nodes have `P`.
  abbrev pub Shows : Slist → List Pointer → ℕ → Type 0
  Shows sl ds room =
      (used : List ℕ) × (free : List ℕ) × (mems : List ℕ) × Holds sl used free mems
      × (contents sl.heap used ≡ ds)
      × (length free ≡ room)
      × All P (used ++ (free ++ mems))

  -- What an operation that adds comes to: 1 and no change if there is no room, else 0 and a list
  -- that holds `ds` in one node more.
  abbrev pub Grown : Option (ℕ × Slist) → Slist → List Pointer → ℕ → Type 0
  Grown r sl ds zero = r ≡ some (1, sl)
  Grown r sl ds (suc room) = (sl' : Slist) × (r ≡ some (0, sl')) × Shows sl' ds room

  -- What `pop` comes to: NULL and no change on an empty list, else the first datum and the rest.
  abbrev pub Popped : Pointer × Slist → Slist → List Pointer → ℕ → Type 0
  Popped r sl [] room = r ≡ (none, sl)
  Popped r sl (d ∷ ds) room = (sl' : Slist) × (r ≡ (d, sl')) × Shows sl' ds (suc room)

  -- The first blank node becomes the first in use, or the other way round.
  All-taken :
      (used free mems : List ℕ) (a : ℕ)
      → All P (used ++ ((a ∷ free) ++ mems))
      → All P ((a ∷ used) ++ (free ++ mems))
  All-taken used free mems a all =
      let (u, r) = All-append P used ((a ∷ free) ++ mems) all in
      (r.0, append-All P used (free ++ mems) u r.1)

  All-given :
      (used free mems : List ℕ) (a : ℕ)
      → All P ((a ∷ used) ++ (free ++ mems))
      → All P (used ++ ((a ∷ free) ++ mems))
  All-given used free mems a all =
      let (u, r) = All-append P used (free ++ mems) all.1 in
      append-All P used ((a ∷ free) ++ mems) u (all.0, r)

push-ends :
    (p : Pointer) (a : ℕ) (used : List ℕ)
    → p ≡ last_of used
    → (if is_null p then some a else p) ≡ last_of (a ∷ used)
push-ends p a [] e = rw e refl
push-ends p a (b ∷ used) e = let (init, last, _, l) = last_cases b used in rw (e, l) refl

pub Chain-twice :
    (h : Heap) (a : ℕ) (v w : SlNode) (p : Pointer) (xs : List ℕ)
    → NotIn a xs
    → Chain h p xs
    → Chain (update (update h a v) a w) p xs
Chain-twice h a v w p xs n c = Chain-other (update h a v) a w p xs n (Chain-other h a v p xs n c)

pub contents_twice :
    (h : Heap) (a : ℕ) (v w : SlNode) (xs : List ℕ)
    → NotIn a xs
    → contents (update (update h a v) a w) xs ≡ contents h xs
contents_twice h a v w xs n = contents_other (update h a v) a w xs n ∙ contents_other h a v xs n

-- A list without blank nodes is full, and one with blank nodes is not.
pub full :
    {sl : Slist} {used mems : List ℕ} → Holds sl used [] mems → (sl.length == sl.capacity) ≡ true
full holds = let l = holds.counted in let r = holds.room in ground arith

pub not_full :
    {sl : Slist} {used free mems : List ℕ} {a : ℕ}
    → Holds sl used (a ∷ free) mems
    → (sl.length == sl.capacity) ≡ false
not_full holds = let l = holds.counted in let r = holds.room in ground arith

-- The first blank node is none of the others.
pub apart :
    (used free mems : List ℕ) (a : ℕ)
    → Distinct (used ++ ((a ∷ free) ++ mems))
    → NotIn a used × NotIn a free × NotIn a mems × Distinct (used ++ (free ++ mems))
apart used free mems a d =
    let (n, d') = Distinct-middle used a (free ++ mems) d in
    let (u, r) = All-append (λ b. a ≢ b) used (free ++ mems) n in
    let (f, m) = All-append (λ b. a ≢ b) free mems r in (u, f, m, d')

-- `push` on a list with room puts the datum before the others; without room it gives 1 and changes
-- nothing.
pub push_lem :
    (P : ℕ → Type 0) (d : Pointer) (sl : Slist) (ds : List Pointer) (room : ℕ)
    → Shows P sl ds room
    → Grown P (push d sl) sl (d ∷ ds) room
unfolding push
push_lem P d sl ds room (used, [], mems, holds, c, e, all) =
    subst (λ r. Grown P (push d sl) sl (d ∷ ds) r) e (rw (push, full holds) refl)
push_lem P d sl ds room (used, a ∷ free, mems, holds, c, e, all) =
    let (nu, nf, nm, dist) = apart used free mems a holds.distinct in
    let h = sl.heap in
    let v : SlNode = record { data_ptr = d; next = (h a).next } in
    let w : SlNode = record { data_ptr = (set_data h a d a).data_ptr; next = sl.head } in
    let h' = set_next (set_data h a d) a sl.head in
    let node : h' a ≡ w = update_same (set_data h a d) a w in
    let datum : (h' a).data_ptr ≡ d =
      ap (λ n. n.data_ptr) node ∙ ap (λ n. n.data_ptr) (update_same h a v) in
    let sl' = record sl {
      heap = h';
      head = some a;
      end_ptr = if is_null sl.end_ptr then some a else sl.end_ptr;
      blank = (h a).next;
      length = suc sl.length;
    } in
    subst (λ r. Grown P (push d sl) sl (d ∷ ds) r) e
      (
        sl',
        rw (push, not_full holds, holds.in_blank.0) refl,
        (
          a ∷ used,
          free,
          mems,
          record {
            in_use = (refl, rw (node) (Chain-twice h a v w sl.head used nu holds.in_use));
            in_blank = Chain-twice h a v w (h a).next free nf holds.in_blank.1;
            in_memlist = Chain-twice h a v w sl.memlist mems nm holds.in_memlist;
            distinct = (
              append-All (λ b. a ≢ b) used (free ++ mems) nu
                  (append-All (λ b. a ≢ b) free mems nf nm),
              dist,
            );
            ends = push-ends sl.end_ptr a used holds.ends;
            counted = ap suc holds.counted;
            room = omega (arith, holds.room);
          },
          ap₂ (λ x xs. x ∷ xs) datum (contents_twice h a v w used nu ∙ c),
          refl,
          All-taken P used free mems a all,
        ),
      )

pop-ends :
    (h : Heap) (a : ℕ) (p : Pointer) (used : List ℕ)
    → Chain h (h a).next used
    → p ≡ last_of (a ∷ used)
    → (if is_null (h a).next then none else p) ≡ last_of used
pop-ends h a p [] c e = rw (c) refl
pop-ends h a p (b ∷ used) c e = rw (c.0) e

-- `pop` takes the first datum; on an empty list it gives NULL and changes nothing.
pub pop_lem :
    (P : ℕ → Type 0) (sl : Slist) (ds : List Pointer) (room : ℕ)
    → Shows P sl ds room
    → Popped P (pop sl) sl ds room
unfolding pop
pop_lem P sl ds room ([], free, mems, holds, c, e, all) =
    subst (λ l. Popped P (pop sl) sl l room) c (simp (pop, holds.in_use) refl)
pop_lem P sl ds room (a ∷ used, free, mems, holds, c, e, all) =
    let h = sl.heap in
    let w : SlNode = record { data_ptr = (h a).data_ptr; next = sl.blank } in
    let h' = set_next h a sl.blank in
    let node : h' a ≡ w = update_same h a w in
    let (n, dist) = holds.distinct in
    let (nu, r) = All-append (λ b. a ≢ b) used (free ++ mems) n in
    let (nf, nm) = All-append (λ b. a ≢ b) free mems r in
    let sl' = record sl {
      heap = h';
      head = (h a).next;
      end_ptr = if is_null (h a).next then none else sl.end_ptr;
      blank = some a;
      length = sl.length - 1;
    } in
    subst (λ l. Popped P (pop sl) sl l room) c
      (
        sl',
        rw (pop, holds.in_use.0) refl,
        (
          used,
          a ∷ free,
          mems,
          record {
            in_use = Chain-other h a w (h a).next used nu holds.in_use.1;
            in_blank = (refl, rw (node) (Chain-other h a w sl.blank free nf holds.in_blank));
            in_memlist = Chain-other h a w sl.memlist mems nm holds.in_memlist;
            distinct = Distinct-insert used a (free ++ mems) n dist;
            ends = pop-ends h a sl.end_ptr used holds.in_use.1 holds.ends;
            counted = omega (arith, holds.counted);
            room = omega (arith, holds.room);
          },
          contents_other h a w used nu,
          omega (arith, e),
          All-given P used free mems a all,
        ),
      )
