-- ===== src/Slist/Walks.antt =====
-- `traverse`, `find` and `sl_free` of slist.c. A loop ends within one round more than there are
-- nodes.
use dnscache.Common.{
  ℕ, zero, suc, ◌<◌, ◌≡◌, refl, Bool, true, false, some, List, [], ◌∷◌, if◌then◌else◌, length,
  arith, Bool-cases, inl, inr,
}
use dnscache.Slist.{Pointer, same, Heap, Slist, find_from, find, visited, traverse, freed, sl_free}
use dnscache.Slist.Chains.{Chain, contents, Holds}

visited_lem :
    (n : ℕ) (h : Heap) (p : Pointer) (xs : List ℕ)
    → Chain h p xs
    → length xs < n
    → visited n h p ≡ some xs
unfolding visited
visited_lem zero h p xs c l = absurd (omega arith)
visited_lem (suc n) h p [] c l = rw (c, visited) refl
visited_lem (suc n) h p (a ∷ xs) c l =
    rw (c.0, visited, visited_lem n h (h a).next xs c.1 (omega arith)) refl

-- `traverse` visits the nodes in use in order, each once, and ends.
pub traverse_lem :
    (n : ℕ) (sl : Slist) (used free mems : List ℕ)
    → Holds sl used free mems
    → length used < n
    → traverse n sl ≡ some used
unfolding traverse
traverse_lem n sl used free mems holds l = visited_lem n sl.heap sl.head used holds.in_use l

-- Whether a datum is in a list.
abbrev pub among : Pointer → List Pointer → Bool
among d [] = false
among d (x ∷ ds) = if same x d then true else among d ds

find_from_lem :
    (n : ℕ) (h : Heap) (p d : Pointer) (xs : List ℕ)
    → Chain h p xs
    → length xs < n
    → find_from n h p d ≡ some (if among d (contents h xs) then 1 else 0)
unfolding find_from
find_from_lem zero h p d xs c l = absurd (omega arith)
find_from_lem (suc n) h p d [] c l = rw (c, find_from) refl
find_from_lem (suc n) h p d (a ∷ xs) c l =
    let rest = find_from_lem n h (h a).next d xs c.1 (omega arith) in
    elim (Bool-cases (same (h a).data_ptr d)) [
      | inl e ↦ rw (c.0, find_from, e) refl
      | inr e ↦ rw (c.0, find_from, e, rest) refl
    ]

-- `find` ends, and gives 1 if the datum is in the list and 0 if it is not.
pub find_lem :
    (n : ℕ) (d : Pointer) (sl : Slist) (used free mems : List ℕ)
    → Holds sl used free mems
    → length used < n
    → find n d sl ≡ some (if among d (contents sl.heap used) then 1 else 0)
unfolding find
find_lem n d sl used free mems holds l = find_from_lem n sl.heap sl.head d used holds.in_use l

-- Each block and the node that names it.
abbrev pub blocks : Heap → List ℕ → List Pointer
blocks h [] = []
blocks h (a ∷ xs) = (h a).data_ptr ∷ some a ∷ blocks h xs

freed_lem :
    (n : ℕ) (h : Heap) (p : Pointer) (xs : List ℕ)
    → Chain h p xs
    → length xs < n
    → freed n h p ≡ some (blocks h xs)
unfolding freed
freed_lem zero h p xs c l = absurd (omega arith)
freed_lem (suc n) h p [] c l = rw (c, freed) refl
freed_lem (suc n) h p (a ∷ xs) c l =
    rw (c.0, freed, freed_lem n h (h a).next xs c.1 (omega arith)) refl

-- `sl_free` frees the block and the node of each entry of `memlist`, and ends.
pub sl_free_lem :
    (n : ℕ) (sl : Slist) (used free mems : List ℕ)
    → Holds sl used free mems
    → length mems < n
    → sl_free n sl ≡ some (blocks sl.heap mems)
unfolding sl_free
sl_free_lem n sl used free mems holds l = freed_lem n sl.heap sl.memlist mems holds.in_memlist l
