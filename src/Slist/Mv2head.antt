-- ===== src/Slist/Mv2head.antt =====
-- `mv2head` of slist.c.
use dnscache.Common.{
  ℕ, zero, suc, ◌<◌, ◌≡◌, refl, sym, ap, true, false, Option, some, List, [], ◌∷◌, ◌++◌, length,
  All, arith,
}
use mathlib.Core.Path.{subst}
use dnscache.Slist.{Pointer, same, Heap, Slist, moved, mv2head_from, mv2head}
use dnscache.Slist.Chains.{Chain, contents, Holds}
use dnscache.Slist.Moved.{moved_lem}

-- The nodes of `xs` hold other data than `d`.
abbrev pub Differ : Heap → Pointer → List ℕ → Type 0
Differ h d = All (λ b. same (h b).data_ptr d ≡ false)

abbrev pub last_or : ℕ → List ℕ → ℕ
last_or pre [] = pre
last_or pre (a ∷ xs) = last_or a xs

mv2head_from_lem :
    (n : ℕ) (d : Pointer) (sl : Slist) (xs : List ℕ) (c : ℕ) (ys : List ℕ) (pre : ℕ) (cur : Pointer)
    → Chain sl.heap cur (xs ++ c ∷ ys)
    → Differ sl.heap d xs
    → same (sl.heap c).data_ptr d ≡ true
    → length xs < n
    → mv2head_from n d pre cur sl ≡ some (0, moved (last_or pre xs) c sl)
unfolding mv2head_from
mv2head_from_lem zero d sl xs c ys pre cur k ne e l = absurd (omega arith)
mv2head_from_lem (suc n) d sl [] c ys pre cur k ne e l = rw (k.0, mv2head_from, e) refl
mv2head_from_lem (suc n) d sl (x ∷ xs) c ys pre cur k ne e l =
    rw
      (
        k.0,
        mv2head_from,
        ne.0,
        mv2head_from_lem n d sl xs c ys x (sl.heap x).next k.1 ne.1 e (omega arith),
      )
      refl

mv2head_from_miss :
    (n : ℕ) (d : Pointer) (sl : Slist) (xs : List ℕ) (pre : ℕ) (cur : Pointer)
    → Chain sl.heap cur xs
    → Differ sl.heap d xs
    → length xs < n
    → mv2head_from n d pre cur sl ≡ some (1, sl)
unfolding mv2head_from
mv2head_from_miss zero d sl xs pre cur k ne l = absurd (omega arith)
mv2head_from_miss (suc n) d sl [] pre cur k ne l = simp (k, mv2head_from) refl
mv2head_from_miss (suc n) d sl (x ∷ xs) pre cur k ne l =
    rw
      (
        k.0,
        mv2head_from,
        ne.0,
        mv2head_from_miss n d sl xs x (sl.heap x).next k.1 ne.1 (omega arith),
      )
      refl

mv2head_step :
    (n : ℕ) (d : Pointer) (sl : Slist) (first : ℕ) (r : Option (ℕ × Slist))
    → sl.head ≡ some first
    → same (sl.heap first).data_ptr d ≡ false
    → mv2head_from n d first (sl.heap first).next sl ≡ r
    → mv2head n d sl ≡ r
unfolding mv2head
mv2head_step n d sl first r e ne run = simp (mv2head, e, ne) run

last_or_cases : (a : ℕ) (xs : List ℕ) → (init : List ℕ) × (a ∷ xs ≡ init ++ last_or a xs ∷ [])
last_or_cases a [] = ([], refl)
last_or_cases a (b ∷ xs) = let (init, e) = last_or_cases b xs in (a ∷ init, ap (λ l. a ∷ l) e)

-- The list `sl'` holds `c` and then `xs`, with the data that they had in `sl`.
abbrev pub Reordered : Slist → Slist → (xs free mems : List ℕ) → Type 0
Reordered sl sl' xs free mems =
    Holds sl' xs free mems × (contents sl'.heap xs ≡ contents sl.heap xs)

-- If `c` is the first node with the datum `d`, `mv2head` ends with 0 and moves it to the head; the
-- others keep their order, and all keep their data.
pub mv2head_lem :
    (n : ℕ) (d : Pointer) (sl : Slist) (xs : List ℕ) (c : ℕ) (ys free mems : List ℕ)
    → Holds sl (xs ++ c ∷ ys) free mems
    → Differ sl.heap d xs
    → same (sl.heap c).data_ptr d ≡ true
    → length xs < n
    → (sl' : Slist) × (mv2head n d sl ≡ some (0, sl')) × Reordered sl sl' (c ∷ (xs ++ ys)) free mems
unfolding mv2head
mv2head_lem n d sl [] c ys free mems holds ne e l =
    (sl, simp (mv2head, holds.in_use.0, e) refl, (holds, refl))
mv2head_lem n d sl (x ∷ xs) c ys free mems holds ne e l =
    let (init, split) = last_or_cases x xs in
    let pre = last_or x xs in
    let run =
      mv2head_from_lem n d sl xs c ys x (sl.heap x).next holds.in_use.1 ne.1 e (omega arith) in
    (
      moved pre c sl,
      mv2head_step n d sl x _ holds.in_use.0 ne.0 run,
      subst (λ l'. Reordered sl (moved pre c sl) (c ∷ (l' ++ ys)) free mems) (sym split)
          (moved_lem sl init pre c ys free mems
            (subst (λ l'. Holds sl (l' ++ c ∷ ys) free mems) split holds)),
    )
