-- ===== src/Slist/Views.antt =====
-- `mv2head`, `find` and the lists that slist.c makes, against lists of data.
use dnscache.Common.{
  ℕ, suc, ◌+◌, ◌<◌, ◌≡◌, refl, sym, ap, ◌∙◌, true, false, some, List, [], ◌∷◌, ◌++◌, if◌then◌else◌,
  length, All, map-append, ◌≢◌, arith, length-append,
}
use mathlib.Core.Path.{subst}
use dnscache.Slist.{Pointer, same, Heap, Slist, find, mv2head, mk_slist, sl_expand}
use dnscache.Slist.Chains.{contents, Holds, All-append, append-All}
use dnscache.Slist.Ends.{Shows}
use dnscache.Slist.Walks.{among, find_lem}
use dnscache.Slist.Mv2head.{Differ, mv2head_lem}
use dnscache.Slist.Blocks.{block, Apart, length-block, mk_slist_lem, sl_expand_lem}

-- The nodes of a list in parts, as its data are.
split_contents :
    (h : Heap) (used : List ℕ) (xs : List Pointer) (d : Pointer) (ys : List Pointer)
    → contents h used ≡ xs ++ d ∷ ys
    → (us : List ℕ) × (a : ℕ) × (vs : List ℕ) × (used ≡ us ++ a ∷ vs)
      × (contents h us ≡ xs)
      × ((h a).data_ptr ≡ d)
      × (contents h vs ≡ ys)
split_contents h [] [] d ys e = absurd cc
split_contents h [] (x ∷ xs) d ys e = absurd cc
split_contents h (a ∷ used) [] d ys e = ([], a, used, refl, refl, cc, cc)
split_contents h (a ∷ used) (x ∷ xs) d ys e =
    let (us, b, vs, s, l, m, r) = split_contents h used xs d ys (cc) in
    (a ∷ us, b, vs, ap (λ t. a ∷ t) s, cc, m, r)

Differ-contents :
    (h : Heap) (d : Pointer) (us : List ℕ)
    → All (λ x. same x d ≡ false) (contents h us)
    → Differ h d us
Differ-contents h d [] a = a
Differ-contents h d (u ∷ us) a = (a.0, Differ-contents h d us a.1)

length-contents : (h : Heap) (us : List ℕ) → length (contents h us) ≡ length us
length-contents h [] = refl
length-contents h (u ∷ us) = ap suc (length-contents h us)

pub All-weaker : (P Q : ℕ → Type 0) (xs : List ℕ) → ((a : ℕ) → P a → Q a) → All P xs → All Q xs
All-weaker P Q [] f a = a
All-weaker P Q (x ∷ xs) f a = (f x a.0, All-weaker P Q xs f a.1)

module _ (P : ℕ → Type 0) where
  All-moved :
      (us : List ℕ) (a : ℕ) (vs rest : List ℕ)
      → All P ((us ++ a ∷ vs) ++ rest)
      → All P ((a ∷ (us ++ vs)) ++ rest)
  All-moved us a vs rest all =
      let (l, r) = All-append P (us ++ a ∷ vs) rest all in
      let (u, v) = All-append P us (a ∷ vs) l in
      (v.0, append-All P (us ++ vs) rest (append-All P us vs u v.1) r)

  -- `mv2head` moves the first datum `d` to the head.
  pub mv2head-Shows :
      (n : ℕ) (d : Pointer) (sl : Slist) (xs ys : List Pointer) (room : ℕ)
      → Shows P sl (xs ++ d ∷ ys) room
      → All (λ x. same x d ≡ false) xs
      → same d d ≡ true
      → length xs < n
      → (sl' : Slist) × (mv2head n d sl ≡ some (0, sl')) × Shows P sl' (d ∷ (xs ++ ys)) room
  mv2head-Shows n d sl xs ys room (used, free, mems, holds, c, e, all) differ self few =
      let (us, a, vs, s, l, m, r) = split_contents sl.heap used xs d ys c in
      let (sl', run, (holds', kept)) =
        mv2head_lem n d sl us a vs free mems (subst (λ t. Holds sl t free mems) s holds)
          (Differ-contents sl.heap d us (subst (All (λ x. same x d ≡ false)) (sym l) differ))
          (rw m self) (omega (arith, few, ap length l, length-contents sl.heap us)) in
      (
        sl',
        run,
        (
          a ∷ (us ++ vs),
          free,
          mems,
          holds',
          kept ∙ rw (m, map-append (λ b. (sl.heap b).data_ptr) us vs, l, r) refl,
          e,
          All-moved us a vs (free ++ mems) (subst (λ t. All P (t ++ (free ++ mems))) s all),
        ),
      )

  pub find-Shows :
      (n : ℕ) (d : Pointer) (sl : Slist) (ds : List Pointer) (room : ℕ)
      → Shows P sl ds room
      → length ds < n
      → find n d sl ≡ some (if among d ds then 1 else 0)
  find-Shows n d sl ds room (used, free, mems, holds, c, e, all) few =
      find_lem n d sl used free mems holds
        (omega (arith, few, ap length c, length-contents sl.heap used))
      ∙ ap (λ l. some (if among d l then 1 else 0)) c

  pub Shows-length :
      (sl : Slist) (ds : List Pointer) (room : ℕ) → Shows P sl ds room → sl.length ≡ length ds
  Shows-length sl ds room (used, free, mems, holds, c, e, all) =
      omega (arith, holds.counted, ap length c, length-contents sl.heap used)

  pub mk_slist-Shows :
      (h : Heap) (p mem n : ℕ)
      → Apart p (suc n) mem
      → All P (block p (suc n) ++ mem ∷ [])
      → Shows P (mk_slist h p mem (suc n)) [] (suc n)
  mk_slist-Shows h p mem n apart all = (
    [],
    block p (suc n),
    mem ∷ [],
    mk_slist_lem h p mem n apart,
    refl,
    length-block p (suc n),
    all,
  )

  -- A block that is apart from all that has `P`: the list then has `Q`.
  pub sl_expand-Shows :
      (Q : ℕ → Type 0) (sl : Slist) (ds : List Pointer) (p mem n room : ℕ)
      → ((a : ℕ) → P a → Apart p (suc n) a × (mem ≢ a) × Q a)
      → Apart p (suc n) mem
      → All Q (block p (suc n))
      → Q mem
      → Shows P sl ds room
      → Shows Q (sl_expand sl p mem (suc n)) ds (suc n + room)
  sl_expand-Shows Q sl ds p mem n room new apart q_block q_mem
        (used, free, mems, holds, c, e, all) =
      let rest = used ++ (free ++ mems) in
      let (holds', kept) =
        sl_expand_lem sl p mem n used free mems holds apart
          (All-weaker P (Apart p (suc n)) rest (λ a h. (new a h).0) all)
          (All-weaker P (λ a. mem ≢ a) rest (λ a h. (new a h).1) all) in
      let (qu, qr) =
        All-append Q used (free ++ mems) (All-weaker P Q rest (λ a h. (new a h).2) all) in
      let (qf, qm) = All-append Q free mems qr in
      (
        used,
        block p (suc n) ++ free,
        mem ∷ mems,
        holds',
        kept ∙ c,
        omega (arith, e, length-append (block p (suc n)) free, length-block p (suc n)),
        append-All Q used ((block p (suc n) ++ free) ++ mem ∷ mems) qu (
            append-All Q (block p (suc n) ++ free) (mem ∷ mems)
              (append-All Q (block p (suc n)) free q_block qf) (q_mem, qm)),
      )
