-- ===== src/Slist/Moved.antt =====
-- The list after `mv2head` of slist.c has moved a node.
use dnscache.Common.{
  ℕ, ◌≡◌, ◌≢◌, refl, sym, ap, ◌∙◌, some, List, [], ◌∷◌, ◌++◌, if◌then◌else◌, All, arith, ne→==,
  ==_refl, append_assoc, append-nil, length-append,
}
use mathlib.Core.Path.{subst}
use dnscache.Slist.{Pointer, same, Heap, set_next, Slist, moved}
use dnscache.Slist.Chains.{
  Chain, NotIn, Distinct, contents, last_of, Holds, update_same, update_other, Chain-kept,
  All-append, append-All, Distinct-middle, last_cases, last_of-append,
}
use dnscache.Slist.Append.{contents_same, kept-next, kept-data_ptr}

Chain-splice :
    (h h' : Heap) (init : List ℕ) (pre c : ℕ) (ys : List ℕ) (p : Pointer)
    → All (λ b. (h' b).next ≡ (h b).next) init
    → (h' pre).next ≡ (h c).next
    → All (λ b. (h' b).next ≡ (h b).next) ys
    → Chain h p ((init ++ pre ∷ []) ++ c ∷ ys)
    → Chain h' p ((init ++ pre ∷ []) ++ ys)
Chain-splice h h' [] pre c ys p s e t k = (k.0, rw (e) (Chain-kept h h' (h c).next ys t k.1.1))
Chain-splice h h' (b ∷ init) pre c ys p s e t k =
    (k.0, Chain-splice h h' init pre c ys (h' b).next s.1 e t (rw (s.0) k.1))

last_of-join : (xs : List ℕ) (a : ℕ) (ys : List ℕ) → last_of (xs ++ a ∷ ys) ≡ last_of (a ∷ ys)
last_of-join [] a ys = refl
last_of-join (x ∷ []) a ys = refl
last_of-join (x ∷ y ∷ xs) a ys = last_of-join (y ∷ xs) a ys

moved-ends :
    (p : Pointer) (init : List ℕ) (pre c : ℕ) (ys : List ℕ)
    → p ≡ last_of ((init ++ pre ∷ []) ++ c ∷ ys)
    → NotIn c ys
    → (if same (some c) p then some pre else p) ≡ last_of (c ∷ ((init ++ pre ∷ []) ++ ys))
moved-ends p init pre c [] e n =
    rw (e, last_of-append (init ++ pre ∷ []) c, ==_refl c, append-nil (init ++ pre ∷ []))
      (sym (last_of-append (c ∷ init) pre))
moved-ends p init pre c (y ∷ ys) e n =
    let (front, last, split, l) = last_cases y ys in
    let differs : NotIn c (front ++ last ∷ []) = subst (NotIn c) split n in
    let (_, away) = All-append (λ b. c ≢ b) front (last ∷ []) differs in
    let p_is : p ≡ some last = e ∙ (last_of-join (init ++ pre ∷ []) c (y ∷ ys) ∙ l) in
    rw (p_is, ne→== c last away.0) (sym (last_of-join (c ∷ (init ++ pre ∷ [])) y ys ∙ l))

module _ (h : Heap) (pre c : ℕ) (p : Pointer) (ne : c ≢ pre) where
  abbrev spliced : Heap
  spliced = set_next (set_next h pre (h c).next) c p

  spliced_others : (xs : List ℕ) → NotIn c xs → NotIn pre xs → All (λ b. spliced b ≡ h b) xs
  spliced_others [] nc np = tt
  spliced_others (b ∷ xs) nc np = (
    update_other (set_next h pre (h c).next) c b _ (λ e. nc.0 (sym e))
        ∙ update_other h pre b _ (λ e. np.0 (sym e)),
    spliced_others xs nc.1 np.1,
  )

  spliced_pre : ((spliced pre).next ≡ (h c).next) × ((spliced pre).data_ptr ≡ (h pre).data_ptr)
  spliced_pre =
      let e =
        update_other (set_next h pre (h c).next) c pre _ (λ z. ne (sym z)) ∙ update_same h pre _ in
      (ap (λ n. n.next) e, ap (λ n. n.data_ptr) e)

  spliced_cur : ((spliced c).next ≡ p) × ((spliced c).data_ptr ≡ (h c).data_ptr)
  spliced_cur =
      let e = update_same (set_next h pre (h c).next) c _ in
      (
        ap (λ n. n.next) e,
        ap (λ n. n.data_ptr) e ∙ ap (λ n. n.data_ptr) (update_other h pre c _ ne),
      )

-- The node `c` behind `pre` becomes the first, with its datum; the others keep their order.
pub moved_lem :
    (sl : Slist) (init : List ℕ) (pre c : ℕ) (ys free mems : List ℕ)
    → Holds sl ((init ++ pre ∷ []) ++ c ∷ ys) free mems
    → let used = c ∷ ((init ++ pre ∷ []) ++ ys) in
      Holds (moved pre c sl) used free mems
      × (contents (moved pre c sl).heap used ≡ contents sl.heap used)
moved_lem sl init pre c ys free mems holds =
    let h = sl.heap in
    let front = init ++ pre ∷ [] in
    let rest = free ++ mems in
    let (cn, dist) =
      Distinct-middle front c (ys ++ rest)
        (subst Distinct (append_assoc front (c ∷ ys) rest) holds.distinct) in
    let (cf, cr) = All-append (λ b. c ≢ b) front (ys ++ rest) cn in
    let (ci, cp) = All-append (λ b. c ≢ b) init (pre ∷ []) cf in
    let (cy, crest) = All-append (λ b. c ≢ b) ys rest cr in
    let (cfree, cmems) = All-append (λ b. c ≢ b) free mems crest in
    let (pn, _) =
      Distinct-middle init pre (ys ++ rest)
        (subst Distinct (append_assoc init (pre ∷ []) (ys ++ rest)) dist) in
    let (pi, pr) = All-append (λ b. pre ≢ b) init (ys ++ rest) pn in
    let (py, prest) = All-append (λ b. pre ≢ b) ys rest pr in
    let (pfree, pmems) = All-append (λ b. pre ≢ b) free mems prest in
    let ne = cp.0 in
    let h' = spliced h pre c sl.head ne in
    let kept = spliced_others h pre c sl.head ne in
    let at_pre = spliced_pre h pre c sl.head ne in
    let at_cur = spliced_cur h pre c sl.head ne in
    let chain =
      Chain-splice h h' init pre c ys sl.head (kept-next h h' init (kept init ci pi)) at_pre.0
        (kept-next h h' ys (kept ys cy py)) holds.in_use in
    let assoc = sym (append_assoc front ys rest) in
    (
      record {
        in_use = (refl, rw (at_cur.0) chain);
        in_blank =
            Chain-kept h h' sl.blank free (kept-next h h' free (kept free cfree pfree))
              holds.in_blank;
        in_memlist =
            Chain-kept h h' sl.memlist mems (kept-next h h' mems (kept mems cmems pmems))
              holds.in_memlist;
        distinct = (subst (NotIn c) assoc cn, subst Distinct assoc dist);
        ends = moved-ends sl.end_ptr init pre c ys holds.ends cy;
        counted =
            omega (arith, holds.counted, length-append front (c ∷ ys), length-append front ys);
        room = omega (arith, holds.room, length-append front (c ∷ ys), length-append front ys);
      },
      contents_same h h' (c ∷ (front ++ ys)) (
        at_cur.1,
        append-All (λ b. (h' b).data_ptr ≡ (h b).data_ptr) front ys
            (append-All (λ b. (h' b).data_ptr ≡ (h b).data_ptr) init (pre ∷ [])
              (kept-data_ptr h h' init (kept init ci pi)) (at_pre.1, tt))
            (kept-data_ptr h h' ys (kept ys cy py)),
      ),
    )
