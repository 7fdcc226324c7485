-- ===== src/Slist/Append.antt =====
-- `append` of slist.c against a list of data.
use dnscache.Common.{
  ℕ, suc, ◌≡◌, ◌≢◌, refl, sym, ap, ap₂, ◌∙◌, none, some, List, [], ◌∷◌, ◌++◌, length, All,
  map-append, arith, append_assoc, length-append,
}
use mathlib.Core.Path.{subst}
use dnscache.Slist.{Pointer, SlNode, Heap, set_next, set_data, Slist, append}
use dnscache.Slist.Chains.{
  Chain, NotIn, Distinct, contents, Holds, update_same, update_other, Chain-kept, All-append,
  append-All, Distinct-middle, last_cases, last_of-append,
}
use dnscache.Slist.Ends.{Shows, Grown, Chain-twice, full, not_full, apart}

Chain-extend :
    (h h' : Heap) (init : List ℕ) (last a : ℕ) (p : Pointer)
    → All (λ b. (h' b).next ≡ (h b).next) init
    → (h' last).next ≡ some a
    → (h' a).next ≡ none
    → Chain h p (init ++ last ∷ [])
    → Chain h' p ((init ++ last ∷ []) ++ a ∷ [])
Chain-extend h h' [] last a p s l e c = (c.0, (l, e))
Chain-extend h h' (b ∷ init) last a p s l e c =
    (c.0, Chain-extend h h' init last a (h' b).next s.1 l e (rw (s.0) c.1))

pub contents_same :
    (h h' : Heap) (xs : List ℕ)
    → All (λ b. (h' b).data_ptr ≡ (h b).data_ptr) xs
    → contents h' xs ≡ contents h xs
contents_same h h' [] s = refl
contents_same h h' (b ∷ xs) s = ap₂ (λ x l. x ∷ l) s.0 (contents_same h h' xs s.1)

pub kept-next :
    (h h' : Heap) (xs : List ℕ) → All (λ b. h' b ≡ h b) xs → All (λ b. (h' b).next ≡ (h b).next) xs
kept-next h h' [] k = k
kept-next h h' (b ∷ xs) k = (ap (λ n. n.next) k.0, kept-next h h' xs k.1)

pub kept-data_ptr :
    (h h' : Heap) (xs : List ℕ)
    → All (λ b. h' b ≡ h b) xs
    → All (λ b. (h' b).data_ptr ≡ (h b).data_ptr) xs
kept-data_ptr h h' [] k = k
kept-data_ptr h h' (b ∷ xs) k = (ap (λ n. n.data_ptr) k.0, kept-data_ptr h h' xs k.1)

module _ (h : Heap) (last a : ℕ) (d : Pointer) (ne : last ≢ a) where
  -- The heap after `append` to a list that ends at `last`.
  abbrev linked : Heap
  linked = set_next (set_next (set_data h a d) last (some a)) a none

  linked_other : (b : ℕ) → a ≢ b → last ≢ b → linked b ≡ h b
  linked_other b na nl =
      update_other (set_next (set_data h a d) last (some a)) a b _ (λ e. na (sym e))
      ∙ (update_other (set_data h a d) last b _ (λ e. nl (sym e))
          ∙ update_other h a b _ (λ e. na (sym e)))

  linked_others : (xs : List ℕ) → NotIn a xs → NotIn last xs → All (λ b. linked b ≡ h b) xs
  linked_others [] na nl = tt
  linked_others (b ∷ xs) na nl = (linked_other b na.0 nl.0, linked_others xs na.1 nl.1)

  linked_last : ((linked last).next ≡ some a) × ((linked last).data_ptr ≡ (h last).data_ptr)
  linked_last =
      let e =
        update_other (set_next (set_data h a d) last (some a)) a last _ ne
        ∙ update_same (set_data h a d) last _ in
      (
        ap (λ n. n.next) e,
        ap (λ n. n.data_ptr) e ∙ ap (λ n. n.data_ptr) (update_other h a last _ ne),
      )

  linked_new : ((linked a).next ≡ none) × ((linked a).data_ptr ≡ d)
  linked_new =
      let e = update_same (set_next (set_data h a d) last (some a)) a _ in
      (
        ap (λ n. n.next) e,
        ap (λ n. n.data_ptr) e
            ∙ (ap (λ n. n.data_ptr) (update_other (set_data h a d) last a _ (λ z. ne (sym z)))
                ∙ ap (λ n. n.data_ptr) (update_same h a _)),
      )

append_empty :
    (P : ℕ → Type 0) (d : Pointer) (sl : Slist) (free mems : List ℕ) (a : ℕ)
    → Holds sl [] (a ∷ free) mems
    → All P ((a ∷ free) ++ mems)
    → Grown P (append d sl) sl (d ∷ []) (suc (length free))
unfolding append
append_empty P d sl free mems a holds all =
    let (_, nf, nm, dist) = apart [] free mems a holds.distinct in
    let h = sl.heap in
    let v : SlNode = record { data_ptr = d; next = (h a).next } in
    let w : SlNode = record { data_ptr = (set_data h a d a).data_ptr; next = none } in
    let node : set_next (set_data h a d) a none a ≡ w = update_same (set_data h a d) a w in
    (
      record sl {
        heap = set_next (set_data h a d) a none;
        head = some a;
        end_ptr = some a;
        blank = (h a).next;
        length = suc sl.length;
      },
      rw (append, not_full holds, holds.in_blank.0, holds.in_use) refl,
      (
        a ∷ [],
        free,
        mems,
        record {
          in_use = (refl, ap (λ n. n.next) node);
          in_blank = Chain-twice h a v w (h a).next free nf holds.in_blank.1;
          in_memlist = Chain-twice h a v w sl.memlist mems nm holds.in_memlist;
          distinct = holds.distinct;
          ends = refl;
          counted = ap suc holds.counted;
          room = omega (arith, holds.room);
        },
        ap (λ x. x ∷ []) (ap (λ n. n.data_ptr) node ∙ ap (λ n. n.data_ptr) (update_same h a v)),
        refl,
        all,
      ),
    )

append_last :
    (P : ℕ → Type 0) (d : Pointer) (sl : Slist) (init free mems : List ℕ) (first last a : ℕ)
    → sl.head ≡ some first
    → sl.end_ptr ≡ some last
    → Holds sl (init ++ last ∷ []) (a ∷ free) mems
    → All P ((init ++ last ∷ []) ++ ((a ∷ free) ++ mems))
    → Grown P (append d sl) sl (contents sl.heap (init ++ last ∷ []) ++ d ∷ []) (suc (length free))
unfolding append
append_last P d sl init free mems first last a head_at end_at holds all =
    let h = sl.heap in
    let used = init ++ last ∷ [] in
    let (nu, nf, nm, dist) = apart used free mems a holds.distinct in
    let (ni, nl) = All-append (λ b. a ≢ b) init (last ∷ []) nu in
    let (ln, _) =
      Distinct-middle init last ((a ∷ free) ++ mems)
        (subst Distinct (append_assoc init (last ∷ []) ((a ∷ free) ++ mems)) holds.distinct) in
    let (li, lr) = All-append (λ b. last ≢ b) init ((a ∷ free) ++ mems) ln in
    let (lf, lm) = All-append (λ b. last ≢ b) free mems lr.1 in
    let h' = linked h last a d lr.0 in
    let (last_next, last_data) = linked_last h last a d lr.0 in
    let (new_next, new_data) = linked_new h last a d lr.0 in
    let kept = linked_others h last a d lr.0 in
    (
      record sl { heap = h'; end_ptr = some a; blank = (h a).next; length = suc sl.length },
      simp (append, not_full holds, holds.in_blank.0, head_at, end_at) refl,
      (
        used ++ a ∷ [],
        free,
        mems,
        record {
          in_use =
              Chain-extend h h' init last a sl.head (kept-next h h' init (kept init ni li))
                last_next new_next holds.in_use;
          in_blank =
              Chain-kept h h' (h a).next free (kept-next h h' free (kept free nf lf))
                holds.in_blank.1;
          in_memlist =
              Chain-kept h h' sl.memlist mems (kept-next h h' mems (kept mems nm lm))
                holds.in_memlist;
          distinct =
              subst Distinct (sym (append_assoc used (a ∷ []) (free ++ mems))) holds.distinct;
          ends = sym (last_of-append used a);
          counted = omega (arith, holds.counted, length-append used (a ∷ []));
          room = omega (arith, holds.room, length-append used (a ∷ []));
        },
        map-append (λ b. (h' b).data_ptr) used (a ∷ [])
            ∙ ap₂ (λ xs x. xs ++ x ∷ [])
                (contents_same h h' used (
                  append-All (λ b. (h' b).data_ptr ≡ (h b).data_ptr) init (last ∷ [])
                    (kept-data_ptr h h' init (kept init ni li)) (last_data, tt)))
                new_data,
        refl,
        subst (All P) (sym (append_assoc used (a ∷ []) (free ++ mems))) all,
      ),
    )

-- `append` on a list with room puts the datum behind the others; without room it gives 1 and changes
-- nothing.
pub append_lem :
    (P : ℕ → Type 0) (d : Pointer) (sl : Slist) (ds : List Pointer) (room : ℕ)
    → Shows P sl ds room
    → Grown P (append d sl) sl (ds ++ d ∷ []) room
unfolding append
append_lem P d sl ds room (used, [], mems, holds, c, e, all) =
    subst (λ r. Grown P (append d sl) sl (ds ++ d ∷ []) r) e (simp (append, full holds) refl)
append_lem P d sl ds room ([], a ∷ free, mems, holds, c, e, all) =
    subst (λ r. Grown P (append d sl) sl (ds ++ d ∷ []) r) e
      (subst (λ l. Grown P (append d sl) sl (l ++ d ∷ []) (suc (length free))) c
        (append_empty P d sl free mems a holds all))
append_lem P d sl ds room (b ∷ used, a ∷ free, mems, holds, c, e, all) =
    let (init, last, split, end_at) = last_cases b used in
    subst (λ r. Grown P (append d sl) sl (ds ++ d ∷ []) r) e
      (subst (λ l. Grown P (append d sl) sl (l ++ d ∷ []) (suc (length free)))
        (ap (contents sl.heap) (sym split) ∙ c)
        (append_last P d sl init free mems b last a holds.in_use.0 (holds.ends ∙ end_at)
          (subst (λ l. Holds sl l (a ∷ free) mems) split holds)
          (subst (λ l. All P (l ++ ((a ∷ free) ++ mems))) split all)))
