-- ===== src/Slist/Blocks.antt =====
-- `mk_slist` and `sl_expand` of slist.c: the nodes of a new block become blank nodes.
use dnscache.Common.{
  ℕ, zero, suc, ◌+◌, ◌≤◌, ◌<◌, ◌≡◌, ◌≢◌, ◌⊎◌, refl, sym, ap, ◌∙◌, none, some, List, [], ◌∷◌, ◌++◌,
  length, All, arith, append_assoc, append-nil, length-append,
}
use mathlib.Core.Path.{subst}
use dnscache.Slist.{Pointer, SlNode, Heap, set_next, set_data, Slist, link, mk_slist, sl_expand}
use dnscache.Slist.Chains.{
  Chain, NotIn, Distinct, contents, Holds, update_same, update_other, Chain-kept, Chain-other,
  All-append, append-All, Distinct-insert,
}
use dnscache.Slist.Ends.{Chain-twice, contents_twice}
use dnscache.Slist.Append.{contents_same, kept-next, kept-data_ptr}

-- The `n` nodes from `p` on.
abbrev pub block : ℕ → ℕ → List ℕ
block p zero = []
block p (suc n) = p ∷ block (p + 1) n

-- A node that is none of them.
abbrev pub Apart : (p n : ℕ) → ℕ → Type 0
Apart p n b = (b < p) ⊎ (p + n ≤ b)

-- The heap after the loop that links the block, with its last node linked to `q`.
abbrev laid : (rounds ptr : ℕ) → Heap → Pointer → Heap
laid rounds ptr h q = let (h', last) = link rounds ptr h in set_next h' last q

laid-Apart :
    (rounds ptr : ℕ) (h : Heap) (q : Pointer) (b : ℕ)
    → Apart ptr (suc rounds) b
    → laid rounds ptr h q b ≡ h b
unfolding link
laid-Apart zero ptr h q b out = update_other h ptr b _ (λ e. absurd (omega arith))
laid-Apart (suc rounds) ptr h q b out =
    laid-Apart rounds (ptr + 1) (set_next h ptr (some (ptr + 1))) q b (omega arith)
    ∙ update_other h ptr b _ (λ e. absurd (omega arith))

Apart-NotIn : (p n : ℕ) (xs : List ℕ) → All (Apart p (suc n)) xs → NotIn p xs
Apart-NotIn p n [] a = tt
Apart-NotIn p n (x ∷ xs) a = ((λ e. absurd (omega (arith, a.0))), Apart-NotIn p n xs a.1)

Apart-next : (p n : ℕ) (xs : List ℕ) → All (Apart p (suc n)) xs → All (Apart (p + 1) n) xs
Apart-next p n [] a = tt
Apart-next p n (x ∷ xs) a = (omega (arith, a.0), Apart-next p n xs a.1)

laid-Chain :
    (rounds ptr : ℕ) (h : Heap) (q : Pointer) (xs : List ℕ)
    → All (Apart ptr (suc rounds)) xs
    → Chain h q xs
    → Chain (laid rounds ptr h q) (some ptr) (block ptr (suc rounds) ++ xs)
unfolding link
laid-Chain zero ptr h q xs out c = (
  refl,
  rw (update_same h ptr (record { data_ptr = (h ptr).data_ptr; next = q }))
      (Chain-other h ptr _ q xs (Apart-NotIn ptr 0 xs out) c),
)
laid-Chain (suc rounds) ptr h q xs out c =
    let h' = set_next h ptr (some (ptr + 1)) in
    let more =
      laid-Chain rounds (ptr + 1) h' q xs (Apart-next ptr (suc rounds) xs out)
        (Chain-other h ptr _ q xs (Apart-NotIn ptr (suc rounds) xs out) c) in
    let first : laid (suc rounds) ptr h q ptr ≡ h' ptr =
      laid-Apart rounds (ptr + 1) h' q ptr (omega arith) in
    (
      refl,
      rw (first, update_same h ptr (record { data_ptr = (h ptr).data_ptr; next = some (ptr + 1) }))
          more,
    )

pub length-block : (p n : ℕ) → length (block p n) ≡ n
length-block p zero = refl
length-block p (suc n) = ap suc (length-block (p + 1) n)

block-above : (p q n : ℕ) → p < q → NotIn p (block q n)
block-above p q zero l = tt
block-above p q (suc n) l = ((λ e. absurd (omega arith)), block-above p (q + 1) n (omega arith))

Distinct-block :
    (p n : ℕ) (xs ys : List ℕ)
    → All (Apart p n) xs
    → All (Apart p n) ys
    → Distinct (xs ++ ys)
    → Distinct (xs ++ (block p n ++ ys))
Distinct-block p zero xs ys ax ay d = d
Distinct-block p (suc n) xs ys ax ay d =
    let more = Distinct-block (p + 1) n xs ys (Apart-next p n xs ax) (Apart-next p n ys ay) d in
    Distinct-insert xs p (block (p + 1) n ++ ys)
      (append-All (λ b. p ≢ b) xs (block (p + 1) n ++ ys) (Apart-NotIn p n xs ax)
        (append-All (λ b. p ≢ b) (block (p + 1) n) ys (block-above p (p + 1) n (omega arith))
          (Apart-NotIn p n ys ay)))
      more

laid-kept :
    (rounds ptr : ℕ) (h : Heap) (q : Pointer) (xs : List ℕ)
    → All (Apart ptr (suc rounds)) xs
    → All (λ b. laid rounds ptr h q b ≡ h b) xs
laid-kept rounds ptr h q [] a = tt
laid-kept rounds ptr h q (x ∷ xs) a =
    (laid-Apart rounds ptr h q x a.0, laid-kept rounds ptr h q xs a.1)

-- A new list of one node or more is empty, and all its nodes are blank.
pub mk_slist_lem :
    (h : Heap) (p mem n : ℕ)
    → Apart p (suc n) mem
    → Holds (mk_slist h p mem (suc n)) [] (block p (suc n)) (mem ∷ [])
unfolding mk_slist
mk_slist_lem h p mem n out =
    let h1 = set_next (set_data h mem (some p)) mem none in
    record {
      in_use = refl;
      in_blank =
          subst (Chain (laid n p h1 none) (some p)) (append-nil (block p (suc n)))
            (laid-Chain n p h1 none [] tt refl);
      in_memlist = (
        refl,
        ap (λ m. m.next)
            (laid-Apart n p h1 none mem out ∙ update_same (set_data h mem (some p)) mem _),
      );
      distinct = Distinct-block p (suc n) [] (mem ∷ []) tt (out, tt) (tt, tt);
      ends = refl;
      counted = refl;
      room = omega (arith, length-block p (suc n));
    }

Apart-block : (p n mem : ℕ) → Apart p n mem → NotIn mem (block p n)
Apart-block p zero mem a = tt
Apart-block p (suc n) mem a = ((λ e. absurd (omega arith)), Apart-block (p + 1) n mem (omega arith))

Distinct-expand :
    (p n mem : ℕ) (used free mems : List ℕ)
    → Apart p n mem
    → All (Apart p n) (used ++ (free ++ mems))
    → NotIn mem (used ++ (free ++ mems))
    → Distinct (used ++ (free ++ mems))
    → Distinct (used ++ ((block p n ++ free) ++ mem ∷ mems))
Distinct-expand p n mem used free mems out outs new d =
    let (ou, or) = All-append (Apart p n) used (free ++ mems) outs in
    let (of, om) = All-append (Apart p n) free mems or in
    let assoc = append_assoc used free mems in
    let with_mem = subst Distinct (append_assoc used free (mem ∷ mems)) (
      Distinct-insert (used ++ free) mem mems (subst (NotIn mem) (sym assoc) new)
        (subst Distinct (sym assoc) d)) in
    subst (λ l. Distinct (used ++ l)) (sym (append_assoc (block p n) free (mem ∷ mems)))
      (Distinct-block p n used (free ++ mem ∷ mems) ou
        (append-All (Apart p n) free (mem ∷ mems) of (out, om)) with_mem)

-- `sl_expand` puts the nodes of a block before the blank nodes and changes nothing of what the list
-- holds, if the block and the node for `memlist` are new.
pub sl_expand_lem :
    (sl : Slist) (p mem n : ℕ) (used free mems : List ℕ)
    → Holds sl used free mems
    → Apart p (suc n) mem
    → All (Apart p (suc n)) (used ++ (free ++ mems))
    → NotIn mem (used ++ (free ++ mems))
    → let sl' = sl_expand sl p mem (suc n) in
      Holds sl' used (block p (suc n) ++ free) (mem ∷ mems)
      × (contents sl'.heap used ≡ contents sl.heap used)
unfolding sl_expand
sl_expand_lem sl p mem n used free mems holds out outs new =
    let h = sl.heap in
    let h2 = laid n p h sl.blank in
    let (ou, or) = All-append (Apart p (suc n)) used (free ++ mems) outs in
    let (of, om) = All-append (Apart p (suc n)) free mems or in
    let (nu, nr) = All-append (λ b. mem ≢ b) used (free ++ mems) new in
    let (nf, nm) = All-append (λ b. mem ≢ b) free mems nr in
    let v : SlNode = record { data_ptr = some p; next = (h2 mem).next } in
    let w : SlNode = record {
      data_ptr = (set_data h2 mem (some p) mem).data_ptr;
      next = sl.memlist;
    } in
    let same_used = laid-kept n p h sl.blank used ou in
    (
      record {
        in_use =
            Chain-twice h2 mem v w sl.head used nu
              (Chain-kept h h2 sl.head used (kept-next h h2 used same_used) holds.in_use);
        in_blank =
            Chain-twice h2 mem v w (some p) (block p (suc n) ++ free)
              (append-All (λ b. mem ≢ b) (block p (suc n)) free (Apart-block p (suc n) mem out) nf)
              (laid-Chain n p h sl.blank free of holds.in_blank);
        in_memlist = (
          refl,
          rw (update_same (set_data h2 mem (some p)) mem w) (
              Chain-twice h2 mem v w sl.memlist mems nm (
                Chain-kept h h2 sl.memlist mems
                  (kept-next h h2 mems (laid-kept n p h sl.blank mems om)) holds.in_memlist)),
        );
        distinct = Distinct-expand p (suc n) mem used free mems out outs new holds.distinct;
        ends = holds.ends;
        counted = holds.counted;
        room =
            omega (arith, holds.room, length-append (block p (suc n)) free, length-block p (suc n));
      },
      contents_twice h2 mem v w used nu
          ∙ contents_same h h2 used (kept-data_ptr h h2 used same_used),
    )
