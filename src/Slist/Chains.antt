-- ===== src/Slist/Chains.antt =====
-- Chains of nodes in memory, and the lists that they hold.
use dnscache.Common.{
  ℕ, ◌+◌, ◌≡◌, ◌≢◌, refl, sym, ap, none, some, List, [], ◌∷◌, ◌++◌, length, All, map, update, ne→==,
  ==_refl,
}
use dnscache.Slist.{Pointer, SlNode, Heap, Slist}

-- The nodes from `p` on, up to NULL.
abbrev pub Chain : Heap → Pointer → List ℕ → Type 0
Chain h p [] = p ≡ none
Chain h p (a ∷ xs) = (p ≡ some a) × Chain h (h a).next xs

abbrev pub NotIn : ℕ → List ℕ → Type 0
NotIn a = All (λ b. a ≢ b)

abbrev pub Distinct : List ℕ → Type 0
Distinct [] = Unit
Distinct (a ∷ xs) = NotIn a xs × Distinct xs

abbrev pub contents : Heap → List ℕ → List Pointer
contents h = map (λ a. (h a).data_ptr)

abbrev pub last_of : List ℕ → Pointer
last_of [] = none
last_of (a ∷ []) = some a
last_of (a ∷ b ∷ xs) = last_of (b ∷ xs)

-- The nodes in use, the blank ones and those of `memlist`, all different.
pub record Holds (sl : Slist) (used free mems : List ℕ) : Type 0 where
  pub in_use : Chain sl.heap sl.head used
  pub in_blank : Chain sl.heap sl.blank free
  pub in_memlist : Chain sl.heap sl.memlist mems
  pub distinct : Distinct (used ++ (free ++ mems))
  pub ends : sl.end_ptr ≡ last_of used
  pub counted : sl.length ≡ length used
  pub room : sl.capacity ≡ length used + length free

pub update_same {ℓ} : {A : Type ℓ} (f : ℕ → A) (i : ℕ) (v : A) → update f i v i ≡ v
update_same f i v = rw (==_refl i) refl

pub update_other {ℓ} : {A : Type ℓ} (f : ℕ → A) (i j : ℕ) (v : A) → j ≢ i → update f i v j ≡ f j
update_other f i j v ne = rw (ne→== j i ne) refl

-- A chain stands on the `next` of its nodes alone, and its contents on their data.
pub Chain-kept :
    (h h' : Heap) (p : Pointer) (xs : List ℕ)
    → All (λ b. (h' b).next ≡ (h b).next) xs
    → Chain h p xs
    → Chain h' p xs
Chain-kept h h' p [] e c = c
Chain-kept h h' p (a ∷ xs) e c = (c.0, Chain-kept h h' (h' a).next xs e.1 (rw (e.0) c.1))

pub Chain-other :
    (h : Heap) (a : ℕ) (v : SlNode) (p : Pointer) (xs : List ℕ)
    → NotIn a xs
    → Chain h p xs
    → Chain (update h a v) p xs
Chain-other h a v p [] n c = c
Chain-other h a v p (b ∷ xs) n c =
    (c.0, rw (update_other h a b v (λ e. n.0 (sym e))) (Chain-other h a v (h b).next xs n.1 c.1))

pub contents_other :
    (h : Heap) (a : ℕ) (v : SlNode) (xs : List ℕ)
    → NotIn a xs
    → contents (update h a v) xs ≡ contents h xs
contents_other h a v [] n = refl
contents_other h a v (b ∷ xs) n =
    rw (update_other h a b v (λ e. n.0 (sym e)), contents_other h a v xs n.1) refl

pub All-append {ℓ κ} :
    {A : Type ℓ} (P : A → Type κ) (xs ys : List A) → All P (xs ++ ys) → All P xs × All P ys
All-append P [] ys a = (tt, a)
All-append P (x ∷ xs) ys a = let (l, r) = All-append P xs ys a.1 in ((a.0, l), r)

pub append-All {ℓ κ} :
    {A : Type ℓ} (P : A → Type κ) (xs ys : List A) → All P xs → All P ys → All P (xs ++ ys)
append-All P [] ys a b = b
append-All P (x ∷ xs) ys a b = (a.0, append-All P xs ys a.1 b)

pub NotIn-sym : (a : ℕ) (xs : List ℕ) → All (λ b. b ≢ a) xs → NotIn a xs
NotIn-sym a [] n = n
NotIn-sym a (b ∷ xs) n = ((λ e. n.0 (sym e)), NotIn-sym a xs n.1)

-- A node in the middle differs from those on both sides.
pub Distinct-middle :
    (xs : List ℕ) (a : ℕ) (ys : List ℕ)
    → Distinct (xs ++ a ∷ ys)
    → NotIn a (xs ++ ys) × Distinct (xs ++ ys)
Distinct-middle [] a ys d = d
Distinct-middle (x ∷ xs) a ys d =
    let (n, d') = Distinct-middle xs a ys d.1 in
    let (l, r) = All-append (λ b. x ≢ b) xs (a ∷ ys) d.0 in
    (((λ e. r.0 (sym e)), n), (append-All (λ b. x ≢ b) xs ys l r.1, d'))

pub Distinct-insert :
    (xs : List ℕ) (a : ℕ) (ys : List ℕ)
    → NotIn a (xs ++ ys)
    → Distinct (xs ++ ys)
    → Distinct (xs ++ a ∷ ys)
Distinct-insert [] a ys n d = (n, d)
Distinct-insert (x ∷ xs) a ys n d =
    let (l, r) = All-append (λ b. x ≢ b) xs ys d.0 in
    (append-All (λ b. x ≢ b) xs (a ∷ ys) l ((λ e. n.0 (sym e)), r), Distinct-insert xs a ys n.1 d.1)

-- The last node of a list in use.
pub last_cases :
    (a : ℕ) (xs : List ℕ)
    → (init : List ℕ) × (last : ℕ) × (a ∷ xs ≡ init ++ last ∷ []) × (last_of (a ∷ xs) ≡ some last)
last_cases a [] = ([], a, refl, refl)
last_cases a (b ∷ xs) =
    let (init, last, e, l) = last_cases b xs in (a ∷ init, last, ap (λ ys. a ∷ ys) e, l)

pub last_of-append : (xs : List ℕ) (a : ℕ) → last_of (xs ++ a ∷ []) ≡ some a
last_of-append [] a = refl
last_of-append (x ∷ []) a = refl
last_of-append (x ∷ y ∷ xs) a = last_of-append (y ∷ xs) a
