-- ===== src/Memory/Free/Freed.antt =====
-- What `dc_free` of src/server/dc_mm1.c does with a chunk that a caller has.
use dnscache.Common.{
  ℕ, suc, ◌-◌, ◌<◌, ◌≡◌, ◌≢◌, refl, sym, ap, ◌∙◌, true, false, some, none, Option, inl, inr, ◌⊎◌,
  List, [], ◌∷◌, ◌++◌, map, arith, append_assoc, ◌==◌, Bool-cases, ne→==, ==_refl,
}
use mathlib.Core.Path.{subst}
use dnscache.Slist.{find}
use dnscache.Slist.Chains.{NotIn}
use dnscache.Slist.Walks.{among}
use dnscache.Memory.Chunks.{small, ExtraListManager, Memory}
use dnscache.Memory.Alloc.{is_extra, lock_extra}
use dnscache.Memory.Free.{free_extra, free_pre_alloced, dc_free}
use dnscache.Memory.Views.{View, out, Marked, HasClass, Frame}
use dnscache.Memory.Frames.{Good, Good-first}

-- The branches of `dc_free`.
module _ (rounds ptr : ℕ) (m : Memory) where
  abbrev pub freed_word : ℕ
  freed_word = ptr - 1

  abbrev pub freed_cap : ℕ
  freed_cap = m.capacity_word freed_word

  abbrev pub freed_search : Option ℕ
  freed_search =
      let sl = (m.chunks_manager_table (freed_cap - small)).alloced_chunks in
      find (suc sl.length) (some freed_word) sl

  pub dc_free_extra :
      (e : ExtraListManager)
      → is_extra freed_cap ≡ true
      → lock_extra freed_cap m ≡ some m
      → m.elm_table freed_cap ≡ some e
      → dc_free rounds (some ptr) m ≡ free_extra rounds freed_word freed_cap e m
  unfolding dc_free
  dc_free_extra e extra lock is = rw (dc_free, extra, is, lock) refl

  pub dc_free_own_extra :
      (e : ExtraListManager)
      → is_extra freed_cap ≡ false
      → freed_search ≡ some 0
      → lock_extra freed_cap m ≡ some m
      → m.elm_table freed_cap ≡ some e
      → dc_free rounds (some ptr) m ≡ free_extra rounds freed_word freed_cap e m
  unfolding dc_free
  dc_free_own_extra e own missing lock is = rw (dc_free, own, missing, lock, is) refl

  pub dc_free_own :
      is_extra freed_cap ≡ false
      → freed_search ≡ some 1
      → dc_free rounds (some ptr) m ≡ free_pre_alloced freed_word (freed_cap - small) m
  unfolding dc_free
  dc_free_own own found = rw (dc_free, own, found) refl

pub among_yes : (a : ℕ) (l r : List ℕ) → among (some a) (map some (l ++ a ∷ r)) ≡ true
among_yes a [] r = let e = ==_refl a in ground arith
among_yes a (b ∷ l) r =
    let rest = among_yes a l r in
    elim (Bool-cases (b == a)) [ inl z ↦ rw (z) refl | inr z ↦ rw (z) rest ]

pub among_no : (a : ℕ) (xs : List ℕ) → NotIn a xs → among (some a) (map some xs) ≡ false
among_no a [] n = refl
among_no a (b ∷ xs) n = rw (ne→== b a (λ e. n.0 (sym e))) (among_no a xs n.1)

-- An element of two lists in a row is in the first or in the second.
pub append_parts :
    (xs ys l : List ℕ) (a : ℕ) (r : List ℕ)
    → xs ++ ys ≡ l ++ a ∷ r
    → ((k : List ℕ) × (xs ≡ l ++ a ∷ k) × (r ≡ k ++ ys))
      ⊎ ((k : List ℕ) × (ys ≡ k ++ a ∷ r) × (l ≡ xs ++ k))
append_parts [] ys l a r e = inr (l, e, refl)
append_parts (x ∷ xs) ys [] a r e = inl (xs, cc, cc)
append_parts (x ∷ xs) ys (y ∷ l) a r e = elim (append_parts xs ys l a r cc) [
  | inl (k, s, t) ↦ inl (k, cc, t)
  | inr (k, s, t) ↦ inr (k, s, cc)
]

pub nonempty : (xs : List ℕ) (a : ℕ) (ys : List ℕ) → xs ++ a ∷ ys ≢ []
nonempty [] a ys e = absurd cc
nonempty (x ∷ xs) a ys e = absurd cc

pub Good-drop : (P : ℕ → Type 0) (xs ys zs : List ℕ) → Good P (xs ++ (ys ++ zs)) → Good P (xs ++ zs)
Good-drop P xs [] zs g = g
Good-drop P xs (y ∷ ys) zs g =
    let (all, d) = Good-first P xs y (ys ++ zs) g in Good-drop P xs ys zs (all.1, d.1)

-- `a` is the first idle chunk of the class's own table or of its extra list, or the extra list is
-- gone.
abbrev pub IsBack : Memory → (cap a : ℕ) → (old new : View) → Type 0
IsBack m cap a old new =
    ((new.pre_idle ≡ a ∷ old.pre_idle) × (new.extra_idle ≡ old.extra_idle))
    ⊎ (((new.pre_idle ≡ old.pre_idle) × (new.extra_idle ≡ a ∷ old.extra_idle))
        ⊎ ((new.pre_idle ≡ old.pre_idle) × (m.elm_table cap ≡ none)))

module _ (malloc : ℕ → ℕ) where
  -- `a` goes from the callers' chunks `l ++ a ∷ r` back to the idle ones.
  abbrev pub Back :
      (run : (rounds : ℕ) → Option Memory) → Memory → (cap a : ℕ) → View → (l r : List ℕ) → Type 0
  Back run m cap a old l r =
      (n : ℕ) × (m' : Memory) × (v : View) × ((rounds : ℕ) → n < rounds → run rounds ≡ some m')
      × HasClass malloc m' cap v
      × (out v ≡ l ++ r)
      × Frame malloc m m' cap
      × IsBack m' cap a old v

  -- The chunks without `a`, and `a` before them.
  pub Good-out :
      (m : Memory) (cap a : ℕ) (v : View) (l r : List ℕ)
      → HasClass malloc m cap v
      → out v ≡ l ++ a ∷ r
      → Good (Marked malloc m cap) (a ∷ ((v.pre_idle ++ v.extra_idle) ++ (l ++ r)))
  Good-out m cap a v l r has e =
      let idle = v.pre_idle ++ v.extra_idle in
      subst (λ xs. Good (Marked malloc m cap) (a ∷ xs)) (append_assoc idle l r)
        (Good-first (Marked malloc m cap) (idle ++ l) a r (
          subst (Good (Marked malloc m cap))
            (ap (λ o. idle ++ o) e ∙ sym (append_assoc idle l (a ∷ r))) (has.marked, has.distinct)))
