-- ===== src/Memory/Free/Resized.antt =====
-- `dc_realloc` of src/server/dc_mm1.c: it copies a chunk of the old size, whatever the new one is.
use dnscache.Common.{
  ℕ, zero, suc, ◌+◌, ◌-◌, ◌^◌, ◌≤◌, ◌<◌, ◌≡◌, ◌≢◌, refl, sym, ap, ◌∙◌, false, some, none, Option,
  inl, inr, List, ◌∷◌, ◌++◌, length, update, arith, append_assoc, ◌==◌, take, drop, take_all,
  take-append_at, ℕ_discrete,
}
use native.Mathlib.Nat.{pow-le-pow_right}
use dnscache.Common.Bytes.{poke, poke_over, poke_overflow}
use dnscache.Slist.{Pointer, Heap}
use dnscache.Slist.Chains.{update_same, update_other}
use dnscache.Memory.SizeClass.{biggest_cap, pow2, cap_of}
use dnscache.Memory.Chunks.{Memory}
use dnscache.Memory.Alloc.{dc_alloc}
use dnscache.Memory.Free.{dc_free, dc_realloc, copy_chunk}
use dnscache.Memory.Blocks.{Spaced}
use dnscache.Memory.Views.{View, out, chunks, Inserted, Valid}
use dnscache.Memory.Alloc.Granted.{Inserted-Marked, dc_alloc_lem}
use dnscache.Memory.Free.Freed.{append_parts}
use dnscache.Memory.Free.Regained.{dc_free_lem}

-- A chunk that a caller has stays with the caller when another one is given out.
Inserted-kept :
    (a b : ℕ) (xs ys l r : List ℕ)
    → xs ≡ l ++ a ∷ r
    → Inserted b xs ys
    → (l' : List ℕ) × (r' : List ℕ) × (ys ≡ l' ++ a ∷ r')
Inserted-kept a b xs ys l r e (p, q, before, after) =
    elim (append_parts p q l a r (sym before ∙ e)) [
      | inl (k, front, _) ↦
          (l, k ++ b ∷ q, after ∙ (ap (λ x. x ++ b ∷ q) front ∙ append_assoc l (a ∷ k) (b ∷ q)))
      | inr (k, back, _) ↦ (
        p ++ b ∷ k,
        r,
        after ∙ (ap (λ x. p ++ b ∷ x) back ∙ sym (append_assoc p (b ∷ k) (a ∷ r))),
      )
    ]

-- What `dc_realloc` comes to: a chunk `b` of the capacity `new_cap` that the caller now has in place of
-- `a`, with the bytes of `a` at its start, and no change to other chunks.
abbrev pub Realloced :
    (malloc : ℕ → ℕ)
    → (run : (rounds : ℕ) → Option (Pointer × Memory × (ℕ → List ℕ))) → (views : ℕ → View)
    → (cap a new_cap : ℕ) → (bytes : ℕ → List ℕ) → Type 0
Realloced malloc run views cap a new_cap bytes =
    (n : ℕ) × (b : ℕ) × (m : Memory) × (v : View) × (w : View) × (bytes' : ℕ → List ℕ)
    × ((rounds : ℕ) → n < rounds → run rounds ≡ some (some (suc b), m, bytes'))
    × Inserted b (out (views new_cap)) (out v)
    × Inserted a (out w) (out (update views new_cap v cap))
    × Valid malloc m (update (update views new_cap v) cap w)
    × (take (pow2 cap) (bytes' (suc b)) ≡ bytes (suc a))
    × ((ptr : ℕ) → ptr ≢ suc b → bytes' ptr ≡ bytes ptr)

module _ (malloc : ℕ → ℕ) (garbage : Heap) where
  dc_realloc_run :
      (again rounds ptr new_ptr size : ℕ) (m m1 m2 : Memory) (bytes bytes' : ℕ → List ℕ)
      → (size == 0) ≡ false
      → dc_alloc malloc garbage again size m ≡ some (some new_ptr, m1)
      → copy_chunk bytes new_ptr ptr (m.capacity_word (ptr - 1)) ≡ some bytes'
      → dc_free rounds (some ptr) m1 ≡ some m2
      → dc_realloc malloc garbage again rounds (some ptr) size m bytes
        ≡ some (some new_ptr, m2, bytes')
  unfolding dc_realloc
  dc_realloc_run again rounds ptr new_ptr size m m1 m2 bytes bytes' sized taken copied back =
      rw (dc_realloc, sized, taken, copied, back) refl

  dc_realloc_fault :
      (again rounds ptr new_ptr size : ℕ) (m m1 : Memory) (bytes : ℕ → List ℕ)
      → (size == 0) ≡ false
      → dc_alloc malloc garbage again size m ≡ some (some new_ptr, m1)
      → copy_chunk bytes new_ptr ptr (m.capacity_word (ptr - 1)) ≡ none
      → dc_realloc malloc garbage again rounds (some ptr) size m bytes ≡ none
  unfolding dc_realloc
  dc_realloc_fault again rounds ptr new_ptr size m m1 bytes sized taken copied =
      rw (dc_realloc, sized, taken, copied) refl

  dc_realloc_zero :
      (rounds ptr size : ℕ) (m : Memory) (bytes : ℕ → List ℕ)
      → (size == 0) ≡ false
      → dc_realloc malloc garbage 0 rounds (some ptr) size m bytes ≡ none
  unfolding dc_realloc dc_alloc
  dc_realloc_zero rounds ptr size m bytes sized = rw (dc_realloc, sized) refl

  module _ (spaced : Spaced malloc) (m : Memory) (views : ℕ → View) (cap a size : ℕ) (l r : List ℕ)
      (bytes : ℕ → List ℕ) (low_cap : 1 ≤ cap) (high_cap : cap ≤ biggest_cap)
      (valid : Valid malloc m views) (whole : out (views cap) ≡ l ++ a ∷ r) (low : 2 ≤ size)
      (high : size ≤ 2 ^ 30) (few : length (chunks (views (cap_of size))) + 2 < 2 ^ 16)
      (old_bytes : length (bytes (suc a)) ≡ pow2 cap)
      (new_bytes : (again b : ℕ) (m' : Memory)
        → dc_alloc malloc garbage again size m ≡ some (some (suc b), m')
        → length (bytes (suc b)) ≡ pow2 (cap_of size)) where
    read : m.capacity_word (suc a - 1) ≡ cap
    read =
        let back : suc a - 1 ≡ a = omega arith in
        rw (back)
          (Inserted-Marked malloc m cap a (l ++ r) (views cap) (valid cap low_cap high_cap)
            (l, r, refl, whole)).1

    copied : take (pow2 cap) (bytes (suc a)) ≡ bytes (suc a)
    copied = take_all (pow2 cap) (bytes (suc a)) (omega (arith, old_bytes))

    -- `dc_realloc` of a chunk that a caller has to a size whose capacity is as large or larger ends, given
    -- rounds enough. The caller gets a chunk in its place that starts with all bytes of the old one; other
    -- chunks and what callers have are as before. A chunk has as many bytes as its capacity says, and the
    -- conditions of `dc_alloc` hold.
    pub dc_realloc_lem :
        cap ≤ cap_of size
        → (again : ℕ)
        → Realloced malloc
            (λ rounds. dc_realloc malloc garbage (suc again) rounds (some (suc a)) size m bytes)
            views
            cap
            a
            (cap_of size)
            bytes
    dc_realloc_lem wider again =
        let sized : (size == 0) ≡ false = ground arith in
        let (b, m1, v, taken, _, _, ins, _, valid1, _) =
          dc_alloc_lem malloc garbage again size m views spaced low high few valid in
        let (l', r', whole1) = still v b ins in
        let (n, m2, w, frees, left, valid2, _) =
          dc_free_lem malloc m1 cap a (update views (cap_of size) v) l' r' low_cap high_cap valid1
            whole1 in
        let old = bytes (suc a) in
        let new = old ++ drop (length old) (bytes (suc b)) in
        let fits : length old ≤ length (bytes (suc b)) = omega (
          arith,
          old_bytes,
          new_bytes (suc again) b m1 taken,
          pow-le-pow_right {n = 2} (omega arith) {i = cap} {j = cap_of size} wider,
        ) in
        let copy : copy_chunk bytes (suc b) (suc a) (m.capacity_word (suc a - 1))
            ≡ some (update bytes (suc b) new) =
          rw (read, copied, poke_over (bytes (suc b)) old fits) refl in
        (
          n,
          b,
          m2,
          v,
          w,
          update bytes (suc b) new,
          λ rounds enough.
              dc_realloc_run (suc again) rounds (suc a) (suc b) size m m1 m2 bytes
                (update bytes (suc b) new) sized taken copy (frees rounds enough),
          ins,
          (l', r', left, whole1),
          valid2,
          ap (take (pow2 cap)) (update_same bytes (suc b) new)
              ∙ take-append_at (pow2 cap) old (drop (length old) (bytes (suc b))) old_bytes,
          λ ptr ne. update_other bytes (suc b) ptr new ne,
        )
      where
        still :
            (v : View) (b : ℕ)
            → Inserted b (out (views (cap_of size))) (out v)
            → (l' : List ℕ) × (r' : List ℕ) × (out (update views (cap_of size) v cap)
                ≡ l' ++ a ∷ r')
        still v b ins = elim (ℕ_discrete cap (cap_of size)) [
          | yes e ↦
              let (l', r', s) =
                Inserted-kept a b (out (views (cap_of size))) (out v) l r
                  (ap (λ c. out (views c)) (sym e) ∙ whole) ins in
              (
                l',
                r',
                ap (λ c. out (update views (cap_of size) v c)) e
                    ∙ (ap out (update_same views (cap_of size) v) ∙ s),
              )
          | no ne ↦ (l, r, ap out (update_other views (cap_of size) cap v ne) ∙ whole)
        ]

    -- `dc_realloc` of a chunk that a caller has to a size whose capacity is smaller writes past the end of
    -- the new chunk, so it gives no result whatever the rounds. A chunk has as many bytes as its capacity
    -- says, and the conditions of `dc_alloc` hold.
    pub dc_realloc_overflow :
        pow2 (cap_of size) < pow2 cap
        → (again rounds : ℕ)
        → dc_realloc malloc garbage again rounds (some (suc a)) size m bytes ≡ none
    dc_realloc_overflow narrower zero rounds =
        dc_realloc_zero rounds (suc a) size m bytes (ground arith)
    dc_realloc_overflow narrower (suc again) rounds =
        let (b, m1, v, taken, _, _, _, _, _, _) =
          dc_alloc_lem malloc garbage again size m views spaced low high few valid in
        let past : poke (bytes (suc b)) 0 (bytes (suc a)) ≡ none =
          poke_overflow (bytes (suc b)) 0 (bytes (suc a))
            (omega (arith, old_bytes, new_bytes (suc again) b m1 taken, narrower)) in
        dc_realloc_fault (suc again) rounds (suc a) (suc b) size m m1 bytes (ground arith) taken
          (rw (read, copied, past) refl)
