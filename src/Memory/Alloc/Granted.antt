-- ===== src/Memory/Alloc/Granted.antt =====
-- What `dc_alloc` of src/server/dc_mm1.c promises: chunks that no two callers have.
use dnscache.Common.{
  ℕ, suc, ◌+◌, ◌^◌, ◌≤◌, ◌<◌, ◌≡◌, ◌≢◌, sym, ap, ◌∙◌, false, some, List, [], ◌∷◌, ◌++◌, length, All,
  update, arith, length-append, ◌==◌, ℕ_discrete,
}
use mathlib.Core.Path.{subst}
use dnscache.Slist.{Heap}
use dnscache.Slist.Chains.{Distinct, NotIn, update_same, update_other, All-append, Distinct-middle}
use dnscache.Slist.Views.{All-weaker}
use dnscache.Memory.SizeClass.{biggest_cap, pow2, cap_of, cap_of_lem, exponent_lt}
use dnscache.Memory.Chunks.{Memory}
use dnscache.Memory.Alloc.{Result, dc_alloc}
use dnscache.Memory.Blocks.{Spaced}
use dnscache.Memory.Views.{View, out, chunks, Inserted, Marked, HasClass, Valid}
use dnscache.Memory.Frames.{Valid_updated}
use dnscache.Memory.Alloc.Given.{dc_alloc-Taken}

-- A size from 2 to 2^30 has a capacity that the tables have.
pub cap_of_bounds :
    (size : ℕ) → 2 ≤ size → size ≤ 2 ^ 30 → (1 ≤ cap_of size) × (cap_of size ≤ biggest_cap)
cap_of_bounds size low high =
    let (fits, _, small_cap) = cap_of_lem size (omega arith) high in
    (exponent_lt 0 (cap_of size) (omega (arith, fits)), small_cap)

Distinct-end : (xs ys : List ℕ) → Distinct (xs ++ ys) → Distinct ys
Distinct-end [] ys d = d
Distinct-end (x ∷ xs) ys d = Distinct-end xs ys d.1

extra_fewer : (v : View) → length (v.extra_idle ++ v.extra_out) ≤ length (chunks v)
extra_fewer v = omega (
  arith,
  length-append v.extra_idle v.extra_out,
  length-append (v.pre_idle ++ v.extra_idle) (out v),
  length-append v.pre_idle v.extra_idle,
  length-append v.pre_out v.extra_out,
)

module _ (malloc : ℕ → ℕ) where
  pub Inserted-Marked :
      (m : Memory) (cap a : ℕ) (xs : List ℕ) (v : View)
      → HasClass malloc m cap v
      → Inserted a xs (out v)
      → Marked malloc m cap a
  Inserted-Marked m cap a xs v has (l, r, before, after) =
      (All-append (Marked malloc m cap) l (a ∷ r) (
        subst (All (Marked malloc m cap)) after
          (All-append (Marked malloc m cap) (v.pre_idle ++ v.extra_idle) (out v) has.marked).1)).1.0

  -- A chunk that the caller has now is none that another one has.
  Inserted-NotIn :
      (m : Memory) (cap a : ℕ) (views : ℕ → View) (v : View)
      → 1 ≤ cap
      → cap ≤ biggest_cap
      → Inserted a (out (views cap)) (out v)
      → Valid malloc m (update views cap v)
      → (c : ℕ) → 1 ≤ c
      → c ≤ biggest_cap
      → NotIn a (out (views c))
  Inserted-NotIn m cap a views v low high (l, r, before, after) valid c c_low c_high =
      let has : HasClass malloc m cap v =
        subst (HasClass malloc m cap) (update_same views cap v) (valid cap low high) in
      elim (ℕ_discrete c cap) [
        | yes e ↦
            let d =
              Distinct-end (v.pre_idle ++ v.extra_idle) (l ++ a ∷ r)
                (subst (λ o. Distinct ((v.pre_idle ++ v.extra_idle) ++ o)) after has.distinct) in
            subst (λ k. NotIn a (out (views k))) (sym e)
              (subst (NotIn a) (sym before) (Distinct-middle l a r d).0)
        | no ne ↦
            let idle = (views c).pre_idle ++ (views c).extra_idle in
            let mine = Inserted-Marked m cap a (out (views cap)) v has (l, r, before, after) in
            let other : HasClass malloc m c (views c) =
              subst (HasClass malloc m c) (update_other views cap c v ne) (valid c c_low c_high) in
            All-weaker (Marked malloc m c) (λ b. a ≢ b) (out (views c))
              (λ b o e. ne (sym o.1 ∙ (ap m.capacity_word (sym e) ∙ mine.1)))
              (All-append (Marked malloc m c) idle (out (views c)) other.marked).1
      ]

  -- A result that is a chunk of the capacity `cap`, which no caller had before.
  abbrev pub Granted : Result → (size cap : ℕ) → (ℕ → View) → Type 0
  Granted r size cap views =
      (a : ℕ) × (m : Memory) × (v : View) × (r ≡ some (some (suc a), m))
      × (m.capacity_word a ≡ cap)
      × (size ≤ pow2 cap)
      × Inserted a (out (views cap)) (out v)
      × (length (chunks v) ≤ length (chunks (views cap)) + 2)
      × Valid malloc m (update views cap v)
      × ((c : ℕ) → 1 ≤ c → c ≤ biggest_cap → NotIn a (out (views c)))

  -- In a memory whose tables hold their chunks, `dc_alloc` of a size from 2 to 2^30 ends at once and
  -- gives a chunk whose capacity holds the size and that no caller has. The tables hold their chunks
  -- afterwards, at most two chunks more of this capacity and those of others as before, and what
  -- callers had they keep. The count of
  -- the chunks of the capacity is to stay below 2^16. `malloc` gives blocks that do not overlap.
  pub dc_alloc_lem :
      (garbage : Heap) (rounds size : ℕ) (m : Memory) (views : ℕ → View)
      → Spaced malloc
      → 2 ≤ size
      → size ≤ 2 ^ 30
      → length (chunks (views (cap_of size))) + 2 < 2 ^ 16
      → Valid malloc m views
      → Granted (dc_alloc malloc garbage (suc rounds) size m) size (cap_of size) views
  dc_alloc_lem garbage rounds size m views spaced low high few valid =
      let cap = cap_of size in
      let v = views cap in
      let (fits, _, small_cap) = cap_of_lem size (omega arith) high in
      let (pos, _) = cap_of_bounds size low high in
      let has = valid cap pos small_cap in
      let sized : (size == 0) ≡ false = ground arith in
      let (a, m', v', run, has', ins, fewer, f) =
        dc_alloc-Taken malloc spaced garbage rounds size sized small_cap m v
          (omega (arith, few, extra_fewer v)) has in
      let valid' = Valid_updated malloc m m' cap views v' pos f valid has' in
      (
        a,
        m',
        v',
        run,
        (Inserted-Marked m' cap a (out v) v' has' ins).1,
        fits,
        ins,
        fewer,
        valid',
        Inserted-NotIn m' cap a views v' pos small_cap ins valid',
      )
