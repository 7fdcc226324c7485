-- ===== src/Memory/SizeClass.antt =====
-- `first_bit`, LOG2, POW2 and the choice of a capacity in `dc_alloc` of src/server/dc_mm1.c.
use native.Mathlib.Nat.{
  pow-suc, add-suc, mul_assoc, lt_of_mul-lt-mul_right, le_of_mul-le-mul_right, pow-le-pow_right,
}
use dnscache.Common.{
  ℕ, zero, suc, ◌+◌, ◌-◌, ◌*◌, ◌/◌, ◌%◌, ◌^◌, ◌≤◌, ◌<◌, ◌≡◌, refl, ap, ◌∙◌, true, false, inl, inr,
  ltb, ◌==◌, if◌then◌else◌, Bool-cases, arith, dec_lt,
}

-- `n` and `c` of `first_bit`.
pub record Shifted : Type 0 where
  pub n : ℕ
  pub c : ℕ

-- `if (!(n & mask)) { c -= w; n <<= w; }`, where the mask has the bits of value `low` and above, and
-- `n` is a `uint32`.
abbrev pub shift_if : (low w : ℕ) → Shifted → Shifted
shift_if low w x = if x.n / low == 0 then record { n = (x.n * 2 ^ w) % 2 ^ 32; c = x.c - w } else x

unfoldable pub first_bit : ℕ → ℕ
first_bit n =
    if n == 0
    then 0
    else (let x = shift_if (2 ^ 30) 2 (
          shift_if (2 ^ 28) 4
            (shift_if (2 ^ 24) 8 (shift_if (2 ^ 16) 16 (record { n = n; c = 32 })))) in
        if x.n / 2 ^ 31 == 0 then x.c - 1 else x.c)

-- BIGGEST_CAP.
abbrev pub biggest_cap : ℕ
biggest_cap = 30

-- LOG2 of a `uint64`, which the parameter of `first_bit` cuts.
abbrev pub log2 : ℕ → ℕ
log2 x = (first_bit (x % 2 ^ 32) + 2 ^ 32 - 1) % 2 ^ 32

abbrev pub pow2 : ℕ → ℕ
pow2 x = 2 ^ x

-- `cap` in `dc_alloc`, for a size above 0.
unfoldable pub cap_of : ℕ → ℕ
unfolding first_bit
cap_of size = let cap = log2 size in if ltb (pow2 cap) size then cap + 1 else cap

pow_add : (a s w : ℕ) → a * 2 ^ s * 2 ^ w ≡ a * 2 ^ (s + w)
pow_add a s zero = let none_more : s + 0 ≡ s = omega arith in rw none_more (omega arith)
pow_add a s (suc w) =
    rw
      (
        pow-suc 2 w,
        add-suc s w,
        pow-suc 2 (s + w),
        ← mul_assoc (a * 2 ^ s) (2 ^ w) 2,
        pow_add a s w,
      )
      (mul_assoc a (2 ^ (s + w)) 2)

-- `n` is `n0` shifted by what `c` lacks to 32, and at least `low`; `c` is at least `floor`.
Inv : (n0 low floor : ℕ) → Shifted → Type 0
Inv n0 low floor x =
    (s : ℕ) × (x.n ≡ n0 * 2 ^ s) × (x.c + s ≡ 32) × (x.n < 2 ^ 32) × (low ≤ x.n) × (floor ≤ x.c)

shifted :
    (n n0 s w : ℕ) → n ≡ n0 * 2 ^ s → n * 2 ^ w < 2 ^ 32 → (n * 2 ^ w) % 2 ^ 32 ≡ n0 * 2 ^ (s + w)
shifted n n0 s w e small =
    let whole : (n * 2 ^ w) % 2 ^ 32 ≡ n * 2 ^ w = omega (arith, small) in
    whole ∙ (ap (λ k. k * 2 ^ w) e ∙ pow_add n0 s w)

shift_if-Inv :
    (n0 low' low w floor' floor : ℕ) (x : Shifted)
    → ((x.n / low' == 0) ≡ true → low ≤ x.n → (x.n * 2 ^ w < 2 ^ 32) × (low' ≤ x.n * 2 ^ w))
    → ((x.n / low' == 0) ≡ false → low' ≤ x.n)
    → w + floor' ≤ floor
    → Inv n0 low floor x
    → Inv n0 low' floor' (shift_if low' w x)
unfolding Inv
shift_if-Inv n0 low' low w floor' floor x short long drop (s, e, total, small, least, above) =
    elim (Bool-cases (x.n / low' == 0)) [
      | inl z ↦
          let (fits, high) = short z least in
          let same : (x.n * 2 ^ w) % 2 ^ 32 ≡ x.n * 2 ^ w = omega (arith, fits) in
          rw (z) (
            s + w,
            shifted x.n n0 s w e fits,
            omega arith,
            omega (arith, same, fits),
            omega (arith, same, high),
            omega arith,
          )
      | inr z ↦ rw (z) (s, e, total, small, long z, omega arith)
    ]

-- The state before the last test.
shifts-Inv :
    (n : ℕ)
    → 0 < n
    → n < 2 ^ 32
    → Inv n (2 ^ 30) 2 (
        shift_if (2 ^ 30) 2 (
          shift_if
            (2 ^ 28)
            4
            (shift_if (2 ^ 24) 8 (shift_if (2 ^ 16) 16 (record { n = n; c = 32 })))))
unfolding Inv
shifts-Inv n pos small =
    let x0 : Shifted = record { n = n; c = 32 } in
    let x1 = shift_if (2 ^ 16) 16 x0 in
    let x2 = shift_if (2 ^ 24) 8 x1 in
    let x3 = shift_if (2 ^ 28) 4 x2 in
    shift_if-Inv n (2 ^ 30) (2 ^ 28) 2 2 4 x3 (λ z l. ground arith) (λ z. ground arith)
      (omega arith)
      (shift_if-Inv n (2 ^ 28) (2 ^ 24) 4 4 8 x2 (λ z l. ground arith) (λ z. ground arith)
        (omega arith)
        (shift_if-Inv n (2 ^ 24) (2 ^ 16) 8 8 16 x1 (λ z l. ground arith) (λ z. ground arith)
          (omega arith)
          (shift_if-Inv n (2 ^ 16) 1 16 16 32 x0 (λ z l. ground arith) (λ z. ground arith)
            (omega arith) (0, omega arith, refl, small, pos, omega arith))))

pow_sum : (k s : ℕ) → 2 ^ k * 2 ^ s ≡ 2 ^ (k + s)
pow_sum k s = omega (arith, pow_add 1 k s)

pow_pos : (s : ℕ) → 0 < 2 ^ s
pow_pos zero = omega arith
pow_pos (suc s) = omega (arith, pow-suc 2 s, pow_pos s)

-- If `n` shifted by `s` has its first bit at `t`, then `n` has it at `t - s`.
bracket :
    (n k s t m : ℕ)
    → m ≡ n * 2 ^ s
    → k + s ≡ t
    → 2 ^ t ≤ m
    → m < 2 ^ suc t
    → (2 ^ k ≤ n) × (n < 2 ^ suc k)
bracket n k s t m e sum low high =
    let below = pow_sum k s in
    let above = pow_sum (suc k) s in
    let top : suc k + s ≡ suc t = omega arith in
    (
      le_of_mul-le-mul_right {k = 2 ^ s} (rw (below, sum, ← e) low) (pow_pos s),
      lt_of_mul-lt-mul_right (2 ^ s) (rw (above, top, ← e) high),
    )

-- `first_bit` gives the place of the first bit, counted from 1.
pub first_bit_lem :
    (n : ℕ)
    → 0 < n
    → n < 2 ^ 32
    → (k : ℕ) × (first_bit n ≡ suc k) × (2 ^ k ≤ n) × (n < 2 ^ suc k) × (k < 32)
unfolding first_bit Inv
first_bit_lem n pos small =
    let (s, e, total, fits, least, above) = shifts-Inv n pos small in
    let x = shift_if (2 ^ 30) 2 (
      shift_if (2 ^ 28) 4
        (shift_if (2 ^ 24) 8 (shift_if (2 ^ 16) 16 (record { n = n; c = 32 })))) in
    let sized : (n == 0) ≡ false = ground arith in
    elim (Bool-cases (x.n / 2 ^ 31 == 0)) [
      | inl z ↦
          let (l, h) = bracket n (x.c - 2) s 30 x.n e (omega arith) least (ground arith) in
          (x.c - 2, rw (first_bit, sized, z) (omega arith), l, h, omega arith)
      | inr z ↦
          let (l, h) = bracket n (x.c - 1) s 31 x.n e (omega arith) (ground arith) fits in
          (x.c - 1, rw (first_bit, sized, z) (omega arith), l, h, omega arith)
    ]

pub exponent_lt : (k t : ℕ) → 2 ^ k < 2 ^ t → k < t
exponent_lt k t l = elim (dec_lt k t) [
  | yes less ↦ less
  | no more ↦
      absurd
        (omega (arith, l, pow-le-pow_right {n = 2} (omega arith) {i = t} {j = k} (omega arith)))
]

-- The capacity that `dc_alloc` chooses for a size of up to 2^30 bytes holds it, is less than twice
-- as large, and is one of those that `elm_table` has.
pub cap_of_lem :
    (size : ℕ)
    → 0 < size
    → size ≤ 2 ^ 30
    → (size ≤ pow2 (cap_of size)) × (pow2 (cap_of size) < 2 * size) × (cap_of size ≤ biggest_cap)
unfolding cap_of
cap_of_lem size pos small =
    let (k, bit, low, high, k_small) = first_bit_lem size pos (omega arith) in
    let whole : size % 2 ^ 32 ≡ size = omega arith in
    let wrapped : (suc k + 2 ^ 32 - 1) % 2 ^ 32 ≡ k = omega arith in
    let log : log2 size ≡ k = rw (whole, bit) wrapped in
    elim (Bool-cases (ltb (2 ^ k) size)) [
      | inl z ↦
          let less : 2 ^ k < size = ground arith in
          let next : k + 1 ≡ suc k = omega arith in
          rw (cap_of, log, z, next)
            (omega arith, omega (arith, pow-suc 2 k), exponent_lt k 30 (omega (arith, less)))
      | inr z ↦
          let same : size ≤ 2 ^ k = ground arith in
          let k_at_most : k < 31 = exponent_lt k 31 (omega (arith, low)) in
          rw (cap_of, log, z) (same, omega arith, omega arith)
    ]
