-- ===== src/TailPool/Kept.antt =====
-- Strings that stand before `next_free` stay readable when another is pushed.
use dnscache.Common.{
  ℕ, zero, suc, ◌+◌, ◌-◌, ◌*◌, ◌^◌, ◌≤◌, ◌<◌, ◌≡◌, refl, sym, ap, ◌∙◌, some, List, [], ◌∷◌, ◌==◌,
  length, take, drop, arith, Bool-cases, Option-cases, inl, inr,
}
use mathlib.Core.Option.{none-ne-some, some-injective}
use dnscache.Common.Bytes.{IsString, c_string, string_at}
use dnscache.TailPool.{TailPool, dt_push_tail, dt_get_tail}
use dnscache.TailPool.Push.{IsValid, dt_push_tail_lem}

take-nil : (n : ℕ) → take {A = ℕ} n [] ≡ []
take-nil zero = refl
take-nil (suc n) = refl

take-drop : (n i : ℕ) (xs : List ℕ) → take n (drop i xs) ≡ drop i (take (i + n) xs)
take-drop n zero xs = let e : 0 + n ≡ n = omega arith in rw e refl
take-drop n (suc i) [] = rw (take-nil n, take-nil (suc i + n)) refl
take-drop n (suc i) (x ∷ xs) =
    let e : suc i + n ≡ suc (i + n) = omega arith in rw e (take-drop n i xs)

abbrev first_of : List ℕ → ℕ
first_of [] = 0
first_of (x ∷ xs) = x

c_string-prefix :
    (m : ℕ) (a b s : List ℕ)
    → take m a ≡ take m b
    → length s < m
    → c_string a ≡ some s
    → c_string b ≡ some s
unfolding c_string
c_string-prefix zero a b s e l h = absurd (omega arith)
c_string-prefix (suc m) [] b s e l h = absurd (none-ne-some s h)
c_string-prefix (suc m) (x ∷ a) [] s e l h = absurd cc
c_string-prefix (suc m) (x ∷ a) (y ∷ b) s e l h =
    let heads : x ≡ y = ap first_of e in
    let tails : take m a ≡ take m b = ap (drop 1) e in
    elim (Bool-cases (x == 0)) [
      | inl z ↦ rw (← heads, z) (rw z at h)
      | inr z ↦ elim (Option-cases (c_string a)) [
        | inl n ↦ absurd (none-ne-some s (rw (z, n) at h))
        | inr (s', k) ↦
            let whole : x ∷ s' ≡ s = some-injective {A = List ℕ} _ _ (rw (z, k) at h) in
            rw (← heads, z, c_string-prefix m a b s' tails (omega (arith, l, ap length whole)) k)
              (ap some whole)
      ]
    ]

-- A string that ends before `next_free` is at its index also after `dt_push_tail`.
pub dt_get_tail-dt_push_tail :
    (fresh : ℕ → List ℕ) (rounds : ℕ) (tail s : List ℕ) (i : ℕ) (p : TailPool)
    → ((n : ℕ) → length (fresh n) ≡ n)
    → IsValid p
    → IsString tail
    → p.next_free + length tail + 1 ≤ 2 ^ 31
    → p.next_free + length tail + 1 ≤ p.pool_size * 2 ^ rounds
    → dt_get_tail i p ≡ some s
    → i + length s < p.next_free
    → (q : TailPool) × (dt_push_tail (suc rounds) fresh tail p ≡ some (p.next_free, q))
      × (dt_get_tail i q ≡ some s)
unfolding dt_get_tail string_at
dt_get_tail-dt_push_tail fresh rounds tail s i p room v str small reach here before =
    let (q, run, _, _, _, same) = dt_push_tail_lem fresh room rounds tail p v str small reach in
    let n = p.next_free - i in
    let total : i + n ≡ p.next_free = omega (arith, before) in
    let prefix : take n (drop i p.pool) ≡ take n (drop i q.pool) =
      take-drop n i p.pool
      ∙ (ap (drop i)
            (ap (λ k. take k p.pool) total ∙ (sym same ∙ ap (λ k. take k q.pool) (sym total)))
          ∙ sym (take-drop n i q.pool)) in
    (
      q,
      run,
      c_string-prefix n (drop i p.pool) (drop i q.pool) s prefix (omega (arith, before)) here,
    )
