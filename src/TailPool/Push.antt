-- ===== src/TailPool/Push.antt =====
-- `dt_push_tail` and `dt_get_tail` of datrie_tail_pool.c.
use dnscache.Common.{
  ℕ, zero, suc, ◌+◌, ◌-◌, ◌*◌, ◌%◌, ◌^◌, ◌≤◌, ◌<◌, ◌≡◌, refl, sym, ap, ap₂, ◌∙◌, true, false, some,
  List, [], ◌∷◌, ◌++◌, ltb, length, take, drop, arith, Bool-cases, ge→ltb, inl, inr, length-append,
  take-append-drop, take_all, append_assoc, length-take_le, take-append_at, length-drop,
}
use native.Mathlib.Nat.{pow-succ', mul_assoc}
use dnscache.Common.Bytes.{IsString, poke, poke-append_at, string_at, string_at-append}
use dnscache.TailPool.{TailPool, increasing_rate, left_over, grown, grow, dt_push_tail, dt_get_tail}

pub record IsValid (p : TailPool) : Type 0 where
  pub sized : length p.pool ≡ p.pool_size
  pub used : p.next_free ≤ p.pool_size
  pub small : p.pool_size < 2 ^ 32
  pub one : 1 ≤ p.pool_size

-- What comes before `next_free` is the same.
abbrev pub Keeps : TailPool → TailPool → Type 0
Keeps p p' = (p'.next_free ≡ p.next_free) × (take p.next_free p'.pool ≡ take p.next_free p.pool)

take-append_le : (n : ℕ) (xs ys : List ℕ) → n ≤ length xs → take n (xs ++ ys) ≡ take n xs
take-append_le zero xs ys l = refl
take-append_le (suc n) [] ys l = absurd (omega arith)
take-append_le (suc n) (x ∷ xs) ys l = ap (λ t. x ∷ t) (take-append_le n xs ys (omega arith))

module _ (pool vs : List ℕ) (at : ℕ) (inside : at + length vs ≤ length pool) where
  poke_within : poke pool at vs ≡ some (take at pool ++ (vs ++ drop (length vs) (drop at pool)))
  poke_within =
      let behind = drop at pool in
      let mid = take (length vs) behind in
      let rest = drop (length vs) behind in
      let split : take at pool ++ (mid ++ rest) ≡ pool =
        ap (λ l. take at pool ++ l) (take-append-drop (length vs) behind)
        ∙ take-append-drop at pool in
      ap (λ l. poke l at vs) (sym split)
      ∙ poke-append_at (take at pool) mid rest vs at
          (length-take_le at pool (omega (arith, inside)))
          (length-take_le (length vs) behind (omega (arith, inside, length-drop at pool)))

  length-poke_within :
      length (take at pool ++ (vs ++ drop (length vs) (drop at pool))) ≡ length pool
  length-poke_within = omega (
    arith,
    inside,
    length-append (take at pool) (vs ++ drop (length vs) (drop at pool)),
    length-append vs (drop (length vs) (drop at pool)),
    length-take_le at pool (omega (arith, inside)),
    length-drop (length vs) (drop at pool),
    length-drop at pool,
  )

module _ (fresh : ℕ → List ℕ) (room : (n : ℕ) → length (fresh n) ≡ n) where
  grown_lem :
      (p : TailPool)
      → IsValid p
      → p.pool_size < 2 ^ 31
      → IsValid (grown fresh p)
        × Keeps p (grown fresh p)
        × ((grown fresh p).pool_size ≡ p.pool_size * 2)
  grown_lem p v half =
      let double : (p.pool_size * increasing_rate) % 2 ^ 32 ≡ p.pool_size * 2 = omega arith in
      let s = v.sized in
      let whole : take (p.pool_size * 2) p.pool ≡ p.pool =
        take_all (p.pool_size * 2) p.pool (omega arith) in
      (
        record {
          sized =
              rw (double, whole)
                (omega (
                  arith,
                  length-append p.pool (fresh (p.pool_size * 2 - length p.pool)),
                  room (p.pool_size * 2 - length p.pool),
                  s,
                ));
          used = omega (arith, double, v.used);
          small = omega (arith, double);
          one = omega (arith, double, v.one);
        },
        (
          refl,
          rw (double, whole)
              (take-append_le p.next_free p.pool (fresh (p.pool_size * 2 - length p.pool))
                (omega (arith, v.used, s))),
        ),
        double,
      )

  Grew : (rounds len : ℕ) → TailPool → Type 0
  Grew rounds len p =
      (p' : TailPool) × (grow rounds fresh len p ≡ some p')
      × IsValid p'
      × Keeps p p'
      × (p'.next_free + len + 1 ≤ p'.pool_size)

  Keeps-grown :
      (rounds len : ℕ) (p : TailPool)
      → ltb (left_over p) (len + 1) ≡ true
      → Keeps p (grown fresh p)
      → Grew rounds len (grown fresh p)
      → Grew (suc rounds) len p
  unfolding grow Grew
  Keeps-grown rounds len p z k (p', run, v, k', fits) =
      (p', rw (grow, z) run, v, (k'.0 ∙ k.0, rw (k.0) at k'.1 ∙ k.1), fits)

  grow_lem :
      (rounds len : ℕ) (p : TailPool)
      → IsValid p
      → p.next_free + len + 1 ≤ 2 ^ 31
      → p.next_free + len + 1 ≤ p.pool_size * 2 ^ rounds
      → Grew (suc rounds) len p
  unfolding grow Grew
  grow_lem zero len p v small reach =
      let used = v.used in
      let bound = v.small in
      let room_left : ltb (left_over p) (len + 1) ≡ false =
        ge→ltb (omega (arith, used, bound, reach)) in
      (p, rw (grow, room_left) refl, v, (refl, refl), omega (arith, reach))
  grow_lem (suc rounds) len p v small reach =
      let used = v.used in
      let bound = v.small in
      let left : left_over p ≡ p.pool_size - p.next_free = omega (arith, used, bound) in
      elim (Bool-cases (ltb (left_over p) (len + 1))) [
        | inr z ↦
            let fits : len + 1 ≤ left_over p = ground arith in
            (p, rw (grow, z) refl, v, (refl, refl), omega (arith, left, used))
        | inl z ↦
            let short : left_over p < len + 1 = ground arith in
            let (v', k, double) = grown_lem p v (omega (arith, left, short, small, used)) in
            let twice : p.pool_size * 2 ^ suc rounds ≡ p.pool_size * 2 * 2 ^ rounds =
              rw (pow-succ' 2 rounds) (sym (mul_assoc p.pool_size 2 (2 ^ rounds))) in
            Keeps-grown (suc rounds) len p z k
              (grow_lem rounds len (grown fresh p) v' small (rw (double, ← twice) reach))
      ]

  -- Where a string ends below 2^31 and the rounds are enough, `dt_push_tail` gives the index at which
  -- the pool then holds the string, and keeps all bytes before it; the pool stays well-formed.
  pub dt_push_tail_lem :
      (rounds : ℕ) (tail : List ℕ) (p : TailPool)
      → IsValid p
      → IsString tail
      → p.next_free + length tail + 1 ≤ 2 ^ 31
      → p.next_free + length tail + 1 ≤ p.pool_size * 2 ^ rounds
      → (q : TailPool) × (dt_push_tail (suc rounds) fresh tail p ≡ some (p.next_free, q))
        × IsValid q
        × (dt_get_tail p.next_free q ≡ some tail)
        × (q.next_free ≡ p.next_free + length tail + 1)
        × (take p.next_free q.pool ≡ take p.next_free p.pool)
  unfolding dt_push_tail dt_get_tail Grew
  dt_push_tail_lem rounds tail p v str small reach =
      let (p', run, v', k, fits) = grow_lem rounds (length tail) p v small reach in
      let vs = tail ++ 0 ∷ [] in
      let at = p'.next_free in
      let front = take at p'.pool in
      let rest = drop (length vs) (drop at p'.pool) in
      let size = v'.sized in
      let len = length-append tail (0 ∷ []) in
      let before : length front ≡ at = length-take_le at p'.pool (omega (arith, fits, size)) in
      let inside : at + length vs ≤ length p'.pool = omega (arith, len, fits, size) in
      let next : (at + length tail + 1) % 2 ^ 32 ≡ p.next_free + length tail + 1 =
        omega (arith, k.0, small) in
      (
        record p' { pool = front ++ (vs ++ rest); next_free = (at + length tail + 1) % 2 ^ 32 },
        rw (dt_push_tail, run, poke_within p'.pool vs at inside) refl,
        record {
          sized = length-poke_within p'.pool vs at inside ∙ size;
          used = omega (arith, next, k.0, fits);
          small = v'.small;
          one = v'.one;
        },
        ap₂ string_at (ap (λ l. front ++ l) (append_assoc tail (0 ∷ []) rest)) (sym (before ∙ k.0))
            ∙ string_at-append front tail rest str,
        next,
        take-append_at p.next_free front (vs ++ rest) (before ∙ k.0)
            ∙ (ap (λ m. take m p'.pool) k.0 ∙ k.1),
      )
