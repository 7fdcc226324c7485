-- ===== src/Client/UdpStrings.antt =====
-- The strings that the loop of `udp_dns_search` measures in the caller's buffer, from where the
-- length of the reply puts it.
use dnscache.Common.{
  ℕ, zero, suc, ◌+◌, ◌≤◌, ◌<◌, ◌≡◌, refl, ap, some, List, [], ◌∷◌, ◌++◌, ◌==◌, length, arith,
  length-append, Bool-cases, inl, inr, append_assoc, replicate, replicate-suc, dec_lt,
}
use dnscache.Common.Bytes.{c_string, string_at}
use dnscache.Protocol.{encode}

-- `n` strings follow one another from `p` on.
abbrev pub HasStrings : ℕ → List ℕ → ℕ → Type 0
HasStrings zero buf p = Unit
HasStrings (suc n) buf p =
    (s : List ℕ) × (string_at buf p ≡ some s) × HasStrings n buf (p + (length s + 1))

-- From inside a buffer with a NUL behind it, a string ends at that NUL or before.
string_at-before :
    (front rest : List ℕ) (p : ℕ)
    → p ≤ length front
    → (s : List ℕ) × (string_at (front ++ 0 ∷ rest) p ≡ some s) × (p + length s ≤ length front)
unfolding string_at c_string
string_at-before [] rest zero l = ([], refl, omega arith)
string_at-before [] rest (suc p) l = absurd (omega arith)
string_at-before (b ∷ front) rest (suc p) l =
    let (s, e, m) = string_at-before front rest p (omega arith) in (s, e, omega (arith, m))
string_at-before (b ∷ front) rest zero l =
    let (s, e, m) = string_at-before front rest 0 (omega arith) in
    elim (Bool-cases (b == 0)) [
      | inl z ↦ ([], rw z refl, omega arith)
      | inr z ↦ (b ∷ s, rw (z, e) refl, omega (arith, m))
    ]

string_at-replicate : (m p : ℕ) → p < m → string_at (replicate m 0) p ≡ some []
unfolding string_at c_string
string_at-replicate zero p l = absurd (omega arith)
string_at-replicate (suc m) zero l = rw (replicate-suc {A = ℕ} m 0) refl
string_at-replicate (suc m) (suc p) l =
    rw (replicate-suc {A = ℕ} m 0) (string_at-replicate m p (omega arith))

string_at-zeros :
    (front : List ℕ) (m p : ℕ)
    → length front ≤ p
    → p < length front + m
    → string_at (front ++ replicate m 0) p ≡ some []
unfolding string_at
string_at-zeros [] m p l h = string_at-replicate m p (omega arith)
string_at-zeros (b ∷ front) m zero l h = absurd (omega arith)
string_at-zeros (b ∷ front) m (suc p) l h = string_at-zeros front m p (omega arith) (omega arith)

-- Names with `m` zeros behind them have `n` strings from `p` on, if the zeros are at least `n`, and
-- `n` bytes follow behind `p`.
HasStrings-zeros :
    (n m p : ℕ) (front : List ℕ)
    → n ≤ m
    → p + n ≤ suc (length front) + m
    → HasStrings n ((front ++ 0 ∷ []) ++ replicate m 0) p
HasStrings-zeros zero m p front l h = tt
HasStrings-zeros (suc n) m p front l h = elim (dec_lt p (suc (length front))) [
  | yes before ↦
      let (s, e, b) = string_at-before front (replicate m 0) p (omega arith) in
      (
        s,
        rw (append_assoc front (0 ∷ []) (replicate m 0)) e,
        HasStrings-zeros n m (p + (length s + 1)) front (omega arith) (omega (arith, b)),
      )
  | no behind ↦ (
    [],
    string_at-zeros (front ++ 0 ∷ []) m p (omega (arith, length-append front (0 ∷ [])))
        (omega (arith, length-append front (0 ∷ []))),
    HasStrings-zeros n m (p + 1) front (omega arith) (omega arith),
  )
]

encode_ends :
    (name : List ℕ) (names : List (List ℕ))
    → (front : List ℕ) × (encode (name ∷ names) ≡ front ++ 0 ∷ [])
encode_ends name [] = (name, refl)
encode_ends name (next ∷ names) =
    let (front, e) = encode_ends next names in
    (name ++ 0 ∷ front, rw (append_assoc name (0 ∷ front) (0 ∷ [])) (ap (λ l. name ++ 0 ∷ l) e))

pub HasStrings-encode :
    (name : List ℕ) (names : List (List ℕ)) (n m p : ℕ)
    → n ≤ m
    → p + n ≤ length (encode (name ∷ names)) + m
    → HasStrings n (encode (name ∷ names) ++ replicate m 0) p
HasStrings-encode name names n m p l h =
    let (front, e) = encode_ends name names in
    rw e
      (HasStrings-zeros n m p front l (omega (arith, h, ap length e, length-append front (0 ∷ []))))
