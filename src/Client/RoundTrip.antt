-- ===== src/Client/RoundTrip.antt =====
-- What `pre_do` makes of a buffer of names, and what the server then reads.
use dnscache.Common.{
  ℕ, suc, ◌+◌, ◌%◌, ◌^◌, ◌<◌, ◌≡◌, refl, ap, Bool, true, false, leb, ◌&&◌, ◌||◌, ne→==, Option,
  none, some, List, [], ◌∷◌, ◌++◌, ◌==◌, if◌then◌else◌, length, All, map, arith, append_assoc,
  length-append, Bool-cases, inl, inr,
}
use mathlib.Core.Option
use mathlib.Core.Bool.{false≢true}
use dnscache.Protocol.{encode, head_length}
use dnscache.Client.Request.{success, is_in_set, Walk, kept, next_length, walk, pre_do}

-- A byte that a name may have: a letter, a digit, a hyphen, a dot or an underscore.
abbrev pub allows : ℕ → Bool
allows c =
    (leb 97 c && leb c 122)
    || ((leb 65 c && leb c 90)
        || ((leb 48 c && leb c 57) || ((c == 45) || ((c == 46) || (c == 95)))))

abbrev pub Allowed : ℕ → Type 0
Allowed c = allows c ≡ true

abbrev pub AllAllowed : List ℕ → Type 0
AllAllowed = All Allowed

abbrev pub lower_byte : ℕ → ℕ
lower_byte c = if leb 65 c && leb c 90 then c + 32 else c

pub is_in_set_lem : (c : ℕ) → Allowed c → is_in_set c ≡ some (lower_byte c)
unfolding is_in_set
is_in_set_lem c a = grind arith

pub is_in_set-none : (c : ℕ) → allows c ≡ false → is_in_set c ≡ none
unfolding is_in_set
is_in_set-none c a = grind arith

pub Allowed-pos : (c : ℕ) → Allowed c → 0 < c
Allowed-pos c a = grind arith

-- A name as the client sends it.
abbrev pub lower : List ℕ → List ℕ
lower = map lower_byte

map-map :
    (f g h : Walk → Walk) (o : Option Walk)
    → ((w : Walk) → f (g w) ≡ h w)
    → Option.map f (Option.map g o) ≡ Option.map h o
map-map f g h none e = refl
map-map f g h (some w) e = ap some (e w)

abbrev pub after_name : (left total : ℕ) → List ℕ → Walk → Walk
after_name left total name w = record w {
  buf = lower name ++ 0 ∷ w.buf;
  index = if left == 0 then w.index else total ∷ w.index;
}

next_length_lem : (total : ℕ) → total + 1 < 2 ^ 32 → next_length total ≡ some (total + 1)
next_length_lem total small = ground arith

pub walk-kept :
    (left total c : ℕ) (bs : List ℕ)
    → Allowed c
    → total + 1 < 2 ^ 32
    → walk (suc left) total (c ∷ bs)
      ≡ Option.map (kept (lower_byte c)) (walk (suc left) (total + 1) bs)
unfolding walk
walk-kept left total c bs a small =
    let away : (c == 0) ≡ false = ne→== c 0 (λ z. absurd (omega (arith, Allowed-pos c a))) in
    rw (away, walk, is_in_set_lem c a, next_length_lem total small) refl

walk-nil :
    (left total : ℕ) (bs : List ℕ)
    → total + 1 < 2 ^ 32
    → walk (suc left) total (0 ∷ bs)
      ≡ Option.map (after_name left (total + 1) []) (walk left (total + 1) bs)
unfolding walk
walk-nil left total bs small = rw (walk, next_length_lem total small) refl

pub walk_name :
    (left total : ℕ) (name bs : List ℕ)
    → AllAllowed name
    → total + (length name + 1) < 2 ^ 32
    → walk (suc left) total (name ++ 0 ∷ bs)
      ≡ Option.map
          (after_name left (total + (length name + 1)) name)
          (walk left (total + (length name + 1)) bs)
walk_name left total [] bs a small = walk-nil left total bs small
walk_name left total (c ∷ name) bs a small =
    let sum : total + 1 + (length name + 1) ≡ total + (suc (length name) + 1) = omega arith in
    rw
      (
        walk-kept left total c (name ++ 0 ∷ bs) a.0 (omega arith),
        walk_name left (total + 1) name bs a.1 (omega arith),
        sum,
      )
      (map-map (kept (lower_byte c)) _ _ (walk left (total + (suc (length name) + 1)) bs)
        (λ w. refl))

-- Where each name begins, if the first begins at `start`.
abbrev pub starts : ℕ → List (List ℕ) → List ℕ
starts start [] = []
starts start (name ∷ names) = start ∷ starts (start + (length name + 1)) names

abbrev later_starts : ℕ → List (List ℕ) → List ℕ
later_starts start [] = []
later_starts start (name ∷ names) = starts (start + (length name + 1)) names

index_lem :
    (total : ℕ) (names : List (List ℕ))
    → (if length names == 0 then later_starts total names else total ∷ later_starts total names)
      ≡ starts total names
index_lem total [] = refl
index_lem total (name ∷ names) =
    let more : (length (name ∷ names) == 0) ≡ false = ground arith in rw more refl

walk_lem :
    (total : ℕ) (names : List (List ℕ)) (tail : List ℕ)
    → All AllAllowed names
    → total + length (encode names) < 2 ^ 32
    → walk (length names) total (encode names ++ tail)
      ≡ some (record {
        status = success;
        total_length = total + length (encode names);
        index = later_starts total names;
        buf = encode (map lower names) ++ tail;
      })
unfolding walk
walk_lem total [] tail a small = let sum : total + 0 ≡ total = omega arith in rw sum refl
walk_lem total (name ∷ names) tail a small =
    let added = length-append name (0 ∷ encode names) in
    let sum : total + (length name + 1) + length (encode names)
        ≡ total + length (encode (name ∷ names)) =
      omega (arith, added) in
    rw
      (
        append_assoc name (0 ∷ encode names) tail,
        walk_name (length names) total name (encode names ++ tail) a.0 (omega (arith, added)),
        walk_lem (total + (length name + 1)) names tail a.1 (omega (arith, added)),
        index_lem (total + (length name + 1)) names,
        sum,
        append_assoc (lower name) (0 ∷ encode (map lower names)) tail,
      )
      refl

pub length-lower : (name : List ℕ) → length (lower name) ≡ length name
length-lower [] = refl
length-lower (c ∷ name) = ap suc (length-lower name)

pub length-encode-lower :
    (names : List (List ℕ)) → length (encode (map lower names)) ≡ length (encode names)
length-encode-lower [] = refl
length-encode-lower (name ∷ names) = omega (
  arith,
  length-append name (0 ∷ encode names),
  length-append (lower name) (0 ∷ encode (map lower names)),
  length-lower name,
  length-encode-lower names,
)

-- On one or more names of allowed bytes, with anything behind them and shorter with the head than
-- 2^32 bytes, `pre_do` succeeds: it changes
-- the names to lower case and nothing else, counts head and names, and notes where each name begins.
pub pre_do_lem :
    (name : List ℕ) (names : List (List ℕ)) (tail : List ℕ)
    → All AllAllowed (name ∷ names)
    → head_length + length (encode (name ∷ names)) < 2 ^ 32
    → pre_do (encode (name ∷ names) ++ tail) (length (name ∷ names))
      ≡ some (record {
        status = success;
        total_length = head_length + length (encode (name ∷ names));
        index = starts 0 (name ∷ names);
        buf = encode (map lower (name ∷ names)) ++ tail;
      })
unfolding pre_do
pre_do_lem name names tail a small =
    let sum : (0 + length (encode (name ∷ names)) + head_length) % 2 ^ 32
        ≡ head_length + length (encode (name ∷ names)) =
      omega arith in
    rw (walk_lem 0 (name ∷ names) tail a (omega arith)) (
      ap
        (λ n. some (record {
          status = success;
          total_length = n;
          index = starts 0 (name ∷ names);
          buf = encode (map lower (name ∷ names)) ++ tail;
        }))
        sum)

-- The test of all bytes of a name.
abbrev pub allows_all : List ℕ → Bool
allows_all [] = true
allows_all (c ∷ s) = if allows c then allows_all s else false

pub allows_all-AllAllowed : (s : List ℕ) → allows_all s ≡ true → AllAllowed s
allows_all-AllAllowed [] e = tt
allows_all-AllAllowed (c ∷ s) e = elim (Bool-cases (allows c)) [
  | inl p ↦ (p, allows_all-AllAllowed s (rw p at e))
  | inr p ↦ absurd (false≢true (rw p at e))
]
