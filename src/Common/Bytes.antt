-- ===== src/Common/Bytes.antt =====
-- Bytes in memory: NUL-terminated strings, little-endian words and writes into a buffer. A read or
-- a write that would leave the buffer is a fault, `none`.
use Prim.Native.Nat.{ℕ, ◌+◌, ◌*◌, ◌^◌, zero, suc, ◌/◌, ◌%◌, ◌<◌, ◌≤◌}
use mathlib.Core.Path.{◌≡◌, refl, ap, sym, ◌∙◌}
use mathlib.Core.Option.{Option, none, some}
use mathlib.Core.Option
use mathlib.Core.List.{List, [], ◌∷◌, ◌++◌}
use native.Mathlib.Omega.{arith}
use dnscache.Common.Tests.{◌==◌, if◌then◌else◌}
use dnscache.Common.Lists.{take, take-append-drop, length-take_le, All, length, drop, drop-append}

-- A string is the list of its bytes before the NUL.
abbrev pub IsByte : ℕ → Type 0
IsByte b = (0 < b) × (b < 256)

abbrev pub IsString : List ℕ → Type 0
IsString = All IsByte

-- What a `char *` into the buffer points at: the bytes up to the first NUL.
unfoldable pub c_string : List ℕ → Option (List ℕ)
c_string [] = none
c_string (b ∷ bs) =
    let rest = c_string bs in if b == 0 then some [] else Option.map (λ s. b ∷ s) rest

unfoldable pub string_at : List ℕ → ℕ → Option (List ℕ)
unfolding c_string
string_at buf p = c_string (drop p buf)

-- `memcpy(buf + p, data, n)`.
unfoldable pub poke : List ℕ → ℕ → List ℕ → Option (List ℕ)
poke buf zero [] = some buf
poke [] zero (v ∷ vs) = none
poke (b ∷ bs) zero (v ∷ vs) = Option.map (λ r. v ∷ r) (poke bs zero vs)
poke [] (suc p) vs = none
poke (b ∷ bs) (suc p) vs = Option.map (λ r. b ∷ r) (poke bs p vs)

-- The bytes of a `uint32` on a little-endian host.
unfoldable pub le32 : ℕ → List ℕ
le32 v = (v % 256) ∷ (v / 256 % 256) ∷ (v / 65536 % 256) ∷ (v / 16777216 % 256) ∷ []

word_of : List ℕ → Option ℕ
word_of (a ∷ b ∷ c ∷ d ∷ rest) = some (a + 256 * b + 65536 * c + 16777216 * d)
word_of rest = none

-- `*(uint32 *)(buf + p)`.
unfoldable pub load32 : List ℕ → ℕ → Option ℕ
unfolding word_of
load32 buf p = word_of (drop p buf)

pub c_string-append : (s rest : List ℕ) → IsString s → c_string (s ++ 0 ∷ rest) ≡ some s
unfolding c_string
c_string-append [] rest h = refl
c_string-append (b ∷ s) rest h = ground (arith, c_string-append s rest h.1)

pub string_at-append :
    (front s rest : List ℕ)
    → IsString s
    → string_at (front ++ (s ++ 0 ∷ rest)) (length front) ≡ some s
unfolding string_at
string_at-append front s rest h = rw (drop-append front (s ++ 0 ∷ rest)) (c_string-append s rest h)

pub length-le32 : (v : ℕ) → length (le32 v) ≡ 4
unfolding le32
length-le32 v = refl

pub poke-append :
    (front mid rest vs : List ℕ)
    → length mid ≡ length vs
    → poke (front ++ (mid ++ rest)) (length front) vs ≡ some (front ++ (vs ++ rest))
unfolding poke
poke-append [] [] rest [] h = refl
poke-append [] [] rest (v ∷ vs) h = absurd (omega arith)
poke-append [] (m ∷ mid) rest [] h = absurd (omega arith)
poke-append [] (m ∷ mid) rest (v ∷ vs) h =
    ap (Option.map (λ r. v ∷ r)) (poke-append [] mid rest vs (omega arith))
poke-append (b ∷ front) mid rest vs h =
    ap (Option.map (λ r. b ∷ r)) (poke-append front mid rest vs h)

pub load32-le32 :
    (front rest : List ℕ) (v : ℕ)
    → v < 2 ^ 32
    → load32 (front ++ (le32 v ++ rest)) (length front) ≡ some v
unfolding load32 le32
load32-le32 front rest v h = rw (drop-append front (le32 v ++ rest)) (ap some (omega arith))

-- A word that lies in the buffer is not changed by what follows the buffer.
pub load32-append :
    (buf after : List ℕ) (p : ℕ) {v : ℕ} → load32 buf p ≡ some v → load32 (buf ++ after) p ≡ some v
unfolding load32
load32-append [] after zero h = cc
load32-append [] after (suc p) h = cc
load32-append (a ∷ buf) after (suc p) h = load32-append buf after p h
load32-append (a ∷ []) after zero h = cc
load32-append (a ∷ b ∷ []) after zero h = cc
load32-append (a ∷ b ∷ c ∷ []) after zero h = cc
load32-append (a ∷ b ∷ c ∷ d ∷ buf) after zero h = h

-- A read inside the buffer.
pub load32_inside : (buf : List ℕ) (p : ℕ) → p + 4 ≤ length buf → (v : ℕ) × (load32 buf p ≡ some v)
unfolding load32
load32_inside [] p h = absurd (omega arith)
load32_inside (a ∷ buf) (suc p) h = load32_inside buf p (omega arith)
load32_inside (a ∷ []) zero h = absurd (omega arith)
load32_inside (a ∷ b ∷ []) zero h = absurd (omega arith)
load32_inside (a ∷ b ∷ c ∷ []) zero h = absurd (omega arith)
load32_inside (a ∷ b ∷ c ∷ d ∷ buf) zero h = (a + 256 * b + 65536 * c + 16777216 * d, refl)

-- A write of the whole of `vs` to the start of a buffer that has the room.
pub poke_start :
    (mid rest vs : List ℕ) → length mid ≡ length vs → poke (mid ++ rest) 0 vs ≡ some (vs ++ rest)
poke_start mid rest vs h = poke-append [] mid rest vs h

pub poke-append_at :
    (front mid rest vs : List ℕ) (p : ℕ)
    → length front ≡ p
    → length mid ≡ length vs
    → poke (front ++ (mid ++ rest)) p vs ≡ some (front ++ (vs ++ rest))
poke-append_at front mid rest vs p e h =
    ap (λ k. poke (front ++ (mid ++ rest)) k vs) (sym e) ∙ poke-append front mid rest vs h

pub poke_over :
    (buf vs : List ℕ) → length vs ≤ length buf → poke buf 0 vs ≡ some (vs ++ drop (length vs) buf)
poke_over buf vs h =
    let n = length vs in
    ap (λ b. poke b 0 vs) (sym (take-append-drop n buf))
    ∙ poke_start (take n buf) (drop n buf) vs (length-take_le n buf h)

-- A write past the end of a buffer.
pub poke_overflow :
    (buf : List ℕ) (p : ℕ) (vs : List ℕ) → length buf < p + length vs → poke buf p vs ≡ none
unfolding poke
poke_overflow buf zero [] h = absurd (omega arith)
poke_overflow [] zero (v ∷ vs) h = refl
poke_overflow (b ∷ buf) zero (v ∷ vs) h =
    ap (Option.map (λ r. v ∷ r)) (poke_overflow buf zero vs (omega arith))
poke_overflow [] (suc p) vs h = refl
poke_overflow (b ∷ buf) (suc p) vs h =
    ap (Option.map (λ r. b ∷ r)) (poke_overflow buf p vs (omega arith))
