-- ===== src/Client/Refused.antt =====
-- A byte that is outside the set of `is_in_set`.
use dnscache.Common.{
  ℕ, zero, suc, ◌+◌, ◌^◌, ◌<◌, ◌≡◌, refl, ap, ◌∙◌, Bool, false, Option, some, List, [], ◌∷◌, ◌++◌,
  ◌==◌, ltb, length, length-append, All, arith, append_assoc, Bool-cases, inl, inr,
}
use mathlib.Core.Option
use dnscache.Protocol.{encode}
use dnscache.Client.Request.{not_in_set, Walk, kept, walk, headed, pre_do}
use dnscache.Client.RoundTrip.{allows, AllAllowed, lower_byte, is_in_set-none, walk_name, walk-kept}
use dnscache.Client.Search.{Outcome, prepared, refused, tcp_dns_search, udp_dns_search, dns_search}

-- The walk ends at a byte that is not allowed.
abbrev Refuses : Option Walk → Type 0
Refuses o = (w : Walk) × (o ≡ some w) × (w.status ≡ not_in_set)

map-Refuses :
    (f : Walk → Walk) (o : Option Walk)
    → ((w : Walk) → (f w).status ≡ w.status)
    → Refuses o
    → Refuses (Option.map f o)
map-Refuses f o same r = let (w, e, s) = r in (f w, ap (Option.map f) e, same w ∙ s)

bad_name :
    (left total c : ℕ) (s tail : List ℕ)
    → 0 < c
    → allows c ≡ false
    → AllAllowed s
    → total + length s < 2 ^ 32
    → Refuses (walk (suc left) total (s ++ c ∷ tail))
unfolding walk
bad_name left total c [] tail pos bad a small =
    let away : (c == 0) ≡ false = ground arith in
    (
      record { status = not_in_set; total_length = total; index = []; buf = c ∷ tail },
      rw (walk, away, is_in_set-none c bad) refl,
      refl,
    )
bad_name left total c (b ∷ s) tail pos bad a small =
    rw (walk-kept left total b (s ++ c ∷ tail) a.0 (omega arith)) (
      map-Refuses (kept (lower_byte b)) (walk (suc left) (total + 1) (s ++ c ∷ tail)) (λ w. refl)
        (bad_name left (total + 1) c s tail pos bad a.1 (omega arith)))

bad_names :
    (names : List (List ℕ)) (left total c : ℕ) (s tail : List ℕ)
    → All AllAllowed names
    → length names < left
    → 0 < c
    → allows c ≡ false
    → AllAllowed s
    → total + (length (encode names) + length s) < 2 ^ 32
    → Refuses (walk left total (encode names ++ (s ++ c ∷ tail)))
bad_names names zero total c s tail a few pos bad b small = absurd (omega arith)
bad_names [] (suc left) total c s tail a few pos bad b small =
    bad_name left total c s tail pos bad b (omega arith)
bad_names (name ∷ names) (suc left) total c s tail a few pos bad b small =
    let added = length-append name (0 ∷ encode names) in
    rw
      (
        append_assoc name (0 ∷ encode names) (s ++ c ∷ tail),
        walk_name left total name (encode names ++ (s ++ c ∷ tail)) a.0 (omega (arith, added)),
      )
      (map-Refuses _ (walk left (total + (length name + 1)) (encode names ++ (s ++ c ∷ tail)))
        (λ w. refl)
        (bad_names names left (total + (length name + 1)) c s tail a.1 (omega arith) pos bad b
          (omega (arith, added))))

prepared-not_in_set :
    (go : Walk → Option Outcome) (o : Option Walk)
    → Refuses o
    → prepared go (Option.map headed o) ≡ refused not_in_set
unfolding prepared
prepared-not_in_set go o r = let (w, e, s) = r in rw (prepared, e, s, s) refl

-- If a byte of the first `nbuf` names, before the 2^32-nd byte of the buffer, is not allowed, `dns_search` returns NOT_IN_SET, sends nothing
-- and does not call `f`, by TCP or by UDP.
pub dns_search-not_in_set :
    (names : List (List ℕ)) (s tail : List ℕ) (c nbuf : ℕ) (connected : Bool) (written : List ℕ → ℕ)
    (chunks : List (List ℕ)) (datagram : List ℕ) (fresh : ℕ → List ℕ)
    → All AllAllowed names
    → AllAllowed s
    → 0 < c
    → allows c ≡ false
    → length names < nbuf
    → length (encode names) + length s < 2 ^ 32
    → dns_search (encode names ++ (s ++ c ∷ tail)) nbuf connected written chunks datagram fresh
      ≡ some (record { status = not_in_set; sent = []; calls = [] })
unfolding dns_search tcp_dns_search udp_dns_search pre_do
dns_search-not_in_set names s tail c nbuf connected written chunks datagram fresh a b pos bad few
      small =
    let r = bad_names names nbuf 0 c s tail a few pos bad b (omega arith) in
    elim (Bool-cases (ltb 2048 nbuf)) [
      | inl e ↦
          rw (dns_search, e)
            (prepared-not_in_set _ (walk nbuf 0 (encode names ++ (s ++ c ∷ tail))) r)
      | inr e ↦
          rw (dns_search, e)
            (prepared-not_in_set _ (walk nbuf 0 (encode names ++ (s ++ c ∷ tail))) r)
    ]
