-- ===== src/System/Examples.antt =====
-- The whole search at concrete names and tables.
use dnscache.Common.{
  ℕ, ◌^◌, ◌<◌, ◌≡◌, ◌≢◌, refl, sym, replicate, length-replicate, Bool-cases, Option, none, some,
  List, [], ◌∷◌, length, All, arith, ap, ◌∙◌, concat, append-nil, Option-cases, inl, inr, ◌==◌,
  if◌then◌else◌,
}
use mathlib.Core.Option
use mathlib.Core.Option.{some-injective, none-ne-some}
use mathlib.Core.Path.{subst}
use dnscache.Common.Text.{codes}
use dnscache.Protocol.{cache_miss}
use dnscache.Kache.{Kache, Slot, main_slot, hash_slot, deref, kache_retrieve, strncmp_eq}
use dnscache.Kache.Init.{zeroed}
use dnscache.Kache.Laws.{lookup}
use dnscache.Hash.{bkdr_hash}
use dnscache.Search.InPlace.{all_misses}
use dnscache.Server.Tcp.Receive.{IsChunk}
use dnscache.Dns.Queue.{Ring, empty_ring, udp_task}
use dnscache.Dns.Queue.Contents.{tasks_from}
use dnscache.Dns.Worker.{Addrinfo}
use dnscache.Client.RoundTrip.{allows_all-AllAllowed}
use dnscache.System.Turns.{Thread}
use dnscache.System.Resolved.{Resolver}
use dnscache.System.Missed.{Unmarked}
use dnscache.System.WholeSearch.{Searched, whole_search_lem}

abbrev trie_a : List ℕ → Option ℕ
trie_a [] = none
trie_a (c ∷ s) = if c == b'a' then some 3 else none

abbrev cached : Kache
cached = record {
  main_tr_data = λ _. record { ip = 16909060; timestamp = 1000 };
  hash_data = λ _. zeroed;
}

slot_ip : (s : Slot) → ((deref cached s).ip < 2 ^ 32) × ((deref cached s).ip ≢ cache_miss)
slot_ip (main_slot i) = (omega arith, λ e. absurd (omega (arith, e)))
slot_ip (hash_slot h) = (omega arith, λ e. absurd (omega (arith, e)))

cached-Unmarked : Unmarked trie_a (λ _. cached) (λ _. 2000)
unfolding lookup
cached-Unmarked i name d e = elim (Option-cases (kache_retrieve trie_a cached (some name))) [
  | inl o ↦ absurd (none-ne-some d (sym (ap (Option.map (deref cached)) o) ∙ e))
  | inr (s, o) ↦
      let same : deref cached s ≡ d =
        some-injective _ _ (sym (ap (Option.map (deref cached)) o) ∙ e) in
      subst (λ x. (x.ip < 2 ^ 32) × (x.ip ≢ cache_miss)) same (slot_ip s)
]

-- Names that begin with a `w` resolve to 1.2.3.4.
resolver : List ℕ → Addrinfo
resolver [] = record { retval = 2; res = none }
resolver (c ∷ s) =
    if c == b'w'
    then record { retval = 0; res = some 67305985 }
    else record { retval = 2; res = none }

resolver-Resolver : Resolver resolver
unfolding resolver
resolver-Resolver [] e = absurd (omega (arith, e))
resolver-Resolver (c ∷ s) e = elim (Bool-cases (c == b'w')) [
  | inl z ↦ rw (z) (67305985, refl, omega arith)
  | inr z ↦ let e' = rw (z) at e in absurd (omega (arith, e'))
]

abbrev idle_thread : Thread
idle_thread = record { missindex = 1; kache = cached; now = 2000 }

abbrev no_tasks : Ring
no_tasks = empty_ring (λ i. udp_task (record { domain = []; index = none }))

-- A stream that brings each message whole.
abbrev whole : ℕ → List ℕ → List (List ℕ)
whole k [] = []
whole k (b ∷ bytes) = (b ∷ bytes) ∷ []

whole_lem :
    (k : ℕ) (bytes : List ℕ) → All IsChunk (whole k bytes) × (concat (whole k bytes) ≡ bytes)
whole_lem k [] = (tt, refl)
whole_lem k (b ∷ bytes) = ((omega arith, tt), append-nil (b ∷ bytes))

zeros : ℕ → List ℕ
zeros n = replicate n 0

length-zeros : (n : ℕ) → length (zeros n) ≡ n
unfolding zeros
length-zeros n = length-replicate n 0

-- One name is in the cache, and one is resolved.
whole_search_lem_example :
    Searched trie_a resolver resolver-Resolver
      (λ c. idle_thread)
      9
      5
      (λ i. cached)
      (λ i. 2000)
      cached-Unmarked
      (codes "aBc.com" ∷ codes "www.LLOA" ∷ [])
      []
      (5 ∷ 6 ∷ 7 ∷ [])
      whole
      zeros
      zeros
      no_tasks
      (λ i. 0)
      length
unfolding lookup kache_retrieve strncmp_eq bkdr_hash all_misses tasks_from
whole_search_lem_example =
    whole_search_lem trie_a resolver resolver-Resolver (λ c. idle_thread) 9 5 (λ i. cached)
      (λ i. 2000) cached-Unmarked (codes "aBc.com") (codes "www.LLOA" ∷ []) [] (5 ∷ 6 ∷ 7 ∷ [])
      whole zeros zeros no_tasks (λ i. 0) length
      (
        allows_all-AllAllowed (codes "aBc.com") refl,
        (allows_all-AllAllowed (codes "www.LLOA") refl, tt),
      )
      (omega arith) (omega arith) whole_lem length-zeros length-zeros (omega arith) refl
      (omega arith) refl (omega arith) (omega arith)
