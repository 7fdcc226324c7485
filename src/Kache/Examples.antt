-- ===== src/Kache/Examples.antt =====
-- The laws of the cache at concrete names, and runs of it.
use dnscache.Common.{ℕ, ◌≡◌, refl, Option, none, some, List, [], ◌∷◌, ◌==◌, if◌then◌else◌, arith}
use dnscache.Common.Text.{codes}
use dnscache.Hash.{bkdr_hash}
use dnscache.Kache.{Data, Kache, kache_retrieve, kache_store, strncmp_eq}
use dnscache.Kache.Init.{zeroed, atol32}
use dnscache.Kache.Laws.{lookup, lookup-store, lookup-store_other, lookup-store_shared}

-- A trie with the names that begin with an `a`.
abbrev sample_trie : List ℕ → Option ℕ
sample_trie [] = none
sample_trie (c ∷ s) = if c == b'a' then some 3 else none

abbrev no_data : Data
no_data = record { ip = 0; timestamp = 0 }

abbrev sample : Kache
sample = record { main_tr_data = λ _. no_data; hash_data = λ _. zeroed }

abbrev answer : Data
answer = record { ip = 16909060; timestamp = 1000 }

sample_run :
    (lookup sample_trie
        (kache_store sample_trie sample (some (codes "abc.com")) answer)
        (codes "abc.com")
      ≡ some answer)
    × (lookup sample_trie sample (codes "www.lloa") ≡ none)
unfolding lookup kache_retrieve kache_store strncmp_eq bkdr_hash
sample_run = (refl, refl)

atol_run : atol32 (codes " 1234567890") ≡ 1234567890
unfolding atol32
atol_run = refl

lookup-store_example :
    lookup sample_trie
      (kache_store sample_trie sample (some (codes "www.lloa")) answer)
      (codes "www.lloa")
    ≡ some answer
lookup-store_example = lookup-store sample_trie sample (codes "www.lloa") answer

lookup-store_other_example :
    lookup sample_trie
      (kache_store sample_trie sample (some (codes "abc.com")) answer)
      (codes "www.lloa")
    ≡ lookup sample_trie sample (codes "www.lloa")
lookup-store_other_example =
    lookup-store_other sample_trie sample (codes "abc.com") (codes "www.lloa") answer (λ e. cc)

-- Two names with one hash and the same four first bytes.
same_hash : bkdr_hash (codes "www.lloa") ≡ bkdr_hash (codes "www.aa004")
unfolding bkdr_hash
same_hash = refl

lookup-store_shared_example :
    lookup sample_trie
      (kache_store sample_trie sample (some (codes "www.lloa")) answer)
      (codes "www.aa004")
    ≡ some answer
lookup-store_shared_example =
    (lookup-store_shared sample_trie sample (codes "www.lloa") (codes "www.aa004") answer refl refl
        same_hash (omega arith) (omega arith)).0
      refl
