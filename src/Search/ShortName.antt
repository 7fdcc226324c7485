-- ===== src/Search/ShortName.antt =====
-- A name of one letter is shorter than the address that is written over it.
use dnscache.Common.{ℕ, ◌≡◌, refl, true, Option, some, List, [], ◌∷◌, arith}
use dnscache.Common.Bytes.{IsByte, string_at, poke, le32}
use dnscache.Kache.{Kache}
use dnscache.Search.{Search, Policy, is_missed, visit, start}

module _ (trie_retrieve : List ℕ → Option ℕ) (kache_at : ℕ → Kache) (clock : ℕ → ℕ)
    (policy : Policy) where
  -- If the first name of a request is one letter and is not in the cache, the mark that is written
  -- for it puts a NUL where the second name begins: that is then read as the empty name.
  pub short_name_lem :
      (c b d : ℕ) (rest : List ℕ)
      → IsByte c
      → is_missed trie_retrieve kache_at clock policy 0 (c ∷ []) ≡ true
      → (s : Search) × (visit trie_retrieve kache_at clock policy (start (c ∷ 0 ∷ b ∷ d ∷ rest))
          ≡ some s)
        × (s.readcount ≡ 2)
        × (string_at s.buf s.readcount ≡ some [])
  unfolding visit string_at poke le32
  short_name_lem c b d rest byte miss = (
    record {
      buf = 127 ∷ 0 ∷ 0 ∷ 2 ∷ rest;
      readcount = 2;
      ipcount = 1;
      misses = record { domain = c ∷ []; index = policy.node_index 0 } ∷ [];
    },
    ground arith,
    refl,
    refl,
  )
