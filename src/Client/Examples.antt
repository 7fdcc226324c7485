-- ===== src/Client/Examples.antt =====
-- The theorems on the client at concrete names.
use dnscache.Common.{
  ◌≡◌, refl, ℕ, Option, none, some, List, [], ◌∷◌, ◌++◌, ◌==◌, if◌then◌else◌, arith, length,
  replicate, length-replicate, take,
}
use dnscache.Common.Text.{codes}
use dnscache.Common.Bytes.{le32}
use dnscache.Kache.{Kache, kache_retrieve, strncmp_eq}
use dnscache.Kache.Init.{zeroed}
use dnscache.Kache.Laws.{lookup}
use dnscache.Hash.{bkdr_hash}
use dnscache.Search.InPlace.{answers, all_misses}
use dnscache.Server.Tcp.{writev, dns, serv}
use dnscache.Server.Tcp.Receive.{request_front}
use dnscache.Client.Request.{success, Walk, pre_do, message}
use dnscache.Client.RoundTrip.{allows_all-AllAllowed, pre_do_lem}
use dnscache.Client.Exchange.{exchange_lem}

abbrev trie_a : List ℕ → Option ℕ
trie_a [] = none
trie_a (c ∷ s) = if c == b'a' then some 3 else none

abbrev stocked : Kache
stocked = record {
  main_tr_data = λ _. record { ip = 16909060; timestamp = 1000 };
  hash_data = λ _. zeroed;
}

unfoldable pub zeros : ℕ → List ℕ
zeros n = replicate n 0

pub length-zeros : (n : ℕ) → length (zeros n) ≡ n
unfolding zeros
length-zeros n = length-replicate n 0

abbrev mixed : List ℕ
mixed = codes "aBc.com" ++ 0 ∷ (codes "www.LLOA" ++ 0 ∷ (codes "junk"))

abbrev lowered : List ℕ
lowered = codes "abc.com" ++ 0 ∷ (codes "www.lloa" ++ 0 ∷ (codes "junk"))

pre_do_lem_example :
    pre_do mixed 2
    ≡ some (record { status = success; total_length = 30; index = 0 ∷ 8 ∷ []; buf = lowered })
pre_do_lem_example =
    pre_do_lem (codes "aBc.com") (codes "www.LLOA" ∷ []) (codes "junk")
      (
        allows_all-AllAllowed (codes "aBc.com") refl,
        (allows_all-AllAllowed (codes "www.LLOA") refl, tt),
      )
      (omega arith)

-- What is behind the head in a block of 16 bytes.
abbrev three_behind : List ℕ
three_behind = 5 ∷ 6 ∷ 7 ∷ []

exchange_lem_example :
    (w : Walk) × (pre_do mixed 2 ≡ some w)
    × (serv trie_a
          (λ _. stocked)
          (λ _. 2000)
          (take 13 (message w))
          three_behind
          (codes "abc.c" ∷ (codes "om" ++ 0 ∷ (codes "www.lloa" ++ 0 ∷ [])) ∷ [])
          zeros
        ≡ some (
            writev
              ((request_front 30 (le32 1) ++ 0x3f ∷ []) ++ 4 ∷ 3 ∷ 2 ∷ 1 ∷ 127 ∷ 0 ∷ 0 ∷ 2 ∷ [])
            ∷ dns
                (request_front 30 (le32 1) ++ 0x3f ∷ [])
                (record { domain = codes "www.lloa"; index = some 1 } ∷ [])
            ∷ []))
unfolding answers all_misses lookup kache_retrieve strncmp_eq bkdr_hash le32 message
exchange_lem_example = (
  record { status = success; total_length = 30; index = 0 ∷ 8 ∷ []; buf = lowered },
  pre_do_lem_example,
  exchange_lem trie_a (λ _. stocked) (λ _. 2000) (codes "aBc.com") (codes "www.LLOA" ∷ [])
      three_behind (codes "abc.c" ∷ (codes "om" ++ 0 ∷ (codes "www.lloa" ++ 0 ∷ [])) ∷ [])
      (codes "junk")
      (record { status = success; total_length = 30; index = 0 ∷ 8 ∷ []; buf = lowered }) zeros
      (
        allows_all-AllAllowed (codes "aBc.com") refl,
        (allows_all-AllAllowed (codes "www.LLOA") refl, tt),
      )
      (omega arith) (omega arith) pre_do_lem_example (omega arith) refl length-zeros (omega arith),
)
