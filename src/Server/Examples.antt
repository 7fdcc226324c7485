-- ===== src/Server/Examples.antt =====
-- The theorems on the handlers at concrete requests.
use dnscache.Common.{
  ℕ, ◌≡◌, refl, true, Option, none, some, List, [], ◌∷◌, ◌++◌, ◌==◌, if◌then◌else◌, length, arith,
  replicate, length-replicate,
}
use dnscache.Common.Text.{codes}
use dnscache.Common.Bytes.{string_at, le32}
use dnscache.Hash.{bkdr_hash}
use dnscache.Kache.{Kache, kache_retrieve, strncmp_eq}
use dnscache.Kache.Init.{zeroed}
use dnscache.Kache.Laws.{lookup}
use dnscache.Protocol.{encode}
use dnscache.Search.{Search, tcp_policy, visit, start}
use dnscache.Search.InPlace.{answers, all_misses}
use dnscache.Search.ShortName.{short_name_lem}
use dnscache.Server.Tcp.{writev, dns, serv, receive}
use dnscache.Server.Tcp.Receive.{request_front, serv_lem}
use dnscache.Server.Tcp.Overflow.{receive_overflow}
use dnscache.Server.Udp.{udp_recv}
use dnscache.Server.Udp.Reply.{udp_recv_lem}

abbrev trie_a : List ℕ → Option ℕ
trie_a [] = none
trie_a (c ∷ s) = if c == b'a' then some 3 else none

abbrev stocked : Kache
stocked = record {
  main_tr_data = λ _. record { ip = 16909060; timestamp = 1000 };
  hash_data = λ _. zeroed;
}

abbrev number_one : List ℕ
number_one = 1 ∷ 0 ∷ 0 ∷ 0 ∷ []

-- `dc_alloc` with all bytes zero.
zeros : ℕ → List ℕ
zeros n = replicate n 0

length-zeros : (n : ℕ) → length (zeros n) ≡ n
unfolding zeros
length-zeros n = length-replicate n 0

-- One name is in the cache and one is not; the request comes in two parts.
serv_lem_example :
    serv trie_a
      (λ _. stocked)
      (λ _. 2000)
      (request_front 30 number_one ++ 70 ∷ [])
      (5 ∷ 6 ∷ 7 ∷ [])
      (codes "abc.c" ∷ (codes "om" ++ 0 ∷ (codes "www.lloa" ++ 0 ∷ [])) ∷ [])
      zeros
    ≡ some (
        writev ((request_front 30 number_one ++ 0x3f ∷ []) ++ 4 ∷ 3 ∷ 2 ∷ 1 ∷ 127 ∷ 0 ∷ 0 ∷ 2 ∷ [])
        ∷ dns
            (request_front 30 number_one ++ 0x3f ∷ [])
            (record { domain = codes "www.lloa"; index = some 1 } ∷ [])
        ∷ [])
unfolding answers all_misses lookup kache_retrieve strncmp_eq bkdr_hash le32
serv_lem_example =
    serv_lem trie_a (λ _. stocked) (λ _. 2000) 70 number_one (codes "abc.com")
      (codes "www.lloa" ∷ []) (5 ∷ 6 ∷ 7 ∷ [])
      (codes "abc.c" ∷ (codes "om" ++ 0 ∷ (codes "www.lloa" ++ 0 ∷ [])) ∷ []) zeros refl
      (omega arith) (omega arith) (omega arith) refl length-zeros (omega arith)

receive_overflow_example :
    receive 23
      ((1 ∷ 2 ∷ []) ∷ (3 ∷ 4 ∷ 5 ∷ 6 ∷ 7 ∷ 8 ∷ 9 ∷ 10 ∷ 11 ∷ 12 ∷ []) ∷ [])
      (0 ∷ 0 ∷ 0 ∷ 0 ∷ 0 ∷ 0 ∷ 0 ∷ 0 ∷ 0 ∷ 0 ∷ [])
      0
    ≡ none
receive_overflow_example =
    receive_overflow 23 1 3 (2 ∷ []) (4 ∷ 5 ∷ 6 ∷ 7 ∷ 8 ∷ 9 ∷ 10 ∷ 11 ∷ 12 ∷ []) []
      (0 ∷ 0 ∷ 0 ∷ 0 ∷ 0 ∷ 0 ∷ 0 ∷ 0 ∷ 0 ∷ 0 ∷ []) refl (omega arith) (omega arith) (omega arith)

short_name_lem_example :
    (s : Search) × (visit trie_a
        (λ _. stocked)
        (λ _. 2000)
        tcp_policy
        (start (b'b' ∷ 0 ∷ b'x' ∷ b'y' ∷ 0 ∷ []))
      ≡ some s)
    × (s.readcount ≡ 2)
    × (string_at s.buf s.readcount ≡ some [])
unfolding lookup kache_retrieve strncmp_eq bkdr_hash
short_name_lem_example =
    short_name_lem trie_a (λ _. stocked) (λ _. 2000) tcp_policy b'b' b'x' b'y' (0 ∷ [])
      (omega arith) refl

udp_recv_lem_example :
    (readbuf : List ℕ) × (udp_recv trie_a
        (λ _. stocked)
        (λ _. 2000)
        (zeros 131085)
        ((request_front 21 number_one ++ 70 ∷ []) ++ encode (codes "abc.com" ∷ []))
        true
      ≡ some (record {
        readbuf = readbuf;
        reply = some ((request_front 21 number_one ++ 0x7f ∷ []) ++ 4 ∷ 3 ∷ 2 ∷ 1 ∷ []);
        misses = [];
      }))
unfolding answers all_misses lookup kache_retrieve strncmp_eq bkdr_hash le32
udp_recv_lem_example =
    udp_recv_lem trie_a (λ _. stocked) (λ _. 2000) 70 number_one (codes "abc.com") [] (zeros 131085)
      refl (omega arith) (omega arith) (length-zeros 131085)
