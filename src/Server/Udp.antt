-- ===== src/Server/Udp.antt =====
-- src/server/udp_server.c: `udp_recv` takes each datagram into one buffer that it keeps, and
-- `do_search` answers it from there. A datagram that is shorter than its predecessor leaves the
-- rest of that.
pub mod Reply
use dnscache.Common.{
  ℕ, ◌+◌, ◌-◌, ◌*◌, ◌%◌, ◌^◌, Bool, true, false, Option, none, some, List, [], ◌∷◌, ◌++◌, leb, ◌==◌,
  if◌then◌else◌, length, take, drop,
}
use mathlib.Core.Option
use dnscache.Common.Bytes.{poke, load32}
use dnscache.Protocol.{head_length, magic_number, total_length_length}
use dnscache.Kache.{Kache}
use dnscache.Search.{Node, Search, udp_policy, search_loop, start}
use dnscache.Server.Tcp.{first_flag}

-- `MAX_UDP_LENGTH`.
abbrev pub max_udp_length : ℕ
max_udp_length = 1024 * 128

-- The buffer afterwards, the reply that was sent, and the names for `do_dns_search`.
pub record Served : Type 0 where
  pub readbuf : List ℕ
  pub reply : Option (List ℕ)
  pub misses : List Node

abbrev pub silent : List ℕ → Served
silent readbuf = record { readbuf = readbuf; reply = none; misses = [] }

-- `readcount >= total_length - HEAD_LENGTH`, where the right side is a `uint32`.
abbrev pub udp_finished : ℕ → ℕ → Bool
udp_finished total readcount = leb ((total + 2 ^ 32 - head_length) % 2 ^ 32) readcount

-- The flag, the `sendto` and the end of `do_search`. `sent` is whether all bytes were sent.
finish : (head : List ℕ) → (sent : Bool) → Search → Option Served
finish head sent s =
    Option.map
      (λ head'.
        let readbuf = head' ++ s.buf in
        let message = take (head_length + s.ipcount * 4) readbuf in
        if sent
        then record { readbuf = readbuf; reply = some message; misses = s.misses }
        else silent readbuf)
      (poke head (head_length - 1) (first_flag s.misses ∷ []))

module _ (trie_retrieve : List ℕ → Option ℕ) (kache_at : ℕ → Kache) (clock : ℕ → ℕ) where
  search_body : (head body : List ℕ) → ℕ → Bool → Option Served
  unfolding finish
  search_body head body total sent =
      elim (search_loop trie_retrieve kache_at clock udp_policy (udp_finished total)
        (length body + 1) (start body)) [ none ↦ none | some s ↦ finish head sent s ]

  unfoldable pub do_search : (buf : List ℕ) → Bool → Option Served
  unfolding search_body
  do_search buf sent = elim (load32 buf 0) [
    | none ↦ none
    | some total ↦
        if total == 0
        then some (silent buf)
        else search_body (take head_length buf) (drop head_length buf) total sent
  ]

  -- One round of `udp_recv`, on a datagram cut to the size of the buffer.
  unfoldable pub udp_recv : (readbuf datagram : List ℕ) → Bool → Option Served
  unfolding do_search
  udp_recv readbuf datagram sent =
      elim (poke readbuf 0 (take (head_length + max_udp_length) datagram)) [
        | none ↦ none
        | some buf ↦ elim (load32 buf total_length_length) [
          | none ↦ none
          | some magic ↦ if magic == magic_number then do_search buf sent else some (silent buf)
        ]
      ]
