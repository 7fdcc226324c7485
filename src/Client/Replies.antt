-- ===== src/Client/Replies.antt =====
-- The loops of `tcp_dns_search` and `udp_dns_search` of src/client/dc_client.c that read the
-- replies and call the caller's `f`. `f` is given a name inside the caller's buffer and a word
-- inside the reply; it is taken to change neither.
use dnscache.Common.{
  ℕ, zero, suc, ◌+◌, ◌-◌, ◌*◌, true, false, Option, none, some, List, [], ◌∷◌, ◌++◌, leb, take,
  ◌==◌, if◌then◌else◌, length, get_elem?, replicate,
}
use mathlib.Core.Option
use dnscache.Common.Bytes.{poke, load32, string_at}
use dnscache.Protocol.{head_length, first_without_error, cache_miss}

-- One call of `f`.
pub record Call : Type 0 where
  pub domain : List ℕ
  pub address : ℕ

-- The reading loops: each `read` puts at most `size` bytes behind what is there, until `size` have
-- come. The chunks that are left are for the next loop.
unfoldable pub receive_reply :
    (size : ℕ) → List (List ℕ) → (retbuf : List ℕ) → (count : ℕ) → Option (List ℕ × List (List ℕ))
receive_reply size [] retbuf count = some (retbuf, [])
receive_reply size ([] ∷ chunks) retbuf count = some (retbuf, chunks)
receive_reply size ((b ∷ bs) ∷ chunks) retbuf count = elim (poke retbuf count (b ∷ bs)) [
  | none ↦ none
  | some retbuf' ↦
      let rest = receive_reply size chunks retbuf' (count + length (b ∷ bs)) in
      if leb size (count + length (b ∷ bs)) then some (retbuf', chunks) else rest
]

-- `(uint32 *) (retbuf + HEAD_LENGTH) + i`.
abbrev pub word : List ℕ → ℕ → Option ℕ
word retbuf i = load32 retbuf (head_length + 4 * i)

abbrev pub add_call : Call → List Call → List Call
add_call c calls = c ∷ calls

-- One call of `f`; `none` is an access outside a buffer.
abbrev pub call_at : (buf : List ℕ) (at : ℕ) → Option ℕ → Option Call
call_at buf at address = elim address [
  | none ↦ none
  | some ip ↦ Option.map (λ s. record { domain = s; address = ip }) (string_at buf at)
]

-- The loop after a first message without error: the names one behind the other.
unfoldable pub deliver_all : (left i count : ℕ) → (buf retbuf : List ℕ) → Option (List Call)
deliver_all zero i count buf retbuf = some []
deliver_all (suc left) i count buf retbuf = elim (call_at buf count (word retbuf i)) [
  | none ↦ none
  | some c ↦
      Option.map (add_call c) (deliver_all left (i + 1) (count + (length c.domain + 1)) buf retbuf)
]

-- A call for the name that `index` has at `at`.
unfoldable pub call_of : (index : List ℕ) → (at : ℕ) → (buf : List ℕ) → Option ℕ → Option Call
call_of index at buf address = elim (get_elem? index at) [
  | none ↦ none
  | some start ↦ call_at buf start address
]

-- The loop after a first message with an error: the calls and `misscount`.
unfoldable pub deliver_hits : (left i : ℕ) → (index buf retbuf : List ℕ) → Option (List Call × ℕ)
deliver_hits zero i index buf retbuf = some ([], 0)
deliver_hits (suc left) i index buf retbuf = elim (word retbuf i) [
  | none ↦ none
  | some tempip ↦ elim (tempip == cache_miss) [
    | true ↦ Option.map (λ r. (r.0, suc r.1)) (deliver_hits left (i + 1) index buf retbuf)
    | false ↦ elim (call_of index i buf (some tempip)) [
      | none ↦ none
      | some c ↦
          Option.map (λ r. (add_call c r.0, r.1)) (deliver_hits left (i + 1) index buf retbuf)
    ]
  ]
]

-- The loop over the second message: pairs of an index and an address.
unfoldable pub deliver_second : (left i : ℕ) → (index buf retbuf : List ℕ) → Option (List Call)
deliver_second zero i index buf retbuf = some []
deliver_second (suc left) i index buf retbuf = elim (word retbuf (2 * i)) [
  | none ↦ none
  | some at ↦ elim (call_of index at buf (word retbuf (2 * i + 1))) [
    | none ↦ none
    | some c ↦ Option.map (add_call c) (deliver_second left (i + 1) index buf retbuf)
  ]
]

-- From the second `bzero` on.
unfoldable pub second_reply :
    (chunks : List (List ℕ)) → (nbuf misscount : ℕ) → (index buf : List ℕ) → Option (List Call)
unfolding receive_reply deliver_second
second_reply chunks nbuf misscount index buf =
    elim (receive_reply (head_length + misscount * 2 * 4) chunks
      (replicate (nbuf * 2 * 4 + head_length) 0) 0) [
        | none ↦ none
        | some r ↦ deliver_second misscount 0 index buf r.0
      ]

-- From the first reading loop on; `retbuf` is what `malloc` gave.
unfoldable pub tcp_replies :
    (chunks : List (List ℕ)) → (nbuf : ℕ) → (index buf retbuf : List ℕ) → Option (List Call)
unfolding receive_reply deliver_all deliver_hits second_reply
tcp_replies chunks nbuf index buf retbuf =
    elim (receive_reply (head_length + nbuf * 4) chunks retbuf 0) [
      | none ↦ none
      | some r ↦ elim (get_elem? r.0 (head_length - 1)) [
        | none ↦ none
        | some flag ↦ elim (flag == first_without_error) [
          | true ↦ deliver_all nbuf 0 0 buf r.0
          | false ↦ elim (deliver_hits nbuf 0 index buf r.0) [
            | none ↦ none
            | some hits ↦
                Option.map (λ calls. hits.0 ++ calls) (second_reply r.1 nbuf hits.1 index buf)
          ]
        ]
      ]
    ]

-- The loop of `udp_dns_search`, with the `strlen` at `buf + count` that is taken in each round.
unfoldable pub deliver_udp : (left i count : ℕ) → (index buf retbuf : List ℕ) → Option (List Call)
deliver_udp zero i count index buf retbuf = some []
deliver_udp (suc left) i count index buf retbuf = elim (call_of index i buf (word retbuf i)) [
  | none ↦ none
  | some c ↦ elim (string_at buf count) [
    | none ↦ none
    | some s ↦
        Option.map (add_call c) (deliver_udp left (i + 1) (count + (length s + 1)) index buf retbuf)
  ]
]

-- From `recvfrom` on, which cuts a datagram to the size it is given.
unfoldable pub udp_replies :
    (datagram : List ℕ) → (nbuf : ℕ) → (index buf retbuf : List ℕ) → Option (List Call)
unfolding deliver_udp
udp_replies datagram nbuf index buf retbuf =
    let received = take (head_length + nbuf * 4) datagram in
    elim (poke retbuf 0 received) [
      | none ↦ none
      | some retbuf' ↦ deliver_udp nbuf 0 (length received) index buf retbuf'
    ]
