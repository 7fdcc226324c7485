-- ===== src/Server/Tcp.antt =====
-- src/server/serv_thread_make.c: `serv` reads a request from a connection, `do_search` answers it
-- from the cache and hands what it misses to the DNS threads.
pub mod Reply
pub mod Receive
pub mod Overflow
use dnscache.Common.{
  ℕ, ◌+◌, ◌-◌, ◌*◌, ◌%◌, ◌^◌, Bool, true, false, Option, none, some, List, [], ◌∷◌, ◌++◌, ltb, leb,
  ◌==◌, ◌||◌, if◌then◌else◌, length, take,
}
use mathlib.Core.Option
use dnscache.Common.Bytes.{poke, load32}
use dnscache.Protocol.{
  head_length, magic_number, first_with_error, first_without_error, total_length_length,
}
use dnscache.Kache.{Kache}
use dnscache.Search.{Node, Search, tcp_policy, search_loop, start}

-- What a handler does with its connection. `dns` is the call of `do_dns_search`, with the head of
-- the reply to come and the names to resolve.
pub data Action : Type 0 where
  writev : List ℕ → Action
  close_conn : Action
  dns : (head : List ℕ) → List Node → Action

-- `readcount >= rbuflen`, where `rbuflen` is the `int` of a `uint32` pattern.
abbrev pub tcp_finished : ℕ → ℕ → Bool
tcp_finished rbuflen readcount = leb (2 ^ 31) rbuflen || leb rbuflen readcount

abbrev pub first_flag : List Node → ℕ
first_flag [] = first_without_error
first_flag (m ∷ misses) = first_with_error

-- What follows the first message.
abbrev pub follow_up : List ℕ → List Node → Action
follow_up head [] = close_conn
follow_up head (m ∷ misses) = dns head (m ∷ misses)

respond : List ℕ → Search → Option (List Action)
respond head s =
    Option.map
      (λ head'. writev (head' ++ take (4 * s.ipcount) s.buf) ∷ follow_up head' s.misses ∷ [])
      (poke head (head_length - 1) (first_flag s.misses ∷ []))

-- The loop of `serv`, over what each `read` of the body returns; an empty answer, or none, is the
-- end of the stream. `p` is `read_ptr - request_ptr`, so `readcount` is `head_length + p`.
unfoldable pub receive : ℕ → List (List ℕ) → List ℕ → ℕ → Option (List ℕ)
receive total [] request p = some request
receive total ([] ∷ chunks) request p = some request
receive total ((b ∷ bs) ∷ chunks) request p = elim (poke request p (b ∷ bs)) [
  | none ↦ none
  | some request' ↦ elim (leb total (head_length + (p + length (b ∷ bs)))) [
    | true ↦
        if ltb total (head_length + 1)
        then none
        else poke request' (total - head_length - 1) (0 ∷ [])
    | false ↦ receive total chunks request' (p + length (b ∷ bs))
  ]
]

-- `TOTAL_LENGTH + MAGIC_NUMBER_LENGTH`, and the offset of the byte behind the request number.
abbrev pub request_number_at : ℕ
request_number_at = total_length_length + 4

abbrev pub reserved_byte_at : ℕ
reserved_byte_at = request_number_at + 4

-- `total_length - HEAD_LENGTH` of `uint32`s.
abbrev pub body_length : ℕ → ℕ
body_length total = (total + 2 ^ 32 - head_length) % 2 ^ 32

module _ (trie_retrieve : List ℕ → Option ℕ) (kache_at : ℕ → Kache) (clock : ℕ → ℕ) where
  -- `none` is an access outside a buffer.
  unfoldable pub do_search : (head request : List ℕ) → ℕ → Option (List Action)
  unfolding respond
  do_search head request rbuflen =
      elim (search_loop trie_retrieve kache_at clock tcp_policy (tcp_finished rbuflen)
        (length request + 1) (start request)) [ none ↦ none | some s ↦ respond head s ]

  serve_body : (head : List ℕ) → ℕ → List (List ℕ) → (ℕ → List ℕ) → Option (List Action)
  unfolding do_search receive
  serve_body head total chunks fresh = elim (receive total chunks (fresh (body_length total)) 0) [
    | none ↦ none
    | some request ↦ do_search head request (body_length total)
  ]

  serve_checked : (head : List ℕ) → ℕ → ℕ → List (List ℕ) → (ℕ → List ℕ) → Option (List Action)
  unfolding serve_body
  serve_checked head total magic chunks fresh =
      if magic == magic_number
      then (if total == 0
          then Option.map (λ actions. close_conn ∷ actions) (serve_body head total chunks fresh)
          else serve_body head total chunks fresh)
      else some (close_conn ∷ [])

  -- `head` is what the first `read` returns, `behind` what the block of the head has after the 13
  -- bytes that are asked for, and `fresh n` what `dc_alloc(n)` leaves in `n` bytes. The request number
  -- and the reserved byte are read and not used, the last as a word of four bytes from the head's
  -- last byte on.
  unfoldable pub serv :
      (head behind : List ℕ) (chunks : List (List ℕ)) (fresh : ℕ → List ℕ) → Option (List Action)
  unfolding serve_checked
  serv head behind chunks fresh =
      if length head == head_length
      then elim (load32 head 0) [
        | none ↦ none
        | some total ↦ elim (load32 head total_length_length) [
          | none ↦ none
          | some magic ↦ elim (load32 head request_number_at) [
            | none ↦ none
            | some request_number ↦ elim (load32 (head ++ behind) reserved_byte_at) [
              | none ↦ none
              | some reserved_byte ↦ serve_checked head total magic chunks fresh
            ]
          ]
        ]
      ]
      else some (close_conn ∷ [])
