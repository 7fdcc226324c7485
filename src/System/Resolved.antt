-- ===== src/System/Resolved.antt =====
-- The bytes of the second message of src/server/dns_thread_make.c, as the client reads them.
use dnscache.Common.{
  ℕ, suc, ◌+◌, ◌-◌, ◌*◌, ◌^◌, ◌<◌, ◌≡◌, refl, Option, some, List, [], ◌∷◌, ◌++◌, length, All, arith,
  ◌∙◌, Bool-cases, inl, inr, ◌==◌,
}
use dnscache.Common.Bytes.{poke-append_at}
use dnscache.Protocol.{head_length}
use dnscache.Search.{Node}
use dnscache.Dns.Queue.{index_of}
use dnscache.Dns.Worker.{Addrinfo, Job, words, second_message, second_flag}
use dnscache.Dns.Worker.Expected.{expected_ip}
use dnscache.Dns.Worker.Second.{Wrote}
use dnscache.Client.Replies.{Call}
use dnscache.Client.Delivery.{le32s}
use dnscache.Client.SecondReply.{pair_words}
use dnscache.Client.TcpSearch.{reply, IsFront}
use dnscache.System.Turns.{Thread, request_turns}

-- What the code relies on in `getaddrinfo`: a result of 0 comes with an address, and an address is a word.
abbrev pub Resolver : (List ℕ → Addrinfo) → Type 0
Resolver getaddrinfo =
    (name : List ℕ)
    → (getaddrinfo name).retval ≡ 0
    → (ip : ℕ) × ((getaddrinfo name).res ≡ some ip) × (ip < 2 ^ 32)

module _ (trie_retrieve : List ℕ → Option ℕ) (getaddrinfo : List ℕ → Addrinfo)
    (resolver : Resolver getaddrinfo) where
  -- The address that a name gets.
  abbrev pub address_of : List ℕ → ℕ
  address_of name = expected_ip (getaddrinfo name) 0

  pub address_of_lem :
      (name : List ℕ) (old : ℕ)
      → (expected_ip (getaddrinfo name) old ≡ address_of name) × (address_of name < 2 ^ 32)
  address_of_lem name old = elim (Bool-cases ((getaddrinfo name).retval == 0)) [
    | inl z ↦ let (ip, e, small) = resolver name (ground arith) in (rw (z, e) refl, rw (z, e) small)
    | inr z ↦ (rw (z) refl, rw (z) (omega arith))
  ]

  -- The missed names with their indices and addresses.
  abbrev pub resolved : List Node → List (ℕ × Call)
  resolved [] = []
  resolved (m ∷ misses) =
      (index_of m, record { domain = m.domain; address = address_of m.domain }) ∷ resolved misses

  module _ (threads : ℕ → Thread) (job connfd total : ℕ) where
    pub words_lem :
        (before after : ℕ → ℕ) (c : ℕ) (misses : List Node)
        → All
            (Wrote trie_retrieve getaddrinfo before after)
            (request_turns threads job connfd total c misses)
        → words after (c * 2) (length misses * 2) ≡ le32s (pair_words (resolved misses))
    words_lem before after c [] w = refl
    words_lem before after c (m ∷ misses) w =
        let twice : suc (length misses) * 2 ≡ suc (suc (length misses * 2)) = omega arith in
        let third : c * 2 + 1 + 1 ≡ (c + 1) * 2 = omega arith in
        let rest = words_lem before after (c + 1) misses w.1 in
        let (index, ip) = w.0 in
        let address = ip ∙ (address_of_lem m.domain (before (c * 2 + 1))).0 in
        rw (twice, third, index, address, rest) refl

  -- The message that the last thread sends: the head with the second flag, then the pairs.
  pub second_message_lem :
      (j : Job) (front : List ℕ) (flag : ℕ) (misses : List Node)
      → IsFront front
      → j.headptr ≡ front ++ flag ∷ []
      → words j.ipptr 0 (length misses * 2) ≡ le32s (pair_words (resolved misses))
      → second_message j (length misses)
        ≡ some (reply front (second_flag j.miss) (pair_words (resolved misses)))
  unfolding second_message
  second_message_lem j front flag misses twelve head pairs =
      let last : head_length - 1 ≡ 12 = omega arith in
      rw
        (
          head,
          last,
          poke-append_at front (flag ∷ []) [] (second_flag j.miss ∷ []) 12 twelve refl,
          pairs,
        )
        refl
