-- ===== src/System/Missed.antt =====
-- The first message of the TCP server (src/server/serv_thread_make.c) as the client reads it.
use dnscache.Common.{
  ℕ, suc, ◌+◌, ◌^◌, ◌<◌, ◌≡◌, ◌≢◌, refl, Option, some, List, [], ◌∷◌, ◌++◌, length, All, arith, ap,
  ◌∙◌, get_elem?-append, append_assoc, Bool-cases, Option-cases, inl, inr, ◌==◌, ne→==,
  length-append,
}
use dnscache.Common.Bytes.{le32}
use dnscache.Protocol.{cache_miss}
use dnscache.Kache.{Data, Kache}
use dnscache.Search.{Node, tcp_policy, found, is_missed, answer}
use dnscache.Search.InPlace.{answers, all_misses}
use dnscache.Dns.Worker.{Addrinfo}
use dnscache.Client.Delivery.{le32s, AllWords}
use dnscache.Client.Hits.{miss_count}
use dnscache.Client.SecondReply.{IsFound}
use dnscache.System.Resolved.{Resolver, resolved, address_of_lem}

module _ (trie_retrieve : List ℕ → Option ℕ) (kache_at : ℕ → Kache) (clock : ℕ → ℕ) where
  -- The tables hold words other than 127.0.0.2, the mark of a miss.
  abbrev pub Unmarked : Type 0
  Unmarked =
      (i : ℕ) (name : List ℕ) (d : Data)
      → found trie_retrieve kache_at clock tcp_policy i name ≡ some d
      → (d.ip < 2 ^ 32) × (d.ip ≢ cache_miss)

  -- The addresses of the first message.
  abbrev pub first_ips : ℕ → List (List ℕ) → List ℕ
  first_ips i [] = []
  first_ips i (name ∷ names) =
      answer trie_retrieve kache_at clock tcp_policy i name ∷ first_ips (i + 1) names

  pub length-first_ips : (i : ℕ) (names : List (List ℕ)) → length (first_ips i names) ≡ length names
  length-first_ips i [] = refl
  length-first_ips i (name ∷ names) = ap suc (length-first_ips (i + 1) names)

  pub answers_lem :
      (i : ℕ) (names : List (List ℕ))
      → answers trie_retrieve kache_at clock tcp_policy i names ≡ le32s (first_ips i names)
  unfolding answers
  answers_lem i [] = refl
  answers_lem i (name ∷ names) =
      ap (λ l. le32 (answer trie_retrieve kache_at clock tcp_policy i name) ++ l)
        (answers_lem (i + 1) names)

  module _ (unmarked : Unmarked) where
    -- An answer is a word, and it is the mark exactly for a miss.
    pub answer_lem :
        (i : ℕ) (name : List ℕ)
        → (answer trie_retrieve kache_at clock tcp_policy i name < 2 ^ 32)
          × ((answer trie_retrieve kache_at clock tcp_policy i name == cache_miss)
              ≡ is_missed trie_retrieve kache_at clock tcp_policy i name)
    answer_lem i name = elim (Option-cases (found trie_retrieve kache_at clock tcp_policy i name)) [
      | inl e ↦ rw (e) (omega arith, refl)
      | inr (d, e) ↦ elim (Bool-cases (is_missed trie_retrieve kache_at clock tcp_policy i name)) [
        | inl z ↦ rw (z) (omega arith, refl)
        | inr z ↦
            let (small, other) = unmarked i name d e in
            rw (z, e) (small, ne→== d.ip cache_miss other)
      ]
    ]

    pub AllWords-first_ips : (i : ℕ) (names : List (List ℕ)) → AllWords (first_ips i names)
    AllWords-first_ips i [] = tt
    AllWords-first_ips i (name ∷ names) = ((answer_lem i name).0, AllWords-first_ips (i + 1) names)

    pub miss_count-first_ips :
        (i : ℕ) (names : List (List ℕ))
        → miss_count (first_ips i names)
          ≡ length (all_misses trie_retrieve kache_at clock tcp_policy i names)
    unfolding all_misses
    miss_count-first_ips i [] = refl
    miss_count-first_ips i (name ∷ names) =
        let rest = miss_count-first_ips (i + 1) names in
        elim (Bool-cases (is_missed trie_retrieve kache_at clock tcp_policy i name)) [
          | inl z ↦ let mark = (answer_lem i name).1 ∙ z in rw (mark, z) (ap suc rest)
          | inr z ↦ let mark = (answer_lem i name).1 ∙ z in rw (mark, z) rest
        ]

  module _ (getaddrinfo : List ℕ → Addrinfo) (resolver : Resolver getaddrinfo) where
    -- Every missed name goes to the DNS threads with the index that it has among the names.
    pub resolved-IsFound :
        (before names : List (List ℕ))
        → length (before ++ names) < 2 ^ 32
        → All (IsFound (before ++ names)) (
            resolved trie_retrieve getaddrinfo resolver
              (all_misses trie_retrieve kache_at clock tcp_policy (length before) names))
    unfolding all_misses
    resolved-IsFound before [] small = tt
    resolved-IsFound before (name ∷ names) small =
        let whole : (before ++ name ∷ []) ++ names ≡ before ++ name ∷ names =
          append_assoc before (name ∷ []) names in
        let next : length (before ++ name ∷ []) ≡ length before + 1 =
          length-append before (name ∷ []) in
        let rest = resolved-IsFound (before ++ name ∷ []) names (rw (whole) small) in
        let rest' = rw (whole, next) at rest in
        elim (Bool-cases (is_missed trie_retrieve kache_at clock tcp_policy (length before) name)) [
          | inl z ↦ rw (z) (
            (
              omega (arith, small, length-append before (name ∷ names)),
              (address_of_lem trie_retrieve getaddrinfo resolver name 0).1,
              get_elem?-append before names name,
            ),
            rest',
          )
          | inr z ↦ rw (z) rest'
        ]

    pub length-resolved :
        (misses : List Node)
        → length (resolved trie_retrieve getaddrinfo resolver misses) ≡ length misses
    length-resolved [] = refl
    length-resolved (m ∷ misses) = ap suc (length-resolved misses)
