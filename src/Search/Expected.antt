-- ===== src/Search/Expected.antt =====
-- What a request is to be answered by, without the loop of `do_search` and its tests: the record of
-- each name decides.
use dnscache.Common.{
  ℕ, ◌+◌, ◌*◌, ◌^◌, ◌≡◌, refl, ap₂, true, false, not, ◌&&◌, Option, none, some, List, [], ◌∷◌, ◌++◌,
  leb, ◌==◌, if◌then◌else◌, ◌⊎◌, inl, inr, arith,
}
use dnscache.Common.Bytes.{le32}
use dnscache.Kache.{Data, Kache}
use dnscache.Kache.Laws.{lookup}
use dnscache.Search.{Node, Policy, tcp_policy, udp_policy, ip_of, answer, miss_nodes}
use dnscache.Search.InPlace.{answers, all_misses}

-- The bytes 127, 0, 0, 2 as a word.
abbrev pub miss_mark : ℕ
miss_mark = 127 + 2 * 2 ^ 24

-- The address to answer by: that of a record that is not older than a day.
abbrev pub tcp_hit : Option Data → ℕ → Option ℕ
tcp_hit none now = none
tcp_hit (some d) now = if leb now (d.timestamp + 86400) then some d.ip else none

-- The same, where 127.0.0.2 does not count as an address.
abbrev pub udp_hit : Option Data → ℕ → Option ℕ
udp_hit none now = none
udp_hit (some d) now =
    if leb now (d.timestamp + 86400) && not (d.ip == miss_mark) then some d.ip else none

-- The last byte of the head: 0x3F if a name is missed, else 0x7F.
abbrev pub flag_of : List Node → ℕ
flag_of [] = 0x7f
flag_of (m ∷ misses) = 0x3f

module _ (trie_retrieve : List ℕ → Option ℕ) (kache_at : ℕ → Kache) (clock : ℕ → ℕ)
    (hit : Option Data → ℕ → Option ℕ) where
  abbrev pub hit_at : ℕ → List ℕ → Option ℕ
  hit_at i name = hit (lookup trie_retrieve (kache_at i) name) (clock i)

  abbrev pub word_or_mark : Option ℕ → ℕ
  word_or_mark none = miss_mark
  word_or_mark (some ip) = ip

  -- The words of the reply, from the `i`-th name on.
  abbrev pub reply_words : ℕ → List (List ℕ) → List ℕ
  reply_words i [] = []
  reply_words i (name ∷ names) = le32 (word_or_mark (hit_at i name)) ++ reply_words (i + 1) names

  abbrev pub node_if_missed : Option ℕ → List ℕ → Option ℕ → List Node
  node_if_missed none name index = record { domain = name; index = index } ∷ []
  node_if_missed (some ip) name index = []

  -- The names to resolve, each with the index that it gets.
  abbrev pub missed_nodes : (index : ℕ → Option ℕ) → ℕ → List (List ℕ) → List Node
  missed_nodes index i [] = []
  missed_nodes index i (name ∷ names) =
      node_if_missed (hit_at i name) name (index i) ++ missed_nodes index (i + 1) names

  -- The test of a policy and the expectation agree on a record.
  abbrev pub Agrees : Policy → Type 0
  Agrees policy =
      (o : Option Data) (now : ℕ)
      → ((policy.missed o now ≡ true) × (hit o now ≡ none))
        ⊎ ((policy.missed o now ≡ false)
            × (hit o now ≡ some (ip_of trie_retrieve kache_at clock policy o)))

  module _ (policy : Policy) (agrees : Agrees policy) where
    answer-hit :
        (i : ℕ) (name : List ℕ)
        → (answer trie_retrieve kache_at clock policy i name ≡ word_or_mark (hit_at i name))
          × (miss_nodes trie_retrieve kache_at clock policy i name
              ≡ node_if_missed (hit_at i name) name (policy.node_index i))
    answer-hit i name = elim (agrees (lookup trie_retrieve (kache_at i) name) (clock i)) [
      | inl (m, h) ↦ rw (m, h) (refl, refl)
      | inr (m, h) ↦ rw (m, h) (refl, refl)
    ]

    answers-reply_words :
        (i : ℕ) (names : List (List ℕ))
        → answers trie_retrieve kache_at clock policy i names ≡ reply_words i names
    unfolding answers
    answers-reply_words i [] = refl
    answers-reply_words i (name ∷ names) =
        ap₂ (λ w ws. le32 w ++ ws) (answer-hit i name).0 (answers-reply_words (i + 1) names)

    all_misses-missed_nodes :
        (i : ℕ) (names : List (List ℕ))
        → all_misses trie_retrieve kache_at clock policy i names
          ≡ missed_nodes policy.node_index i names
    unfolding all_misses
    all_misses-missed_nodes i [] = refl
    all_misses-missed_nodes i (name ∷ names) =
        ap₂ (λ n ns. n ++ ns) (answer-hit i name).1 (all_misses-missed_nodes (i + 1) names)

module _ (trie_retrieve : List ℕ → Option ℕ) (kache_at : ℕ → Kache) (clock : ℕ → ℕ) where
  pub tcp_policy-Agrees : Agrees trie_retrieve kache_at clock tcp_hit tcp_policy
  tcp_policy-Agrees none now = inl (refl, refl)
  tcp_policy-Agrees (some d) now = ground arith

  udp_policy-Agrees : Agrees trie_retrieve kache_at clock udp_hit udp_policy
  udp_policy-Agrees none now = inl (refl, refl)
  udp_policy-Agrees (some d) now = ground arith

  -- What the loop computes is what is expected.
  pub tcp_answers :
      (i : ℕ) (names : List (List ℕ))
      → (answers trie_retrieve kache_at clock tcp_policy i names
          ≡ reply_words trie_retrieve kache_at clock tcp_hit i names)
        × (all_misses trie_retrieve kache_at clock tcp_policy i names
            ≡ missed_nodes trie_retrieve kache_at clock tcp_hit (λ n. some n) i names)
  tcp_answers i names = (
    answers-reply_words trie_retrieve kache_at clock tcp_hit tcp_policy tcp_policy-Agrees i names,
    all_misses-missed_nodes trie_retrieve kache_at clock tcp_hit tcp_policy tcp_policy-Agrees i
        names,
  )

  pub udp_answers :
      (i : ℕ) (names : List (List ℕ))
      → (answers trie_retrieve kache_at clock udp_policy i names
          ≡ reply_words trie_retrieve kache_at clock udp_hit i names)
        × (all_misses trie_retrieve kache_at clock udp_policy i names
            ≡ missed_nodes trie_retrieve kache_at clock udp_hit (λ n. none) i names)
  udp_answers i names = (
    answers-reply_words trie_retrieve kache_at clock udp_hit udp_policy udp_policy-Agrees i names,
    all_misses-missed_nodes trie_retrieve kache_at clock udp_hit udp_policy udp_policy-Agrees i
        names,
  )
