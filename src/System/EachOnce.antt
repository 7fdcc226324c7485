-- ===== src/System/EachOnce.antt =====
-- The calls of `f` that a search over TCP makes: one for each name.
use dnscache.Common.{ℕ, ◌+◌, ◌∙◌, Option, none, some, List, [], ◌∷◌, ◌++◌, inl, inr}
use mathlib.Core.List.{Perm, perm_middle}
use mathlib.Core.List.Perm
use dnscache.Kache.{Kache}
use dnscache.Search.{tcp_policy, found, ip_of}
use dnscache.Search.Expected.{hit_at, tcp_hit, tcp_policy-Agrees}
use dnscache.Dns.Worker.Expected.{expected_ip}
use dnscache.Search.InPlace.{all_misses}
use dnscache.Dns.Worker.{Addrinfo}
use dnscache.Client.Replies.{Call}
use dnscache.Client.Hits.{hit_calls}
use dnscache.Client.SecondReply.{found_calls}
use dnscache.System.Resolved.{Resolver, resolved, address_of}
use dnscache.System.Missed.{Unmarked, first_ips, answer_lem}

abbrev pub address_or : ℕ → Option ℕ → ℕ
address_or other none = other
address_or other (some ip) = ip

module _ (trie_retrieve : List ℕ → Option ℕ) (getaddrinfo : List ℕ → Addrinfo)
    (resolver : Resolver getaddrinfo) (kache_at : ℕ → Kache) (clock : ℕ → ℕ)
    (unmarked : Unmarked trie_retrieve kache_at clock) where
  -- The address of the `i`-th name: that of the cache while it is fresh, else that of the resolver, or
  -- 127.0.0.1 if the resolver fails.
  abbrev pub right_address : ℕ → List ℕ → ℕ
  right_address i name =
      address_or (expected_ip (getaddrinfo name) 0)
        (hit_at trie_retrieve kache_at clock tcp_hit i name)

  abbrev pub right_calls : ℕ → List (List ℕ) → List Call
  right_calls i [] = []
  right_calls i (name ∷ names) =
      record { domain = name; address = right_address i name } ∷ right_calls (i + 1) names

  pub calls-Perm :
      (i : ℕ) (names : List (List ℕ))
      → Perm
          (hit_calls names (first_ips trie_retrieve kache_at clock i names)
            ++ found_calls (
                resolved trie_retrieve getaddrinfo resolver
                  (all_misses trie_retrieve kache_at clock tcp_policy i names)))
          (right_calls i names)
  unfolding all_misses
  calls-Perm i [] = Perm.refl []
  calls-Perm i (name ∷ names) =
      let rest = calls-Perm (i + 1) names in
      let hits = hit_calls names (first_ips trie_retrieve kache_at clock (i + 1) names) in
      let later = found_calls (
        resolved trie_retrieve getaddrinfo resolver
          (all_misses trie_retrieve kache_at clock tcp_policy (i + 1) names)) in
      let mark = (answer_lem trie_retrieve kache_at clock unmarked i name).1 in
      elim (tcp_policy-Agrees trie_retrieve kache_at clock
        (found trie_retrieve kache_at clock tcp_policy i name) (clock i)) [
          | inl (z, h) ↦
              let marked = mark ∙ z in
              rw (marked, z, h)
                (Perm.trans (perm_middle hits later) (
                  Perm.cons
                    (record {
                      domain = name;
                      address = address_of trie_retrieve getaddrinfo resolver name;
                    })
                    rest))
          | inr (z, h) ↦
              let marked = mark ∙ z in
              rw (marked, z, h)
                (Perm.cons
                  (record {
                    domain = name;
                    address =
                        ip_of trie_retrieve kache_at clock tcp_policy
                          (found trie_retrieve kache_at clock tcp_policy i name);
                  })
                  rest)
        ]
