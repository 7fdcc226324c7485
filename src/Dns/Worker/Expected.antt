-- ===== src/Dns/Worker/Expected.antt =====
-- The address that a name is to get and the end of a request, without `dnsrequest` and `thread_main_dns`.
use dnscache.Common.{
  ℕ, ◌+◌, ◌^◌, ◌≡◌, refl, Option, none, some, List, [], ◌∷◌, map, ◌==◌, if◌then◌else◌, Bool-cases,
  inl, inr,
}
use dnscache.Dns.Worker.{
  Addrinfo, Done, sends, closes, frees, ipptr_block, number_block, mutex_block, headptr_block,
  miss_block, dnsrequest, resolved_ip,
}

-- The bytes 127, 0, 0, 1 as a word.
abbrev pub loopback : ℕ
loopback = 127 + 2 ^ 24

-- The first address of the resolver, or 127.0.0.1 on an error. `old` stays where a success comes with
-- no address.
abbrev pub expected_ip : Addrinfo → (old : ℕ) → ℕ
expected_ip info old =
    if info.retval == 0 then elim info.res [ none ↦ old | some ip ↦ ip ] else loopback

-- What ends a request: its message, then the connection is closed and the five blocks are freed.
abbrev pub ended_by : Option (List ℕ) → List Done
ended_by message =
    sends message
    ∷ closes
    ∷ map frees (ipptr_block ∷ number_block ∷ mutex_block ∷ headptr_block ∷ miss_block ∷ [])

pub resolved_ip_lem :
    (trie_retrieve : List ℕ → Option ℕ) (getaddrinfo : List ℕ → Addrinfo) (name : List ℕ) (old : ℕ)
    → resolved_ip trie_retrieve getaddrinfo name old ≡ expected_ip (getaddrinfo name) old
unfolding dnsrequest
resolved_ip_lem trie_retrieve getaddrinfo name old =
    elim (Bool-cases ((getaddrinfo name).retval == 0)) [
      | inl e ↦ rw (e) refl
      | inr e ↦ rw (e, e) refl
    ]
