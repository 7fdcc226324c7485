-- ===== src/Dns/Worker/Resolve.antt =====
-- What a request finds after a DNS thread (src/server/dns_thread_make.c) has resolved a name.
use dnscache.Common.{
  ℕ, ◌+◌, ◌*◌, ◌≡◌, Bool, not, ◌&&◌, Option, List, leb, ◌==◌, if◌then◌else◌, arith,
}
use dnscache.Kache.{Kache, Data}
use dnscache.Kache.Laws.{lookup-store}
use dnscache.Search.{Policy, tcp_policy, udp_policy, is_missed, answer}
use dnscache.Search.Expected.{miss_mark}
use dnscache.Dns.Queue.{Request, Task}
use dnscache.Dns.Worker.{Addrinfo, Job, store_ip, resolve_udp, resolve_tcp}
use dnscache.Dns.Worker.Expected.{expected_ip, resolved_ip_lem}

module _ (trie_retrieve : List ℕ → Option ℕ) (getaddrinfo : List ℕ → Addrinfo) where
  -- With the table `k`, a `do_search` answers `name` at time `later`, as its `i`-th name, by `ip` if
  -- `known`, else by 127.0.0.2, and hands the name on.
  abbrev pub AnswersIf : Policy → Kache → List ℕ → (later i ip : ℕ) → (known : Bool) → Type 0
  AnswersIf policy k name later i ip known =
      (answer trie_retrieve (λ _. k) (λ _. later) policy i name ≡ (if known then ip else miss_mark))
      × (is_missed trie_retrieve (λ _. k) (λ _. later) policy i name ≡ not known)

  -- What both servers do with a name that got the address `ip` at time `now`.
  abbrev pub Answers : Kache → List ℕ → (ip now later i : ℕ) → Type 0
  Answers k name ip now later i =
      AnswersIf tcp_policy k name later i ip (leb later (now + 86400))
      × AnswersIf udp_policy k name later i ip (leb later (now + 86400) && not (ip == miss_mark))

  store_ip-Answers :
      (k : Kache) (name : List ℕ) (ip now later i : ℕ)
      → Answers (store_ip trie_retrieve getaddrinfo k name ip now) name ip now later i
  store_ip-Answers k name ip now later i =
      let stored : Data = record { ip = ip; timestamp = now } in
      rw (lookup-store trie_retrieve k name stored) (ground arith)

  -- A name that a DNS thread resolved at time `now`, for either server, has in the cache the address
  -- that the resolver gave, or 127.0.0.1 if it failed. The TCP server answers by it for a day, to the
  -- second, and then takes the name as missed again; so does the UDP server, but it takes the name
  -- as missed at once if the address is 127.0.0.2.
  pub resolve-Answers :
      (k : Kache) (j : Job) (t : Task) (q : Request) (old missindex now later i : ℕ)
      → Answers
          (resolve_udp trie_retrieve getaddrinfo k t old now)
          t.domain
          (expected_ip (getaddrinfo t.domain) old)
          now
          later
          i
        × Answers
            (resolve_tcp trie_retrieve getaddrinfo k j missindex t q now).0
            t.domain
            (expected_ip (getaddrinfo t.domain) (j.ipptr (q.count * 2 + 1)))
            now
            later
            i
  unfolding resolve_udp resolve_tcp
  resolve-Answers k j t q old missindex now later i =
      let place = j.ipptr (q.count * 2 + 1) in
      (
        rw (resolved_ip_lem trie_retrieve getaddrinfo t.domain old)
            (store_ip-Answers k t.domain (expected_ip (getaddrinfo t.domain) old) now later i),
        rw (resolved_ip_lem trie_retrieve getaddrinfo t.domain place)
            (store_ip-Answers k t.domain (expected_ip (getaddrinfo t.domain) place) now later i),
      )
