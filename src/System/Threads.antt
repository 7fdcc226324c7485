-- ===== src/System/Threads.antt =====
-- From the missed names of a request to its second message: the ring and the DNS threads of
-- src/server/serv_thread_make.c and src/server/dns_thread_make.c.
use dnscache.Common.{
  ℕ, suc, ◌+◌, ◌<◌, ◌≡◌, refl, Option, none, some, List, [], ◌∷◌, ◌++◌, length, arith, sym, ap, ◌∙◌,
}
use mathlib.Core.Path.{subst}
use dnscache.Search.{Node}
use dnscache.Dns.Queue.{Ring, array_size, stored, put_tcp, get}
use dnscache.Dns.Queue.Contents.{IsValid, size, contents}
use dnscache.Dns.Queue.Batch.{tcp_tasks, put_tcp_lem}
use dnscache.Dns.Queue.Drain.{take_tasks, take_tasks_lem}
use dnscache.Dns.Worker.{Addrinfo, new_job, finished, second_flag}
use dnscache.Dns.Worker.Expected.{ended_by}
use dnscache.Dns.Worker.Second.{run_turns, second_turns, run_turns-headptr}
use dnscache.Client.SecondReply.{pair_words}
use dnscache.Client.TcpSearch.{reply, IsFront}
use dnscache.System.Turns.{
  Thread, turns_of, request_turns, request_turns-Distinct, length-request_turns,
}
use dnscache.System.Resolved.{Resolver, resolved, words_lem, second_message_lem}

module _ (trie_retrieve : List ℕ → Option ℕ) (getaddrinfo : List ℕ → Addrinfo)
    (resolver : Resolver getaddrinfo) (threads : ℕ → Thread) (job connfd : ℕ) where
  -- What the ring and the DNS threads make of the missed names of a request with the head
  -- `front ++ flag ∷ []`, where nothing else is in the ring: every task is taken, in order, no thread
  -- waits before the last, and one second message is sent, with the index and address of each name.
  abbrev pub Resolves :
      (r : Ring) (front : List ℕ) (flag : ℕ) (misses : List Node) (fresh : ℕ → ℕ) (second : ℕ)
      → Type 0
  Resolves r front flag misses fresh second =
      let total = length misses in
      let tasks = tcp_tasks job connfd total 0 misses in
      (r1 : Ring) × (r2 : Ring) × (put_tcp job connfd total 0 r misses ≡ stored r1)
      × (take_tasks total r1 ≡ some (tasks, r2))
      × (get r2 ≡ none)
      × ((run_turns trie_retrieve getaddrinfo total (new_job total (front ++ flag ∷ []) fresh)
            (turns_of threads 0 tasks)).1
          ≡ ended_by (
              some (
                reply front second
                  (pair_words (resolved trie_retrieve getaddrinfo resolver misses)))))

  length-tcp_tasks :
      (total i : ℕ) (misses : List Node)
      → length (tcp_tasks job connfd total i misses) ≡ length misses
  length-tcp_tasks total i [] = refl
  length-tcp_tasks total i (m ∷ misses) = ap suc (length-tcp_tasks total (i + 1) misses)

  pub resolves_lem :
      (r : Ring) (front : List ℕ) (flag : ℕ) (misses : List Node) (fresh : ℕ → ℕ)
      → IsValid r
      → contents r ≡ []
      → size r + length misses < array_size
      → IsFront front
      → 0 < length misses
      → (second : ℕ) × Resolves r front flag misses fresh second
  resolves_lem r front flag misses fresh v empty room twelve some_missed =
      let total = length misses in
      let tasks = tcp_tasks job connfd total 0 misses in
      let q = put_tcp_lem job connfd total 0 r misses v room in
      let (r2, taken, _, _, waits) =
        take_tasks_lem q.ring tasks q.valid (q.order ∙ ap (λ l. l ++ tasks) empty) in
      let turns = request_turns threads job connfd total 0 misses in
      let j = new_job total (front ++ flag ∷ []) fresh in
      let last = (run_turns trie_retrieve getaddrinfo total j turns).0 in
      let count = length-request_turns threads job connfd total 0 misses in
      let (sent, wrote, _) =
        second_turns trie_retrieve getaddrinfo total j turns (sym count)
          (omega (arith, count, some_missed))
          (request_turns-Distinct threads job connfd total 0 misses) in
      let pairs =
        words_lem trie_retrieve getaddrinfo resolver threads job connfd total fresh last.ipptr 0
          misses wrote in
      (
        second_flag last.miss,
        (
          q.ring,
          r2,
          q.done,
          subst (λ n. take_tasks n q.ring ≡ some (tasks, r2)) (length-tcp_tasks total 0 misses)
              taken,
          waits,
          sent
              ∙ ap finished (
                  second_message_lem trie_retrieve getaddrinfo resolver last front flag misses
                    twelve (run_turns-headptr trie_retrieve getaddrinfo total j turns) pairs),
        ),
      )
