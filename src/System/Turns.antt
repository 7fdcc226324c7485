-- ===== src/System/Turns.antt =====
-- The turns of DNS threads (src/server/dns_thread_make.c) at the tasks that they have taken from the ring.
use dnscache.Common.{
  ℕ, suc, ◌+◌, ◌<◌, ◌≡◌, ◌≢◌, refl, none, some, List, [], ◌∷◌, length, All, arith, ap,
}
use dnscache.Kache.{Kache}
use dnscache.Search.{Node}
use dnscache.Dns.Queue.{Task}
use dnscache.Dns.Queue.Batch.{tcp_tasks}
use dnscache.Dns.Worker.Second.{Turn, Distinct}

-- What the thread that has a task brings to it: its `missindex`, the table, and the time of the store.
pub record Thread : Type 0 where
  pub missindex : ℕ
  pub kache : Kache
  pub now : ℕ

-- The turns at the tasks of TCP requests, by the threads from the `c`-th on.
abbrev pub turns_of : (threads : ℕ → Thread) → ℕ → List Task → List Turn
turns_of threads c [] = []
turns_of threads c (t ∷ tasks) = elim t.request [
  | none ↦ turns_of threads (c + 1) tasks
  | some q ↦
      record {
        missindex = (threads c).missindex;
        task = t;
        request = q;
        kache = (threads c).kache;
        now = (threads c).now;
      }
      ∷ turns_of threads (c + 1) tasks
]

module _ (threads : ℕ → Thread) (job connfd total : ℕ) where
  -- The turns at the tasks of one request.
  abbrev pub request_turns : ℕ → List Node → List Turn
  request_turns c misses = turns_of threads c (tcp_tasks job connfd total c misses)

  counts_above :
      (c d : ℕ) (misses : List Node)
      → c < d
      → All (λ u. u.request.count ≢ c) (request_turns d misses)
  counts_above c d [] l = tt
  counts_above c d (m ∷ misses) l =
      ((λ e. absurd (omega (arith, e))), counts_above c (d + 1) misses (omega arith))

  pub request_turns-Distinct : (c : ℕ) (misses : List Node) → Distinct (request_turns c misses)
  request_turns-Distinct c [] = tt
  request_turns-Distinct c (m ∷ misses) =
      (counts_above c (c + 1) misses (omega arith), request_turns-Distinct (c + 1) misses)

  pub length-request_turns :
      (c : ℕ) (misses : List Node) → length (request_turns c misses) ≡ length misses
  length-request_turns c [] = refl
  length-request_turns c (m ∷ misses) = ap suc (length-request_turns (c + 1) misses)
