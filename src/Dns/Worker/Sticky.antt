-- ===== src/Dns/Worker/Sticky.antt =====
-- `missindex` is a variable of the thread and is never set back.
use dnscache.Common.{ℕ, suc, ◌≡◌, Option, List, [], ◌∷◌, arith, All}
use dnscache.Kache.{Kache}
use dnscache.Dns.Queue.{Request, Task}
use dnscache.Dns.Worker.{Addrinfo, Job, resolve_tcp, settle, second_flag, have_error, dnsrequest}
use dnscache.Protocol.{second_with_error}

-- A TCP task as a thread finds it, with the state of its request then.
pub record Work : Type 0 where
  pub job : Job
  pub task : Task
  pub request : Request
  pub kache : Kache
  pub now : ℕ

module _ (trie_retrieve : List ℕ → Option ℕ) (getaddrinfo : List ℕ → Addrinfo) where
  -- One thread's tasks in order, with its `missindex`: the requests as it leaves them.
  pub run_thread : (missindex : ℕ) → List Work → List Job
  run_thread missindex [] = []
  run_thread missindex (w ∷ works) =
      let (_, j, missindex') =
        resolve_tcp trie_retrieve getaddrinfo w.kache w.job missindex w.task w.request w.now in
      settle missindex' j ∷ run_thread missindex' works

  -- `missindex` after one task.
  abbrev after : ℕ → Work → ℕ
  after missindex w =
      (resolve_tcp trie_retrieve getaddrinfo w.kache w.job missindex w.task w.request w.now).2

  run_thread-error :
      (missindex : ℕ) (works : List Work)
      → missindex ≡ have_error
      → All (λ (j : Job). second_flag j.miss ≡ second_with_error) (run_thread missindex works)
  unfolding run_thread resolve_tcp settle
  run_thread-error missindex [] e = tt
  run_thread-error missindex (w ∷ works) e =
      let still : after missindex w ≡ have_error = ground arith in
      (ground arith, run_thread-error (after missindex w) works still)

  -- Once a thread has failed to resolve a name, every TCP request that it works for afterwards is
  -- marked as having an error, whether or not its names resolve.
  pub sticky_error :
      (missindex : ℕ) (w : Work) (works : List Work) (code : ℕ)
      → (getaddrinfo w.task.domain).retval ≡ suc code
      → All (λ (j : Job). second_flag j.miss ≡ second_with_error) (run_thread missindex (w ∷ works))
  unfolding run_thread resolve_tcp settle dnsrequest
  sticky_error missindex w works code failed =
      let now_failed : after missindex w ≡ have_error = ground arith in
      (ground arith, run_thread-error (after missindex w) works now_failed)
