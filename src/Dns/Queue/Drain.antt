-- ===== src/Dns/Queue/Drain.antt =====
-- The DNS threads empty the ring.
use dnscache.Common.{
  ℕ, zero, suc, ◌≡◌, refl, ap, Option, none, some, List, [], ◌∷◌, length, inl, inr,
}
use mathlib.Core.Option
use dnscache.Dns.Queue.{Task, Ring, get}
use dnscache.Dns.Queue.Contents.{IsValid, contents, get_lem}

-- The tasks that DNS threads take in `n` rounds of the loop of `thread_main_dns`, of whichever thread,
-- while nothing is put; `none` is a thread that waits.
unfoldable pub take_tasks : ℕ → Ring → Option (List Task × Ring)
take_tasks zero r = some ([], r)
take_tasks (suc n) r = elim (get r) [
  | none ↦ none
  | some (t, r') ↦ Option.map (λ rest. (t ∷ rest.0, rest.1)) (take_tasks n r')
]

-- On a valid ring, as many rounds as there are tasks take every task, oldest first, and no thread waits
-- before the last of them; the ring is then empty.
pub take_tasks_lem :
    (r : Ring) (tasks : List Task)
    → IsValid r
    → contents r ≡ tasks
    → (r' : Ring) × (take_tasks (length tasks) r ≡ some (tasks, r'))
      × IsValid r'
      × (contents r' ≡ [])
      × (get r' ≡ none)
unfolding take_tasks
take_tasks_lem r [] v e = elim (get_lem r v) [
  | inl (_, waits) ↦ (r, refl, v, e, waits)
  | inr (t, r', c, _, _) ↦ absurd cc
]
take_tasks_lem r (t ∷ tasks) v e = elim (get_lem r v) [
  | inl (c, _) ↦ absurd cc
  | inr (u, r', c, g, v') ↦
      let (r'', run, v'', empty, waits) = take_tasks_lem r' tasks v' (cc) in
      (r'', rw (take_tasks, g, run) (ap (λ x. some (x ∷ tasks, r'')) (cc)), v'', empty, waits)
]
