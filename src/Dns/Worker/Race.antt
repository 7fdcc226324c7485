-- ===== src/Dns/Worker/Race.antt =====
-- The test of `number` stands outside the mutex, so other threads can come between it and the
-- decrement.
use dnscache.Common.{
  ℕ, zero, suc, ◌-◌, ◌≡◌, refl, ◌∙◌, List, [], ◌∷◌, ◌++◌, arith, length, map, concat,
}
use dnscache.Dns.Worker.{Job, Done, finished, settle, check, second_message}
use dnscache.Dns.Worker.Expected.{ended_by}

-- What the threads that work for one request do with it, in the order of time.
pub data Event : Type 0 where
  settles : (missindex : ℕ) → Event
  checks : Event

-- What is done.
pub run_events : (total : ℕ) → Job → List Event → List Done
run_events total j [] = []
run_events total j (settles missindex ∷ events) = run_events total (settle missindex j) events
run_events total j (checks ∷ events) = check j total ++ run_events total j events

pub settle_all : Job → List ℕ → Job
settle_all j [] = j
settle_all j (m ∷ ms) = settle_all (settle m j) ms

abbrev pub copies {ℓ} : {A : Type ℓ} → ℕ → A → List A
copies zero a = []
copies (suc n) a = a ∷ copies n a

run_events-settles :
    (total : ℕ) (j : Job) (ms : List ℕ) (events : List Event)
    → run_events total j (map settles ms ++ events) ≡ run_events total (settle_all j ms) events
unfolding run_events settle_all
run_events-settles total j [] events = refl
run_events-settles total j (m ∷ ms) events = run_events-settles total (settle m j) ms events

run_events-checks :
    (total n : ℕ) (j : Job)
    → j.number ≡ 0
    → run_events total j (copies n checks) ≡ concat (copies n (finished (second_message j total)))
unfolding run_events check
run_events-checks total zero j e = refl
run_events-checks total (suc n) j e = ground (arith, run_events-checks total n j e)

settle_all-number : (j : Job) (ms : List ℕ) → (settle_all j ms).number ≡ j.number - length ms
unfolding settle_all settle
settle_all-number j [] = omega arith
settle_all-number j (m ∷ ms) = omega (arith, settle_all-number (settle m j) ms)

-- If the threads of a request all decrement before the first of them tests, then each of them sends
-- the second message, closes the connection and frees the blocks that they share, where a block that
-- was freed keeps what it held.
pub race_lem :
    (total : ℕ) (j : Job) (ms : List ℕ)
    → j.number ≡ length ms
    → run_events total j (map settles ms ++ copies (length ms) checks)
      ≡ concat (copies (length ms) (ended_by (second_message (settle_all j ms) total)))
race_lem total j ms n =
    run_events-settles total j ms (copies (length ms) checks)
    ∙ run_events-checks total (length ms) (settle_all j ms) (omega (arith, settle_all-number j ms))
