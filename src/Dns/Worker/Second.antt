-- ===== src/Dns/Worker/Second.antt =====
-- The second message of a TCP request, where the threads do not come between each other's `settle`
-- and `check`.
use dnscache.Common.{
  ℕ, ◌+◌, ◌-◌, ◌*◌, ◌<◌, ◌≡◌, refl, sym, ap, ◌∙◌, ◌≢◌, Bool, false, Option, List, [], ◌∷◌, ◌++◌,
  arith, ◌==◌, ◌||◌, if◌then◌else◌, length, All, not,
}
use dnscache.Kache.{Kache}
use dnscache.Dns.Queue.{Request, Task}
use dnscache.Dns.Worker.{
  Addrinfo, Job, resolve_tcp, dnsrequest, settle, Done, finished, check, second_message, have_error,
}
use dnscache.Dns.Worker.Expected.{expected_ip, resolved_ip_lem}

-- A turn of some DNS thread at a task of the request: the thread's `missindex` before it, the table
-- and the time of the store.
pub record Turn : Type 0 where
  pub missindex : ℕ
  pub task : Task
  pub request : Request
  pub kache : Kache
  pub now : ℕ

-- The turns are at different pairs of `ipptr`.
abbrev pub Distinct : List Turn → Type 0
Distinct [] = Unit
Distinct (t ∷ turns) = All (λ u. u.request.count ≢ t.request.count) turns × Distinct turns

module _ (trie_retrieve : List ℕ → Option ℕ) (getaddrinfo : List ℕ → Addrinfo) where
  -- The TCP branch of the thread up to the unlock.
  pub take_turn : Job → Turn → Job
  unfolding resolve_tcp settle
  take_turn j t =
      let (_, j', missindex) =
        resolve_tcp trie_retrieve getaddrinfo t.kache j t.missindex t.task t.request t.now in
      settle missindex j'

  -- The turns one after the other, each with its check: the last state and what was done.
  pub run_turns : ℕ → Job → List Turn → Job × List Done
  run_turns total j [] = (j, [])
  run_turns total j (t ∷ turns) =
      let j' = take_turn j t in
      let (last, sent) = run_turns total j' turns in (last, check j' total ++ sent)

  abbrev pub has_failed : Turn → Bool
  has_failed t = (t.missindex == have_error) || not ((getaddrinfo t.task.domain).retval == 0)

  abbrev pub any_failed : List Turn → Bool
  any_failed [] = false
  any_failed (t ∷ turns) = has_failed t || any_failed turns

  -- The pair of a turn in the second message.
  abbrev pub Wrote : (ℕ → ℕ) → (ℕ → ℕ) → Turn → Type 0
  Wrote before after t =
      (after (t.request.count * 2) ≡ t.request.index)
      × (after (t.request.count * 2 + 1)
          ≡ expected_ip (getaddrinfo t.task.domain) (before (t.request.count * 2 + 1)))

  take_turn_lem :
      (j : Job) (t : Turn)
      → ((take_turn j t).number ≡ j.number - 1)
        × ((take_turn j t).miss ≡ (if has_failed t then have_error else j.miss))
        × ((take_turn j t).headptr ≡ j.headptr)
        × Wrote j.ipptr (take_turn j t).ipptr t
  unfolding take_turn resolve_tcp settle dnsrequest
  take_turn_lem j t =
      let place = j.ipptr (t.request.count * 2 + 1) in
      ground (arith, resolved_ip_lem trie_retrieve getaddrinfo t.task.domain place)

  take_turn-keeps :
      (j : Job) (t : Turn) (c : ℕ)
      → c ≢ t.request.count
      → ((take_turn j t).ipptr (c * 2) ≡ j.ipptr (c * 2))
        × ((take_turn j t).ipptr (c * 2 + 1) ≡ j.ipptr (c * 2 + 1))
  unfolding take_turn resolve_tcp settle
  take_turn-keeps j t c ne = ground arith

  check_early : (j : Job) (total : ℕ) → j.number ≢ 0 → check j total ≡ []
  unfolding check
  check_early j total ne = ground arith

  check_last :
      (j : Job) (total : ℕ) → j.number ≡ 0 → check j total ≡ finished (second_message j total)
  unfolding check
  check_last j total e = ground arith

  -- The last turn sends, and no turn before it.
  run_turns-sent :
      (total : ℕ) (j : Job) (turns : List Turn)
      → j.number ≡ length turns
      → 0 < length turns
      → ((run_turns total j turns).0.number ≡ 0)
        × ((run_turns total j turns).1
            ≡ finished (second_message (run_turns total j turns).0 total))
  unfolding run_turns
  run_turns-sent total j [] n pos = absurd (omega arith)
  run_turns-sent total j (t ∷ []) n pos =
      let number = (take_turn_lem j t).0 in
      let done : (take_turn j t).number ≡ 0 = omega (arith, number) in
      (done, rw (check_last (take_turn j t) total done) refl)
  run_turns-sent total j (t ∷ u ∷ turns) n pos =
      let number = (take_turn_lem j t).0 in
      let (zeroed, sent) =
        run_turns-sent total (take_turn j t) (u ∷ turns) (omega (arith, number)) (omega arith) in
      (zeroed, rw (check_early (take_turn j t) total (λ e. absurd (omega (arith, number)))) sent)

  run_turns-miss :
      (total : ℕ) (j : Job) (turns : List Turn)
      → (run_turns total j turns).0.miss ≡ (if any_failed turns then have_error else j.miss)
  unfolding run_turns
  run_turns-miss total j [] = refl
  run_turns-miss total j (t ∷ turns) =
      ground (arith, (take_turn_lem j t).1, run_turns-miss total (take_turn j t) turns)

  -- The turns leave the head as it is.
  pub run_turns-headptr :
      (total : ℕ) (j : Job) (turns : List Turn) → (run_turns total j turns).0.headptr ≡ j.headptr
  unfolding run_turns
  run_turns-headptr total j [] = refl
  run_turns-headptr total j (t ∷ turns) =
      run_turns-headptr total (take_turn j t) turns ∙ (take_turn_lem j t).2

  run_turns-keeps :
      (total : ℕ) (j : Job) (turns : List Turn) (c : ℕ)
      → All (λ u. u.request.count ≢ c) turns
      → ((run_turns total j turns).0.ipptr (c * 2) ≡ j.ipptr (c * 2))
        × ((run_turns total j turns).0.ipptr (c * 2 + 1) ≡ j.ipptr (c * 2 + 1))
  unfolding run_turns
  run_turns-keeps total j [] c ne = (refl, refl)
  run_turns-keeps total j (t ∷ turns) c ne =
      let (first, second) = take_turn-keeps j t c (λ e. ne.0 (sym e)) in
      let (first', second') = run_turns-keeps total (take_turn j t) turns c ne.1 in
      (first' ∙ first, second' ∙ second)

  Wrote-before :
      (before before' after : ℕ → ℕ) (turns : List Turn) (c : ℕ)
      → ((d : ℕ) → d ≢ c → before' (d * 2 + 1) ≡ before (d * 2 + 1))
      → All (λ u. u.request.count ≢ c) turns
      → All (Wrote before' after) turns
      → All (Wrote before after) turns
  Wrote-before before before' after [] c same ne w = tt
  Wrote-before before before' after (t ∷ turns) c same ne w = (
    (w.0.0, w.0.1 ∙ ap (expected_ip (getaddrinfo t.task.domain)) (same t.request.count ne.0)),
    Wrote-before before before' after turns c same ne.1 w.1,
  )

  run_turns-Wrote :
      (total : ℕ) (j : Job) (turns : List Turn)
      → Distinct turns
      → All (Wrote j.ipptr (run_turns total j turns).0.ipptr) turns
  unfolding run_turns
  run_turns-Wrote total j [] d = tt
  run_turns-Wrote total j (t ∷ turns) d =
      let (_, _, _, wrote) = take_turn_lem j t in
      let (kept, kept') = run_turns-keeps total (take_turn j t) turns t.request.count d.0 in
      (
        (kept ∙ wrote.0, kept' ∙ wrote.1),
        Wrote-before j.ipptr (take_turn j t).ipptr (run_turns total (take_turn j t) turns).0.ipptr
            turns t.request.count (λ c ne. (take_turn-keeps j t c ne).1) d.0
            (run_turns-Wrote total (take_turn j t) turns d.1),
      )

  -- One message is sent, after the last turn, and each turn has written its pair.
  pub second_turns :
      (total : ℕ) (j : Job) (turns : List Turn)
      → j.number ≡ length turns
      → 0 < length turns
      → Distinct turns
      → let (last, sent) = run_turns total j turns in
        (sent ≡ finished (second_message last total))
        × All (Wrote j.ipptr last.ipptr) turns
        × (last.miss ≡ (if any_failed turns then have_error else j.miss))
  second_turns total j turns n pos d = (
    (run_turns-sent total j turns n pos).1,
    run_turns-Wrote total j turns d,
    run_turns-miss total j turns,
  )
