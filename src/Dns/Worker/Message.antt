-- ===== src/Dns/Worker/Message.antt =====
-- The bytes of the second message of a TCP request (src/server/dns_thread_make.c).
use dnscache.Common.{
  ℕ, suc, ◌+◌, ◌*◌, ◌<◌, ◌≡◌, refl, sym, ap, ◌∙◌, Bool, true, false, Option, some, List, [], ◌∷◌,
  ◌++◌, arith, if◌then◌else◌, length, All,
}
use mathlib.Core.Path.{subst}
use dnscache.Common.Bytes.{le32, poke-append_at}
use dnscache.Dns.Worker.{
  Addrinfo, Job, finished, have_error, no_error, words, second_flag, second_message,
}
use dnscache.Dns.Worker.Expected.{expected_ip, ended_by}
use dnscache.Dns.Worker.Second.{
  Turn, Distinct, run_turns, any_failed, Wrote, run_turns-headptr, second_turns,
}

-- `t` is one of `turns`.
abbrev pub IsAmong : List Turn → Turn → Type 0
IsAmong turns t = (l : List Turn) × (r : List Turn) × (turns ≡ l ++ t ∷ r)

-- The turns in the order of their places in `ipptr`, from place `c` on.
abbrev pub InPlaces : ℕ → List Turn → Type 0
InPlaces c [] = Unit
InPlaces c (t ∷ order) = (t.request.count ≡ c) × InPlaces (c + 1) order

All-middle : (P : Turn → Type 0) (l r : List Turn) (t : Turn) → All P (l ++ t ∷ r) → P t
All-middle P [] r t a = a.0
All-middle P (x ∷ l) r t a = All-middle P l r t a.1

All-IsAmong :
    (P : Turn → Type 0) (turns order : List Turn)
    → All (IsAmong turns) order
    → All P turns
    → All P order
All-IsAmong P turns [] i a = tt
All-IsAmong P turns (t ∷ order) ((l, r, e), i) a =
    (All-middle P l r t (subst (All P) e a), All-IsAmong P turns order i a)

second_flag_lem :
    (failed : Bool) (miss : ℕ)
    → miss ≡ (if failed then have_error else no_error)
    → second_flag miss ≡ (if failed then 0xbf else 0xff)
second_flag_lem true miss e = rw e refl
second_flag_lem false miss e = rw e refl

module _ (trie_retrieve : List ℕ → Option ℕ) (getaddrinfo : List ℕ → Addrinfo) where
  -- The index and the address of each name, in order.
  abbrev pub pairs_of : (before : ℕ → ℕ) → List Turn → List ℕ
  pairs_of before [] = []
  pairs_of before (t ∷ order) =
      le32 t.request.index
      ++ (le32 (expected_ip (getaddrinfo t.task.domain) (before (t.request.count * 2 + 1)))
          ++ pairs_of before order)

  words-pairs_of :
      (before after : ℕ → ℕ) (c : ℕ) (order : List Turn)
      → InPlaces c order
      → All (Wrote trie_retrieve getaddrinfo before after) order
      → words after (c * 2) (length order * 2) ≡ pairs_of before order
  words-pairs_of before after c [] p w = refl
  words-pairs_of before after c (t ∷ order) p w =
      let twice : suc (length order) * 2 ≡ suc (suc (length order * 2)) = omega arith in
      let third : c * 2 + 1 + 1 ≡ (c + 1) * 2 = omega arith in
      let rest = words-pairs_of before after (c + 1) order p.1 w.1 in
      let (index, ip) =
        subst
          (λ n.
            (after (n * 2) ≡ t.request.index)
            × (after (n * 2 + 1)
                ≡ expected_ip (getaddrinfo t.task.domain) (before (t.request.count * 2 + 1))))
          p.0 w.0 in
      rw (twice, third, index, ip, rest) refl

  -- All turns at the tasks of a request, in any order and by any threads, one after the other, where
  -- `order` has the same turns by their places: one message is sent, after the last turn, then the
  -- connection is closed and the five blocks are freed, once. The bytes of the message
  -- are the first twelve of the request's head (so the length in it is that of the request), the
  -- flag 0xBF if some name failed or some thread had failed before, else 0xFF, and for each place the
  -- index of the name and its address: that of the resolver, or 127.0.0.1 if it failed.
  pub second_once :
      (total : ℕ) (j : Job) (turns order : List Turn) (front : List ℕ) (flag : ℕ)
      → j.number ≡ length turns
      → total ≡ length turns
      → 0 < length turns
      → Distinct turns
      → length order ≡ length turns
      → InPlaces 0 order
      → All (IsAmong turns) order
      → length front ≡ 12
      → j.headptr ≡ front ++ flag ∷ []
      → j.miss ≡ no_error
      → (run_turns trie_retrieve getaddrinfo total j turns).1
        ≡ ended_by (
            some (
              (front ++ (if any_failed trie_retrieve getaddrinfo turns then 0xbf else 0xff) ∷ [])
              ++ pairs_of j.ipptr order))
  unfolding second_message
  second_once total j turns order front flag n same_total pos d same places among twelve head
        clean =
      let last = (run_turns trie_retrieve getaddrinfo total j turns).0 in
      let (sent, wrote, miss) = second_turns trie_retrieve getaddrinfo total j turns n pos d in
      let count : length order ≡ total = same ∙ sym same_total in
      let pairs : words last.ipptr 0 (total * 2) ≡ pairs_of j.ipptr order =
        subst (λ n. words last.ipptr 0 (n * 2) ≡ pairs_of j.ipptr order) count
          (words-pairs_of j.ipptr last.ipptr 0 order places (
            All-IsAmong (Wrote trie_retrieve getaddrinfo j.ipptr last.ipptr) turns order among
              wrote)) in
      let headed = run_turns-headptr trie_retrieve getaddrinfo total j turns ∙ head in
      let flag' = second_flag last.miss in
      let failed = any_failed trie_retrieve getaddrinfo turns in
      let message : second_message last total
          ≡ some ((front ++ flag' ∷ []) ++ pairs_of j.ipptr order) =
        rw (headed, poke-append_at front (flag ∷ []) [] (flag' ∷ []) 12 twelve refl, pairs) refl in
      sent
      ∙ ap finished message
      ∙ ap (λ f. finished (some ((front ++ f ∷ []) ++ pairs_of j.ipptr order)))
          (second_flag_lem failed last.miss
            (miss ∙ ap (λ m. if failed then have_error else m) clean))
