-- ===== src/Dns/Queue/Contents.antt =====
-- The ring is a queue of at most `array_size - 1` tasks, oldest first.
use dnscache.Common.{
  update, ℕ, zero, suc, ◌+◌, ◌-◌, ◌≤◌, ◌<◌, ◌≡◌, refl, ap, ap₂, ◌∙◌, none, some, List, [], ◌∷◌,
  ◌++◌, leb, if◌then◌else◌, arith, ◌⊎◌, inl, inr, ℕ_discrete,
}
use dnscache.Dns.Queue.{Task, Ring, array_size, next, stored, exited, put, get, empty_ring}

pub record IsValid (r : Ring) : Type 0 where
  pub iput_in : r.iput < array_size
  pub iget_in : r.iget < array_size

-- Steps round the ring from `i` to `k`.
abbrev distance : ℕ → ℕ → ℕ
distance i k = if leb i k then k - i else k + array_size - i

unfoldable pub tasks_from : (ℕ → Task) → ℕ → ℕ → List Task
tasks_from a i zero = []
tasks_from a i (suc n) = a i ∷ tasks_from a (next i) n

abbrev pub size : Ring → ℕ
size r = distance r.iget r.iput

abbrev pub contents : Ring → List Task
contents r = tasks_from r.dns_array r.iget (size r)

tasks_from-update :
    (a : ℕ → Task) (n i k : ℕ) (t : Task)
    → i < array_size
    → k < array_size
    → n ≤ distance i k
    → tasks_from (update a k t) i n ≡ tasks_from a i n
unfolding tasks_from
tasks_from-update a zero i k t hi hk h = refl
tasks_from-update a (suc n) i k t hi hk h =
    ap₂ (λ x l. x ∷ l) (ground arith)
      (tasks_from-update a n (next i) k t (ground arith) hk (ground arith))

tasks_from_new :
    (a : ℕ → Task) (n i k : ℕ) (t : Task)
    → i < array_size
    → k < array_size
    → n ≡ distance i k
    → tasks_from (update a k t) i (suc n) ≡ tasks_from a i n ++ t ∷ []
unfolding tasks_from
tasks_from_new a zero i k t hi hk h = ground arith
tasks_from_new a (suc n) i k t hi hk h =
    ap₂ (λ x l. x ∷ l) (ground arith)
      (tasks_from_new a n (next i) k t (ground arith) hk (ground arith))

empty_ring-contents : (a : ℕ → Task) → contents (empty_ring a) ≡ []
unfolding tasks_from
empty_ring-contents a = refl

size-put :
    (r : Ring) → IsValid r → size r + 1 < array_size → distance r.iget (next r.iput) ≡ size r + 1
size-put r v h = ground arith

-- A put appends the task while fewer than `array_size - 1` wait, and otherwise ends the process.
pub put_lem :
    (r : Ring) (t : Task)
    → IsValid r
    → (size r + 1 < array_size
        → (r' : Ring) × (put r t ≡ stored r')
          × IsValid r'
          × (size r' ≡ size r + 1)
          × (contents r' ≡ contents r ++ t ∷ []))
      × (array_size ≤ size r + 1 → put r t ≡ exited)
unfolding put
put_lem r t v = (
  λ h. (
    record r { dns_array = update r.dns_array r.iput t; iput = next r.iput },
    ground arith,
    ground arith,
    size-put r v h,
    ap (tasks_from (update r.dns_array r.iput t) r.iget) (size-put r v h ∙ omega arith)
        ∙ tasks_from_new r.dns_array (size r) r.iget r.iput t v.iget_in v.iput_in refl,
  ),
  λ h. ground arith,
)

-- A DNS thread waits exactly when nothing is queued, and otherwise gets the oldest task.
pub get_lem :
    (r : Ring)
    → IsValid r
    → ((contents r ≡ []) × (get r ≡ none))
      ⊎ ((t : Task) × (r' : Ring) × (contents r ≡ t ∷ contents r')
          × (get r ≡ some (t, r'))
          × IsValid r')
unfolding get tasks_from
get_lem r v = elim (ℕ_discrete r.iget r.iput) [
  | yes e ↦ inl (ground arith, ground arith)
  | no ne ↦
      let rest : size r ≡ suc (distance (next r.iget) r.iput) = ground arith in
      inr (
        r.dns_array r.iget,
        record r { iget = next r.iget },
        rw (rest, tasks_from) refl,
        ground arith,
        ground arith,
      )
]
