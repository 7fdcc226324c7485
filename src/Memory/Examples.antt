-- ===== src/Memory/Examples.antt =====
-- The theorems on the memory management at concrete sizes and memories.
use dnscache.Common.{
  ℕ, suc, ◌+◌, ◌*◌, ◌^◌, ◌≡◌, ◌≤◌, ◌<◌, refl, sym, ap, ◌∙◌, replicate, length-replicate, List,
  Option, zero, ◌==◌, if◌then◌else◌, ==_refl, ne→==, ◌≢◌, false, some, none, inl, [], ◌∷◌, ◌++◌,
  length, update, arith,
}
use mathlib.Core.Path.{subst}
use dnscache.Slist.{Pointer, Heap, Slist}
use dnscache.Slist.Chains.{NotIn, All-append, update_same}
use dnscache.Memory.SizeClass.{pow2, cap_of, biggest_cap}
use dnscache.Memory.Chunks.{Memory, mm_init}
use dnscache.Memory.Alloc.{dc_alloc}
use dnscache.Memory.Free.{dc_free, dc_realloc}
use dnscache.Memory.Blocks.{Spaced}
use dnscache.Memory.Views.{View, out, chunks, Valid}
use dnscache.Memory.Alloc.Granted.{Granted, dc_alloc_lem, cap_of_bounds}
use dnscache.Memory.Free.Regained.{Regained, Freed, dc_free_lem, dc_free-dc_alloc}
use dnscache.Memory.Free.Resized.{Realloced, dc_realloc_lem, dc_realloc_overflow}
use dnscache.Memory.Init.Started.{mm_init_lem, dc_alloc-mm_init}

-- Blocks one after the other.
abbrev spread : ℕ → ℕ
spread i = i * 1024

spread-Spaced : Spaced spread
spread-Spaced i j l = inl (omega arith)

abbrev garbage : Heap
garbage a = record { data_ptr = none; next = none }

abbrev no_list : Slist
no_list = record {
  heap = garbage;
  head = none;
  end_ptr = none;
  blank = none;
  length = 0;
  capacity = 0;
  memlist = none;
}

-- The tables when the program starts.
abbrev blank_memory : Memory
blank_memory = record {
  chunks_manager_table =
      λ i. record { chunks_cap = 0; idle_num = 0; idle_chunks = no_list; alloced_chunks = no_list };
  elm_table = λ cap. none;
  pre_alloc_mutex = λ i. false;
  extra_mutex = λ i. false;
  pre_alloc_apply = λ i. 0;
  pre_alloc_free = λ i. 0;
  extra_apply = λ i. 0;
  extra_free = λ i. 0;
  capacity_word = λ a. 0;
  calls = 0;
  freed = [];
}

abbrev Started : Type 0
Started =
    (m : Memory) × (views : ℕ → View) × (mm_init spread garbage blank_memory ≡ some m)
    × Valid spread m views
    × ((cap : ℕ) → 1 ≤ cap → cap ≤ biggest_cap → length (chunks (views cap)) ≤ 512)
    × ((cap : ℕ) → out (views cap) ≡ [])

mm_init_lem_example : Started
mm_init_lem_example = mm_init_lem spread garbage spread-Spaced blank_memory (λ cap. refl)

dc_alloc-mm_init_example :
    (m : Memory) × (mm_init spread garbage blank_memory ≡ some m)
    × (m.extra_mutex 0 ≡ false)
    × ((rounds : ℕ) → dc_alloc spread garbage rounds 1 m ≡ none)
dc_alloc-mm_init_example =
    dc_alloc-mm_init spread garbage spread-Spaced blank_memory (λ cap. refl) refl

-- The memory after `mm_init`, and what its tables hold.
abbrev started : Started
started = mm_init_lem spread garbage spread-Spaced blank_memory (λ cap. refl)

started_few : length (chunks (started.1 (cap_of 1000))) + 2 < 2 ^ 16
started_few =
    let (low, high) = cap_of_bounds 1000 (omega arith) (omega arith) in
    omega (arith, started.4 (cap_of 1000) low high)

dc_alloc_lem_example :
    Granted spread (dc_alloc spread garbage 1 1000 started.0) 1000 (cap_of 1000) started.1
dc_alloc_lem_example =
    dc_alloc_lem spread garbage 0 1000 started.0 started.1 spread-Spaced (omega arith) (omega arith)
      started_few started.3

abbrev granted :
    Granted spread (dc_alloc spread garbage 1 1000 started.0) 1000 (cap_of 1000) started.1
granted =
    dc_alloc_lem spread garbage 0 1000 started.0 started.1 spread-Spaced (omega arith) (omega arith)
      started_few started.3

-- A memory where a caller has a chunk.
abbrev one_given : ℕ → View
one_given = update started.1 (cap_of 1000) granted.2

out-one_given : out (one_given (cap_of 1000)) ≡ granted.6.0 ++ granted.0 ∷ granted.6.1
out-one_given = ap out (update_same started.1 (cap_of 1000) granted.2) ∙ granted.6.3

bounds : (1 ≤ cap_of 1000) × (cap_of 1000 ≤ biggest_cap)
bounds = cap_of_bounds 1000 (omega arith) (omega arith)

dc_free_lem_example :
    Freed spread
      (λ rounds. dc_free rounds (some (suc granted.0)) granted.1)
      (cap_of 1000)
      granted.0
      one_given
      (granted.6.0 ++ granted.6.1)
dc_free_lem_example =
    dc_free_lem spread granted.1 (cap_of 1000) granted.0 one_given granted.6.0 granted.6.1 bounds.0
      bounds.1 granted.8 out-one_given

dc_free-dc_alloc_example :
    (ptr : Pointer) × (m' : Memory) × (dc_alloc spread garbage 1 1000 started.0 ≡ some (ptr, m'))
    × Regained spread
        (λ rounds'. dc_free rounds' ptr m')
        (cap_of 1000)
        started.1
        (out (started.1 (cap_of 1000)))
dc_free-dc_alloc_example =
    dc_free-dc_alloc spread garbage 0 1000 started.0 started.1 spread-Spaced (omega arith)
      (omega arith) started_few started.3

-- Every chunk has 1024 bytes.
abbrev pages : ℕ → List ℕ
pages ptr = replicate 1024 0

kilobyte : pow2 (cap_of 1000) ≡ 1024
unfolding cap_of
kilobyte = refl

one_given_few : length (chunks (one_given (cap_of 1000))) + 2 < 2 ^ 16
one_given_few = omega (
  arith,
  ap (λ v. length (chunks v)) (update_same started.1 (cap_of 1000) granted.2),
  granted.7,
  started.4 (cap_of 1000) bounds.0 bounds.1,
)

dc_realloc_lem_example :
    Realloced spread
      (λ rounds. dc_realloc spread garbage 1 rounds (some (suc granted.0)) 1000 granted.1 pages)
      one_given
      (cap_of 1000)
      granted.0
      (cap_of 1000)
      pages
dc_realloc_lem_example =
    dc_realloc_lem spread garbage spread-Spaced granted.1 one_given (cap_of 1000) granted.0 1000
      granted.6.0 granted.6.1 pages bounds.0 bounds.1 granted.8 out-one_given (omega arith)
      (omega arith) one_given_few (length-replicate 1024 0 ∙ sym kilobyte)
      (λ again b m' e. length-replicate 1024 0 ∙ sym kilobyte) (omega arith) 0

-- The chunk of the caller has 1024 bytes, and any other one two.
abbrev two_sizes : ℕ → List ℕ
two_sizes ptr = if ptr == suc granted.0 then replicate 1024 0 else replicate 2 0

two_bytes : cap_of 2 ≡ 1
unfolding cap_of
two_bytes = refl

few_small : length (chunks (one_given (cap_of 2))) + 2 < 2 ^ 16
unfolding cap_of
few_small = omega (arith, started.4 1 (omega arith) (omega arith))

abbrev address : Option (Pointer × Memory) → ℕ
address none = 0
address (some (none, m)) = 0
address (some (some a, m)) = a

another_chunk :
    (again b : ℕ) (m' : Memory)
    → dc_alloc spread garbage again 2 granted.1 ≡ some (some (suc b), m')
    → b ≢ granted.0
unfolding dc_alloc
another_chunk zero b m' e same = absurd (omega (arith, ap address e))
another_chunk (suc again) b m' e same =
    let g =
      dc_alloc_lem spread garbage again 2 granted.1 one_given spread-Spaced (omega arith)
        (omega arith) few_small granted.8 in
    let here = subst (NotIn g.0) out-one_given (g.9 (cap_of 1000) bounds.0 bounds.1) in
    (All-append (λ x. g.0 ≢ x) granted.6.0 (granted.0 ∷ granted.6.1) here).1.0
      (omega (arith, ap address (sym g.3 ∙ e), same))

dc_realloc_overflow_example :
    dc_realloc spread garbage 1 5 (some (suc granted.0)) 2 granted.1 two_sizes ≡ none
dc_realloc_overflow_example =
    dc_realloc_overflow spread garbage spread-Spaced granted.1 one_given (cap_of 1000) granted.0 2
      granted.6.0 granted.6.1 two_sizes bounds.0 bounds.1 granted.8 out-one_given (omega arith)
      (omega arith) few_small
      (rw (==_refl (suc granted.0)) (length-replicate 1024 0 ∙ sym kilobyte))
      (λ again b m' e.
        rw
          (
            ne→== (suc b) (suc granted.0) (λ z. another_chunk again b m' e (omega (arith, z))),
            two_bytes,
          )
          (length-replicate 2 0))
      (omega (arith, kilobyte, ap pow2 two_bytes)) 1 5
