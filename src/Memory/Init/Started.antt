-- ===== src/Memory/Init/Started.antt =====
-- `mm_init` of src/server/dc_mm1.c: the memory that it leaves, and `dc_alloc` of one byte in it.
use dnscache.Common.{
  ℕ, zero, suc, ◌+◌, ◌-◌, ◌≤◌, ◌≡◌, refl, sym, ap, ◌∙◌, Bool, true, false, some, none, inl, inr,
  List, [], ◌++◌, length, All, arith, append-nil, Bool-cases, if◌then◌else◌,
}
use mathlib.Core.Path.{subst}
use dnscache.Slist.{Heap}
use dnscache.Slist.Chains.{Distinct}
use dnscache.Slist.Views.{All-weaker}
use dnscache.Memory.SizeClass.{biggest_cap, cap_of}
use dnscache.Memory.Chunks.{small, chunk_type_num, Memory, mm_init}
use dnscache.Memory.Alloc.{is_extra, alloc_other, alloc_extra, dc_alloc}
use dnscache.Memory.Blocks.{Spaced, Old-more}
use dnscache.Memory.Views.{View, out, chunks, Marked, HasClass, Valid}
use dnscache.Memory.Frames.{IsPre-later}
use dnscache.Memory.Init.Begun.{locked, AllReady, init_extra_lem, init_classes_lem}

plain : (xs : List ℕ) → xs ≡ (xs ++ []) ++ []
plain xs = sym (append-nil (xs ++ []) ∙ append-nil xs)

module _ (malloc : ℕ → ℕ) (garbage : Heap) where
  one_byte :
      (m : Memory)
      → m.elm_table 0 ≡ none
      → m.extra_mutex 0 ≡ false
      → (rounds : ℕ) → dc_alloc malloc garbage rounds 1 m ≡ none
  unfolding dc_alloc alloc_other alloc_extra cap_of
  one_byte m unlisted unlocked zero = refl
  one_byte m unlisted unlocked (suc rounds) =
      let smallest : cap_of 1 ≡ 0 = refl in
      rw (dc_alloc, smallest, alloc_other, unlisted, alloc_extra, unlocked) refl

  module _ (spaced : Spaced malloc) where
    -- The chunks of a capacity at the start: those of its class, if it has one.
    abbrev begun : (idles : ℕ → List ℕ) → ℕ → View
    begun idles cap = record {
      pre_idle = if is_extra cap then [] else idles (cap - small);
      pre_out = [];
      extra_idle = [];
      extra_out = [];
    }

    begun-HasClass :
        (m : Memory) (mutexes : ℕ → Bool) (apply frees : ℕ → ℕ) (idles : ℕ → List ℕ) (cap : ℕ)
        → m.elm_table cap ≡ none
        → mutexes cap ≡ true
        → 1 ≤ cap
        → AllReady malloc garbage spaced 0 m idles
        → HasClass malloc (locked 30 mutexes apply frees m) cap (begun idles cap)
          × (length (chunks (begun idles cap)) ≤ 512)
    begun-HasClass m mutexes apply frees idles cap unlisted lock low ready =
        elim (Bool-cases (is_extra cap)) [
          | inl extra ↦ rw (extra) (
            record {
              pre = rw (extra) (refl, refl);
              extra = rw (unlisted) (refl, refl);
              pre_lock = λ own. absurd cc;
              extra_lock = lock;
              marked = tt;
              distinct = tt;
            },
            omega arith,
          )
          | inr own ↦
              let r = ready (cap - small) (omega arith) (ground arith) in
              let xs = idles (cap - small) in
              let at : small + (cap - small) ≡ cap = omega arith in
              let all : All (Marked malloc m cap) xs =
                subst (λ c. All (Marked malloc m c) xs) at r.marked in
              rw (own) (
                record {
                  pre = rw (own) (
                      IsPre-later malloc m.calls (m.calls + 30) (omega arith) false _ xs []
                        r.managed);
                  extra = rw (unlisted) (refl, refl);
                  pre_lock = λ own'. r.lock;
                  extra_lock = lock;
                  marked =
                      subst (All (Marked malloc (locked 30 mutexes apply frees m) cap)) (plain xs) (
                        All-weaker (Marked malloc m cap)
                          (Marked malloc (locked 30 mutexes apply frees m) cap) xs
                          (λ a o. (Old-more malloc m.calls (m.calls + 30) a (omega arith) o.0, o.1))
                          all);
                  distinct = subst Distinct (plain xs) r.distinct;
                },
                subst (λ l. length l ≤ 512) (plain xs) r.few,
              )
        ]

    -- `mm_init` ends, and its tables hold the chunks that it made: no caller has one, and each class has
    -- at most 512. The mutex of capacity 0 is as before.
    started :
        (m : Memory)
        → ((cap : ℕ) → m.elm_table cap ≡ none)
        → (m' : Memory) × (views : ℕ → View) × (mm_init malloc garbage m ≡ some m')
          × Valid malloc m' views
          × ((cap : ℕ) → 1 ≤ cap → cap ≤ biggest_cap → length (chunks (views cap)) ≤ 512)
          × ((cap : ℕ) → out (views cap) ≡ [])
          × (m'.elm_table ≡ m.elm_table)
          × (m'.extra_mutex 0 ≡ m.extra_mutex 0)
    unfolding mm_init
    started m unlisted =
        let (m1, idles, run, ready, lists, locks) =
          init_classes_lem malloc garbage spaced chunk_type_num m (λ c. [])
            (λ c low high. absurd (omega arith)) in
        let (mutexes, apply, frees, run', kept, zeroth) =
          init_extra_lem malloc garbage biggest_cap m1 in
        let each = λ (cap : ℕ) (low : 1 ≤ cap) (high : cap ≤ 30).
          begun-HasClass m1 mutexes apply frees idles cap (ap (λ t. t cap) lists ∙ unlisted cap)
            (kept cap (inr (low, high))) low ready in
        (
          locked 30 mutexes apply frees m1,
          begun idles,
          rw (mm_init, run) (ap some run'),
          λ cap low high. (each cap low high).0,
          λ cap low high. (each cap low high).1,
          λ cap. refl,
          lists,
          zeroth ∙ ap (λ f. f 0) locks,
        )

    -- `mm_init` with empty tables ends, and the tables then hold the chunks that it made: no caller has
    -- one, and no capacity has more than 512. `malloc` gives blocks that do not overlap.
    pub mm_init_lem :
        (m : Memory)
        → ((cap : ℕ) → m.elm_table cap ≡ none)
        → (m' : Memory) × (views : ℕ → View) × (mm_init malloc garbage m ≡ some m')
          × Valid malloc m' views
          × ((cap : ℕ) → 1 ≤ cap → cap ≤ biggest_cap → length (chunks (views cap)) ≤ 512)
          × ((cap : ℕ) → out (views cap) ≡ [])
    mm_init_lem m unlisted =
        let (m', views, run, valid, few, nobody, _, _) = started m unlisted in
        (m', views, run, valid, few, nobody)

    -- After `mm_init` with empty tables, where the mutex of capacity 0 was NULL, `dc_alloc` of one byte
    -- gives no result, whatever the number of calls of itself: it locks a mutex that is NULL.
    pub dc_alloc-mm_init :
        (m : Memory)
        → ((cap : ℕ) → m.elm_table cap ≡ none)
        → m.extra_mutex 0 ≡ false
        → (m' : Memory) × (mm_init malloc garbage m ≡ some m')
          × (m'.extra_mutex 0 ≡ false)
          × ((rounds : ℕ) → dc_alloc malloc garbage rounds 1 m' ≡ none)
    dc_alloc-mm_init m unlisted no_mutex =
        let (m', _, run, _, _, _, lists, locks) = started m unlisted in
        let unlocked = locks ∙ no_mutex in
        (m', run, unlocked, one_byte m' (ap (λ t. t 0) lists ∙ unlisted 0) unlocked)
