-- ===== src/Memory/Free/Regained.antt =====
-- What `dc_free` of src/server/dc_mm1.c promises, alone and after `dc_alloc`.
use dnscache.Common.{
  ℕ, suc, ◌+◌, ◌-◌, ◌^◌, ◌≤◌, ◌<◌, ◌≡◌, ◌≢◌, refl, sym, ap, ap₂, ◌∙◌, false, some, Option, inl, inr,
  List, ◌∷◌, ◌++◌, map, length, update, arith, ◌==◌, Bool-cases, if◌then◌else◌,
}
use mathlib.Core.Path.{subst}
use dnscache.Slist.{Pointer, Heap}
use dnscache.Slist.Chains.{NotIn, All-append, update_same}
use dnscache.Slist.Walks.{among}
use dnscache.Slist.Views.{find-Shows, Shows-length}
use dnscache.Memory.SizeClass.{biggest_cap, cap_of}
use dnscache.Memory.Chunks.{small, Memory}
use dnscache.Memory.Alloc.{is_extra, lock_extra, dc_alloc}
use dnscache.Memory.Free.{free_extra, free_pre_alloced, dc_free}
use dnscache.Memory.Blocks.{Old, Spaced}
use dnscache.Memory.Views.{View, out, chunks, IsManager, IsPre, HasClass, Valid}
use dnscache.Memory.Frames.{Valid_updated}
use dnscache.Memory.Alloc.Select.{lock_extra_lem}
use dnscache.Memory.Alloc.Granted.{Inserted-Marked, dc_alloc_lem, cap_of_bounds}
use dnscache.Memory.Free.Freed.{
  freed_search, dc_free_extra, dc_free_own_extra, dc_free_own, among_yes, among_no, append_parts,
  nonempty, IsBack, Back, Good-out,
}
use dnscache.Memory.Free.Released.{Back-list, Back-own}

module _ (malloc : ℕ → ℕ) (m : Memory) (cap a : ℕ) (v : View) (has : HasClass malloc m cap v) where
  -- What the search among the chunks of a class of its own finds.
  search_lem :
      (given : List ℕ)
      → v.pre_out ≡ given
      → is_extra cap ≡ false
      → m.capacity_word a ≡ cap
      → freed_search 0 (suc a) m ≡ some (if among (some a) (map some given) then 1 else 0)
  search_lem given here own word =
      let P = Old malloc m.calls in
      let mgr = m.chunks_manager_table (cap - small) in
      let managed : IsManager malloc m.calls mgr v.pre_idle given =
        subst (IsManager malloc m.calls mgr v.pre_idle) here
          (subst (λ x. IsPre malloc x m.calls mgr v.pre_idle v.pre_out) own has.pre) in
      let back : suc a - 1 ≡ a = omega arith in
      let read : m.capacity_word (suc a - 1) ≡ cap = rw (back) word in
      rw (read, back)
        (find-Shows P (suc mgr.alloced_chunks.length) (some a) mgr.alloced_chunks (map some given)
          (length v.pre_idle) managed.out_shown
          (omega (
            arith,
            Shows-length P mgr.alloced_chunks (map some given) (length v.pre_idle)
                managed.out_shown,
          )))

  -- The chunk of a caller goes back to the list that it came from.
  dc_free-Back :
      (l r : List ℕ)
      → cap ≤ biggest_cap
      → out v ≡ l ++ a ∷ r
      → Back malloc (λ rounds. dc_free rounds (some (suc a)) m) m cap a v l r
  dc_free-Back l r small_cap whole =
      let back : suc a - 1 ≡ a = omega arith in
      let word = (Inserted-Marked malloc m cap a (l ++ r) v has (l, r, refl, whole)).1 in
      let read : m.capacity_word (suc a - 1) ≡ cap = rw (back) word in
      let lock : lock_extra (m.capacity_word (suc a - 1)) m ≡ some m =
        rw (read) (lock_extra_lem cap m small_cap has.extra_lock) in
      elim (Bool-cases (is_extra cap)) [
        | inl extra ↦ elim (append_parts v.pre_out v.extra_out l a r whole) [
          | inl (k, here, after) ↦
              let (_, nothing) =
                subst
                  (λ x.
                    IsPre malloc x m.calls (m.chunks_manager_table (cap - small)) v.pre_idle
                      v.pre_out)
                  extra has.pre in
              absurd (nonempty l a k (sym here ∙ nothing))
          | inr (k, here, before) ↦
              Back-list malloc (λ rounds. dc_free rounds (some (suc a)) m) m cap a v l k r here
                before has
                (λ e is rounds.
                  dc_free_extra rounds (suc a) m e (rw (read) extra) lock (rw (read) is)
                  ∙ ap₂ (λ w c. free_extra rounds w c e m) back read)
        ]
        | inr own ↦ elim (append_parts v.pre_out v.extra_out l a r whole) [
          | inl (k, here, after) ↦
              let found : freed_search 0 (suc a) m ≡ some 1 =
                search_lem (l ++ a ∷ k) here own word
                ∙ ap (λ b. some (if b then 1 else 0)) (among_yes a l k) in
              Back-own malloc (λ rounds. dc_free rounds (some (suc a)) m) m cap a v l k r here after
                own has
                (λ rounds.
                  dc_free_own rounds (suc a) m (rw (read) own) found
                  ∙ ap₂ (λ w c. free_pre_alloced w (c - small) m) back read)
          | inr (k, here, before) ↦
              let (_, (apart, _)) = Good-out malloc m cap a v l r has whole in
              let (_, not_out) =
                All-append (λ b. a ≢ b) (v.pre_idle ++ v.extra_idle) (l ++ r) apart in
              let not_l = (All-append (λ b. a ≢ b) l r not_out).0 in
              let not_own =
                (All-append (λ b. a ≢ b) v.pre_out k (subst (NotIn a) before not_l)).0 in
              let missing : freed_search 0 (suc a) m ≡ some 0 =
                search_lem v.pre_out refl own word
                ∙ ap (λ b. some (if b then 1 else 0)) (among_no a v.pre_out not_own) in
              Back-list malloc (λ rounds. dc_free rounds (some (suc a)) m) m cap a v l k r here
                before has
                (λ e is rounds.
                  dc_free_own_extra rounds (suc a) m e (rw (read) own) missing lock (rw (read) is)
                  ∙ ap₂ (λ w c. free_extra rounds w c e m) back read)
        ]
      ]

module _ (malloc : ℕ → ℕ) where
  -- The tables and what callers have after a chunk is given back.
  abbrev pub Regained :
      (run : (rounds : ℕ) → Option Memory) → (cap : ℕ) → (ℕ → View) → (given : List ℕ) → Type 0
  Regained run cap views given =
      (n : ℕ) × (m : Memory) × (v : View) × ((rounds : ℕ) → n < rounds → run rounds ≡ some m)
      × (out v ≡ given)
      × Valid malloc m (update views cap v)

  -- The same after `dc_free` of the chunk `a`, which is idle then, or its extra list is gone.
  abbrev pub Freed :
      (run : (rounds : ℕ) → Option Memory) → (cap a : ℕ) → (ℕ → View) → (given : List ℕ) → Type 0
  Freed run cap a views given =
      (n : ℕ) × (m : Memory) × (v : View) × ((rounds : ℕ) → n < rounds → run rounds ≡ some m)
      × (out v ≡ given)
      × Valid malloc m (update views cap v)
      × IsBack m cap a (views cap) v

  -- `dc_free` of a chunk that a caller has ends, given rounds enough for the blocks of a list, and the
  -- callers keep all other chunks. The tables hold their chunks afterwards: the chunk is the first
  -- idle one of its class's own table or of its extra list, before those that were idle, or the
  -- extra list of the class is gone.
  pub dc_free_lem :
      (m : Memory) (cap a : ℕ) (views : ℕ → View) (l r : List ℕ)
      → 1 ≤ cap
      → cap ≤ biggest_cap
      → Valid malloc m views
      → out (views cap) ≡ l ++ a ∷ r
      → Freed (λ rounds. dc_free rounds (some (suc a)) m) cap a views (l ++ r)
  dc_free_lem m cap a views l r low high valid whole =
      let (n, m', v, run, has, left, f, rest) =
        dc_free-Back malloc m cap a (views cap) (valid cap low high) l r high whole in
      (n, m', v, run, left, Valid_updated malloc m m' cap views v low f valid has, rest)

  update_twice :
      (views : ℕ → View) (cap : ℕ) (v w : View) (m : Memory)
      → Valid malloc m (update (update views cap v) cap w)
      → Valid malloc m (update views cap w)
  update_twice views cap v w m valid c low high =
      subst (HasClass malloc m c)
        (elim (Bool-cases (c == cap)) [ inl e ↦ rw (e) refl | inr e ↦ rw (e) refl ])
        (valid c low high)

  -- `dc_free` of the chunk that `dc_alloc` gave leaves the callers with the chunks that they had, in
  -- the same order, and tables that hold their chunks.
  pub dc_free-dc_alloc :
      (garbage : Heap) (rounds size : ℕ) (m : Memory) (views : ℕ → View)
      → Spaced malloc
      → 2 ≤ size
      → size ≤ 2 ^ 30
      → length (chunks (views (cap_of size))) + 2 < 2 ^ 16
      → Valid malloc m views
      → (ptr : Pointer) × (m' : Memory) × (dc_alloc malloc garbage (suc rounds) size m
          ≡ some (ptr, m'))
        × Regained
            (λ rounds'. dc_free rounds' ptr m')
            (cap_of size)
            views
            (out (views (cap_of size)))
  dc_free-dc_alloc garbage rounds size m views spaced low high few valid =
      let cap = cap_of size in
      let (a, m', v, run, _, fits, (l, r, before, after), _, valid', _) =
        dc_alloc_lem malloc garbage rounds size m views spaced low high few valid in
      let (pos, small_cap) = cap_of_bounds size low high in
      let (n, m'', w, run', left, valid'', _) =
        dc_free_lem m' cap a (update views cap v) l r pos small_cap valid'
          (ap out (update_same views cap v) ∙ after) in
      (
        some (suc a),
        m',
        run,
        (n, m'', w, run', left ∙ sym before, update_twice views cap v w m'' valid''),
      )
