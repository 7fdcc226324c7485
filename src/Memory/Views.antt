-- ===== src/Memory/Views.antt =====
-- What the tables of src/server/dc_mm1.c hold: for each capacity the chunks that are idle and those
-- that callers have.
use dnscache.Common.{
  ℕ, ◌+◌, ◌-◌, ◌^◌, ◌≤◌, ◌<◌, ◌≡◌, ◌≢◌, true, false, Bool, Option, none, some, List, [], ◌∷◌, ◌++◌,
  length, map, All,
}
use dnscache.Slist.Chains.{Distinct}
use dnscache.Slist.Ends.{Shows}
use dnscache.Memory.SizeClass.{biggest_cap}
use dnscache.Memory.Chunks.{small, ChunksManager, ExtraListManager, Memory}
use dnscache.Memory.Alloc.{is_extra}
use dnscache.Memory.Blocks.{Old}

-- The chunks of one capacity, by the address of the word before them: those of the tables
-- `chunks_manager_table` and `elm_table`, idle or with a caller.
pub record View : Type 0 where
  pub pre_idle : List ℕ
  pub pre_out : List ℕ
  pub extra_idle : List ℕ
  pub extra_out : List ℕ

abbrev pub out : View → List ℕ
out v = v.pre_out ++ v.extra_out

abbrev pub chunks : View → List ℕ
chunks v = (v.pre_idle ++ v.extra_idle) ++ out v

-- The second list is the first with one element more.
abbrev pub Inserted : ℕ → List ℕ → List ℕ → Type 0
Inserted a xs ys = (l : List ℕ) × (r : List ℕ) × (xs ≡ l ++ r) × (ys ≡ l ++ a ∷ r)

module _ (malloc : ℕ → ℕ) where
  -- The two lists of a class of its own: each has room for what the other holds.
  pub record IsManager (calls : ℕ) (mgr : ChunksManager) (idle given : List ℕ) : Type 0 where
    pub idle_shown : Shows (Old malloc calls) mgr.idle_chunks (map some idle) (length given)
    pub out_shown : Shows (Old malloc calls) mgr.alloced_chunks (map some given) (length idle)
    pub idle_counted : mgr.idle_num ≡ length idle
    pub few : length idle + length given < 2 ^ 16

  -- The list of an extra capacity: the idle chunks, then those that callers have, and no room.
  pub record IsList (calls : ℕ) (e : ExtraListManager) (idle given : List ℕ) : Type 0 where
    pub shown : Shows (Old malloc calls) e.chunks_list (map some (idle ++ given)) 0
    pub idle_counted : e.idle_num ≡ length idle
    pub total_counted : e.total_num ≡ length idle + length given
    pub few : length idle + length given < 2 ^ 16

  abbrev pub IsExtra : (calls : ℕ) → Option ExtraListManager → (idle given : List ℕ) → Type 0
  IsExtra calls none idle given = (idle ≡ []) × (given ≡ [])
  IsExtra calls (some e) idle given = IsList calls e idle given

  abbrev pub IsPre : (extra : Bool) (calls : ℕ) → ChunksManager → (idle given : List ℕ) → Type 0
  IsPre true calls mgr idle given = (idle ≡ []) × (given ≡ [])
  IsPre false calls mgr idle given = IsManager calls mgr idle given

  -- The word before a chunk in memory is its capacity.
  abbrev pub Marked : Memory → (cap : ℕ) → ℕ → Type 0
  Marked m cap a = Old malloc m.calls a × (m.capacity_word a ≡ cap)

  -- The chunks of one capacity, all different, and the mutexes that they need.
  pub record HasClass (m : Memory) (cap : ℕ) (v : View) : Type 0 where
    pub pre :
        IsPre (is_extra cap) m.calls (m.chunks_manager_table (cap - small)) v.pre_idle v.pre_out
    pub extra : IsExtra m.calls (m.elm_table cap) v.extra_idle v.extra_out
    pub pre_lock : is_extra cap ≡ false → m.pre_alloc_mutex (cap - small) ≡ true
    pub extra_lock : m.extra_mutex cap ≡ true
    pub marked : All (Marked m cap) (chunks v)
    pub distinct : Distinct (chunks v)

  abbrev pub Valid : Memory → (ℕ → View) → Type 0
  Valid m views = (cap : ℕ) → 1 ≤ cap → cap ≤ biggest_cap → HasClass m cap (views cap)

  -- What an operation on one capacity leaves.
  pub record Frame (m m' : Memory) (cap : ℕ) : Type 0 where
    pub tables : (i : ℕ) → i ≢ cap - small → m'.chunks_manager_table i ≡ m.chunks_manager_table i
    pub lists : (c : ℕ) → c ≢ cap → m'.elm_table c ≡ m.elm_table c
    pub pre_locks : m'.pre_alloc_mutex ≡ m.pre_alloc_mutex
    pub extra_locks : m'.extra_mutex ≡ m.extra_mutex
    pub later : m.calls ≤ m'.calls
    pub words : (a : ℕ) → Old malloc m.calls a → m'.capacity_word a ≡ m.capacity_word a
