-- ===== src/Memory/Frames.antt =====
-- Operations on one capacity, and the others.
use dnscache.Common.{
  ℕ, ◌-◌, ◌≤◌, ◌≢◌, sym, ◌∙◌, Bool, true, false, Option, none, some, List, ◌∷◌, ◌++◌, All, arith,
  update, ℕ_discrete,
}
use mathlib.Core.Path.{subst}
use dnscache.Slist.{Slist, Pointer}
use dnscache.Slist.Chains.{
  Distinct, Distinct-middle, Distinct-insert, All-append, append-All, update_same, update_other,
}
use dnscache.Slist.Ends.{Shows}
use dnscache.Slist.Views.{All-weaker}
use dnscache.Memory.Chunks.{small, ChunksManager, ExtraListManager, Memory}
use dnscache.Memory.Alloc.{is_extra}
use dnscache.Memory.Blocks.{Old, Old-more}
use dnscache.Memory.Views.{View, chunks, IsExtra, IsPre, Marked, HasClass, Valid, Frame}

Shows-weaker :
    (P Q : ℕ → Type 0) (sl : Slist) (ds : List Pointer) (room : ℕ)
    → ((a : ℕ) → P a → Q a)
    → Shows P sl ds room
    → Shows Q sl ds room
Shows-weaker P Q sl ds room f (used, free, mems, holds, c, e, all) =
    (used, free, mems, holds, c, e, All-weaker P Q (used ++ (free ++ mems)) f all)

-- One element goes to the head, or comes from there.
module _ (P : ℕ → Type 0) where
  abbrev pub Good : List ℕ → Type 0
  Good xs = All P xs × Distinct xs

  pub Good-first : (xs : List ℕ) (a : ℕ) (ys : List ℕ) → Good (xs ++ a ∷ ys) → Good (a ∷ (xs ++ ys))
  Good-first xs a ys (all, d) =
      let (l, r) = All-append P xs (a ∷ ys) all in
      ((r.0, append-All P xs ys l r.1), Distinct-middle xs a ys d)

  pub Good-insert :
      (xs : List ℕ) (a : ℕ) (ys : List ℕ) → Good (a ∷ (xs ++ ys)) → Good (xs ++ a ∷ ys)
  Good-insert xs a ys ((p, all), (n, d)) =
      let (l, r) = All-append P xs ys all in
      (append-All P xs (a ∷ ys) l (p, r), Distinct-insert xs a ys n d)

module _ (malloc : ℕ → ℕ) where
  module _ (calls more : ℕ) (l : calls ≤ more) where
    pub shown_later :
        (sl : Slist) (ds : List Pointer) (room : ℕ)
        → Shows (Old malloc calls) sl ds room
        → Shows (Old malloc more) sl ds room
    shown_later sl ds room s =
        Shows-weaker (Old malloc calls) (Old malloc more) sl ds room
          (λ a o. Old-more malloc calls more a l o) s

    pub IsPre-later :
        (extra : Bool) (mgr : ChunksManager) (idle given : List ℕ)
        → IsPre malloc extra calls mgr idle given
        → IsPre malloc extra more mgr idle given
    IsPre-later true mgr idle given p = p
    IsPre-later false mgr idle given p = record {
      idle_shown = shown_later mgr.idle_chunks _ _ p.idle_shown;
      out_shown = shown_later mgr.alloced_chunks _ _ p.out_shown;
      idle_counted = p.idle_counted;
      few = p.few;
    }

    pub IsExtra-later :
        (o : Option ExtraListManager) (idle given : List ℕ)
        → IsExtra malloc calls o idle given
        → IsExtra malloc more o idle given
    IsExtra-later none idle given p = p
    IsExtra-later (some e) idle given p = record {
      shown = shown_later e.chunks_list _ _ p.shown;
      idle_counted = p.idle_counted;
      total_counted = p.total_counted;
      few = p.few;
    }

  pub Marked-kept :
      (m m' : Memory) (cap c : ℕ) (xs : List ℕ)
      → Frame malloc m m' cap
      → All (Marked malloc m c) xs
      → All (Marked malloc m' c) xs
  Marked-kept m m' cap c xs f all =
      All-weaker (Marked malloc m c) (Marked malloc m' c) xs
        (λ a o. (Old-more malloc m.calls m'.calls a f.later o.0, f.words a o.0 ∙ o.1)) all

  -- A capacity keeps its chunks while another one changes.
  HasClass-kept :
      (m m' : Memory) (cap c : ℕ) (v : View)
      → 1 ≤ cap
      → 1 ≤ c
      → c ≢ cap
      → Frame malloc m m' cap
      → HasClass malloc m c v
      → HasClass malloc m' c v
  HasClass-kept m m' cap c v l lc ne f has = record {
    pre =
        rw (f.tables (c - small) (λ e. ne (omega (arith, e))))
          (IsPre-later m.calls m'.calls f.later (is_extra c) _ v.pre_idle v.pre_out has.pre);
    extra =
        rw (f.lists c ne) (
          IsExtra-later m.calls m'.calls f.later (m.elm_table c) v.extra_idle v.extra_out
            has.extra);
    pre_lock = λ e. rw (f.pre_locks) (has.pre_lock e);
    extra_lock = rw (f.extra_locks) has.extra_lock;
    marked = Marked-kept m m' cap c (chunks v) f has.marked;
    distinct = has.distinct;
  }

  pub Valid_updated :
      (m m' : Memory) (cap : ℕ) (views : ℕ → View) (v : View)
      → 1 ≤ cap
      → Frame malloc m m' cap
      → Valid malloc m views
      → HasClass malloc m' cap v
      → Valid malloc m' (update views cap v)
  Valid_updated m m' cap views v l f valid has c low high = elim (ℕ_discrete c cap) [
    | yes e ↦
        subst (λ x. HasClass malloc m' x (update views cap v x)) (sym e)
          (rw (update_same views cap v) has)
    | no ne ↦
        rw (update_other views cap c v ne)
          (HasClass-kept m m' cap c (views c) l low ne f (valid c low high))
  ]
