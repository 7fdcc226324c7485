-- ===== src/Memory/Alloc/Stock.antt =====
-- A memory with two new chunks in an extra list, as `mk_el` and `expand_el` of src/server/dc_mm1.c
-- leave it.
use dnscache.Common.{
  ℕ, ◌+◌, ◌≤◌, ◌≡◌, refl, sym, ap, ◌∙◌, some, Option, List, [], ◌∷◌, ◌++◌, length, All, update,
  arith,
}
use mathlib.Core.Path.{subst}
use dnscache.Slist.Chains.{append-All, update_same, update_other}
use dnscache.Slist.Views.{All-weaker}
use dnscache.Memory.Chunks.{ExtraListManager, Memory}
use dnscache.Memory.Alloc.{is_extra}
use dnscache.Memory.Blocks.{
  Spaced, Old, Old-more, made, stamped, Old-made, stamped-made, stamped-Old, Distinct-made,
}
use dnscache.Memory.Views.{View, IsList, Marked, HasClass, Frame}
use dnscache.Memory.Frames.{Good, IsPre-later}

-- A capacity without idle chunks of its own.
abbrev pub busy : (given idle extra_given : List ℕ) → View
busy given idle extra_given = record {
  pre_idle = [];
  pre_out = given;
  extra_idle = idle;
  extra_out = extra_given;
}

module _ (malloc : ℕ → ℕ) (spaced : Spaced malloc) where
  All-Marked :
      (m : Memory) (calls cap : ℕ) (w : ℕ → ℕ)
      → m.calls ≡ calls
      → m.capacity_word ≡ w
      → (xs : List ℕ) → All (Old malloc calls) xs
      → All (λ a. w a ≡ cap) xs
      → All (Marked malloc m cap) xs
  All-Marked m calls cap w e f [] old word = tt
  All-Marked m calls cap w e f (a ∷ xs) old word = (
    (subst (λ c. Old malloc c a) (sym e) old.0, ap (λ g. g a) f ∙ word.0),
    All-Marked m calls cap w e f xs old.1 word.1,
  )

  -- New chunks before those that there are.
  pub Good-new :
      (m m' : Memory) (j n cap : ℕ) (xs : List ℕ)
      → m.calls ≤ j
      → m'.calls ≡ j + n
      → m'.capacity_word ≡ stamped malloc n j cap m.capacity_word
      → Good (Marked malloc m cap) xs
      → Good (Marked malloc m' cap) (made malloc n j ++ xs)
  Good-new m m' j n cap xs l calls' words' (all, d) =
      let k = m.calls in
      let w = stamped malloc n j cap m.capacity_word in
      (
        append-All (Marked malloc m' cap) (made malloc n j) xs
            (All-Marked m' (j + n) cap w calls' words' (made malloc n j) (Old-made malloc n j)
              (stamped-made malloc n j cap m.capacity_word))
            (All-weaker (Marked malloc m cap) (Marked malloc m' cap) xs
              (λ a o. (
                subst (λ c. Old malloc c a) (sym calls')
                    (Old-more malloc k (j + n) a (omega arith) o.0),
                ap (λ f. f a) words'
                    ∙ (stamped-Old malloc spaced n k j cap m.capacity_word a l o.0 ∙ o.1),
              ))
              all),
        Distinct-made malloc spaced n k j xs l
            (All-weaker (Marked malloc m cap) (Old malloc k) xs (λ a o. o.0) all) d,
      )

  -- The memory after two new chunks and an update of `elm_table`.
  abbrev pub stocked : (before cap : ℕ) → ExtraListManager → Memory → Memory
  stocked before cap e m = record m {
    elm_table = update m.elm_table cap (some e);
    calls = m.calls + before + 2;
    capacity_word = stamped malloc 2 (m.calls + before) cap m.capacity_word;
  }

  pub stocked-Frame :
      (before cap : ℕ) (e : ExtraListManager) (m : Memory)
      → Frame malloc m (stocked before cap e m) cap
  stocked-Frame before cap e m = record {
    tables = λ i ne. refl;
    lists = λ c ne. update_other m.elm_table cap c (some e) ne;
    pre_locks = refl;
    extra_locks = refl;
    later = omega arith;
    words = λ a old.
        stamped-Old malloc spaced 2 m.calls (m.calls + before) cap m.capacity_word a (omega arith)
          old;
  }

  -- What `ensure_extra` gives: a list with an idle chunk.
  abbrev pub Ensured :
      Option Memory → Memory → (cap : ℕ) → (given idle extra_given : List ℕ) → Type 0
  Ensured r m cap given idle extra_given =
      (m' : Memory) × (a : ℕ) × (rest : List ℕ) × (r ≡ some m')
      × HasClass malloc m' cap (busy given (a ∷ rest) extra_given)
      × (length (a ∷ rest) ≤ length idle + 2)
      × Frame malloc m m' cap

  pub stocked-HasClass :
      (before cap : ℕ) (e : ExtraListManager) (m : Memory) (given extra_given : List ℕ)
      → HasClass malloc m cap (busy given [] extra_given)
      → IsList malloc (m.calls + before + 2) e (made malloc 2 (m.calls + before)) extra_given
      → HasClass malloc
          (stocked before cap e m)
          cap
          (busy given (made malloc 2 (m.calls + before)) extra_given)
  stocked-HasClass before cap e m given extra_given has listed =
      let m' = stocked before cap e m in
      let (all, d) =
        Good-new m m' (m.calls + before) 2 cap (given ++ extra_given) (omega arith) refl refl
          (has.marked, has.distinct) in
      record {
        pre = IsPre-later malloc m.calls m'.calls (omega arith) (is_extra cap) _ [] given has.pre;
        extra = rw (update_same m.elm_table cap (some e)) listed;
        pre_lock = has.pre_lock;
        extra_lock = has.extra_lock;
        marked = all;
        distinct = d;
      }
