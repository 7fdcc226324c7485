-- ===== src/Slist/Examples.antt =====
-- The theorems on lists at concrete lists.
use dnscache.Common.{◌<◌, ℕ, ◌≡◌, refl, none, some, [], ◌∷◌, ◌==◌, if◌then◌else◌, arith}
use dnscache.Slist.{Slist, append, find, traverse, mv2head}
use dnscache.Slist.Chains.{Holds}
use dnscache.Slist.Ends.{Shows, Grown}
use dnscache.Slist.Append.{append_lem}
use dnscache.Slist.Walks.{traverse_lem, find_lem}
use dnscache.Slist.Mv2head.{Reordered, mv2head_lem}

-- Three nodes in use at 1, 2 and 3, one blank node at 4, and 9 for the block.
abbrev three : Slist
three = record {
  heap = λ a.
      if a == 1
      then record { data_ptr = some 7; next = some 2 }
      else if a == 2
      then record { data_ptr = some 8; next = some 3 }
      else if a == 3
      then record { data_ptr = some 6; next = none }
      else if a == 9
      then record { data_ptr = some 1; next = none }
      else record { data_ptr = none; next = none };
  head = some 1;
  end_ptr = some 3;
  blank = some 4;
  length = 3;
  capacity = 4;
  memlist = some 9;
}

three-Holds : Holds three (1 ∷ 2 ∷ 3 ∷ []) (4 ∷ []) (9 ∷ [])
three-Holds = record {
  in_use = (refl, (refl, (refl, refl)));
  in_blank = (refl, refl);
  in_memlist = (refl, refl);
  distinct = omega arith;
  ends = refl;
  counted = refl;
  room = refl;
}

-- A bound on the addresses of the nodes.
abbrev Small : ℕ → Type 0
Small a = a < 100

three-Shows : Shows Small three (some 7 ∷ some 8 ∷ some 6 ∷ []) 1
three-Shows = (1 ∷ 2 ∷ 3 ∷ [], 4 ∷ [], 9 ∷ [], three-Holds, refl, refl, omega arith)

append_lem_example :
    Grown Small (append (some 5) three) three (some 7 ∷ some 8 ∷ some 6 ∷ some 5 ∷ []) 1
append_lem_example = append_lem Small (some 5) three (some 7 ∷ some 8 ∷ some 6 ∷ []) 1 three-Shows

traverse_lem_example : traverse 4 three ≡ some (1 ∷ 2 ∷ 3 ∷ [])
traverse_lem_example =
    traverse_lem 4 three (1 ∷ 2 ∷ 3 ∷ []) (4 ∷ []) (9 ∷ []) three-Holds (omega arith)

find_lem_example : find 4 (some 6) three ≡ some 1
find_lem_example =
    find_lem 4 (some 6) three (1 ∷ 2 ∷ 3 ∷ []) (4 ∷ []) (9 ∷ []) three-Holds (omega arith)

mv2head_lem_example :
    (sl' : Slist) × (mv2head 4 (some 6) three ≡ some (0, sl'))
    × Reordered three sl' (3 ∷ 1 ∷ 2 ∷ []) (4 ∷ []) (9 ∷ [])
mv2head_lem_example =
    mv2head_lem 4 (some 6) three (1 ∷ 2 ∷ []) 3 [] (4 ∷ []) (9 ∷ []) three-Holds (refl, (refl, tt))
      refl (omega arith)
