-- ===== src/List2tri/Stored.antt =====
-- src/server/list2tri.c: which keys are stored, and under which numbers.
use dnscache.Common.{
  ℕ, zero, suc, ◌+◌, ◌≤◌, ◌<◌, ◌≡◌, ◌≢◌, refl, ap, ◌∙◌, some, List, [], ◌∷◌, ◌++◌, map, length,
  take, drop, All, arith, append_assoc, take-append_at, lt→leb,
}
use mathlib.Core.Path.{subst}
use dnscache.Common.Bytes.{IsString, c_string, c_string-append}
use dnscache.List2tri.{
  fgets_take, fgets, overwrite, cut_newline, replace_n, alpha_char, char2alphachar, int_max,
  store_key, store_lines, new_trie, list2tri,
}

-- A byte of a name: an ASCII character but NUL and the newline.
abbrev pub IsNameByte : ℕ → Type 0
IsNameByte b = (0 < b) × (b < 128) × (b ≢ 10)

-- A name that fits with its newline into what one `fgets` takes.
abbrev pub IsLine : List ℕ → Type 0
IsLine name = All IsNameByte name × (length name ≤ 78)

-- A list with one name per line.
abbrev pub text_of : List (List ℕ) → List ℕ
text_of [] = []
text_of (name ∷ names) = name ++ 10 ∷ text_of names

IsNameByte→IsString : (name : List ℕ) → All IsNameByte name → IsString name
IsNameByte→IsString [] h = tt
IsNameByte→IsString (b ∷ name) h = ((h.0.0, omega (arith, h.0.1)), IsNameByte→IsString name h.1)

fgets_take_line :
    (n : ℕ) (name left : List ℕ)
    → All IsNameByte name
    → length name < n
    → fgets_take n (name ++ 10 ∷ left) ≡ (name ++ 10 ∷ [], left)
unfolding fgets_take
fgets_take_line zero name left h l = absurd (omega arith)
fgets_take_line (suc n) [] left h l = refl
fgets_take_line (suc n) (c ∷ name) left h l =
    ground (arith, fgets_take_line n name left h.1 (omega arith))

-- A string that fills the room ends the line, so its newline is left.
fgets_take_full :
    (name left : List ℕ)
    → All IsNameByte name
    → fgets_take (length name) (name ++ left) ≡ (name, left)
unfolding fgets_take
fgets_take_full [] left h = refl
fgets_take_full (c ∷ name) left h = ground (arith, fgets_take_full name left h.1)

cut_newline_line :
    (n : ℕ) (name rest : List ℕ)
    → All IsNameByte name
    → length name < n
    → cut_newline n (name ++ 10 ∷ rest) ≡ name ++ 0 ∷ rest
unfolding cut_newline
cut_newline_line zero name rest h l = absurd (omega arith)
cut_newline_line (suc n) [] rest h l = refl
cut_newline_line (suc n) (c ∷ name) rest h l =
    ground (arith, cut_newline_line n name rest h.1 (omega arith))

take_prefix :
    (n : ℕ) (name rest : List ℕ)
    → length name < n
    → (more : List ℕ) × (take n (name ++ 0 ∷ rest) ≡ name ++ 0 ∷ more)
take_prefix zero name rest l = absurd (omega arith)
take_prefix (suc n) [] rest l = (take n rest, refl)
take_prefix (suc n) (c ∷ name) rest l =
    let (more, e) = take_prefix n name rest (omega arith) in (more, ap (λ s. c ∷ s) e)

map-alpha_char :
    (name rest : List ℕ)
    → All IsNameByte name
    → map alpha_char (name ++ 0 ∷ rest) ≡ name ++ 0 ∷ map alpha_char rest
unfolding alpha_char
map-alpha_char [] rest h = refl
map-alpha_char (c ∷ name) rest h = ground (arith, map-alpha_char name rest h.1)

-- What a key is read as, whatever follows its NUL in the buffer.
key_lem :
    (name more : List ℕ)
    → All IsNameByte name
    → length name < 80
    → c_string (char2alphachar (name ++ 0 ∷ more)) ≡ some name
unfolding char2alphachar
key_lem name more h l =
    let (kept, e) = take_prefix 80 name more l in
    ap c_string (ap (map alpha_char) e ∙ map-alpha_char name kept h)
    ∙ c_string-append name (map alpha_char kept) (IsNameByte→IsString name h)

cut_newline_full :
    (name rest : List ℕ)
    → All IsNameByte name
    → cut_newline (suc (length name)) (name ++ 0 ∷ rest) ≡ name ++ 0 ∷ rest
unfolding cut_newline
cut_newline_full [] rest h = refl
cut_newline_full (c ∷ name) rest h = ground (arith, cut_newline_full name rest h.1)

-- The name that a buffer holds after `fgets` and `replace_n`.
line_key :
    (buff name : List ℕ)
    → IsLine name
    → c_string (char2alphachar (replace_n (overwrite buff (name ++ 10 ∷ [])))) ≡ some name
unfolding replace_n
line_key buff name h =
    let rest = drop (suc (length (name ++ 10 ∷ []))) buff in
    let short : length name ≤ 78 = h.1 in
    let (kept, e) = take_prefix 79 name (0 ∷ rest) (omega arith) in
    rw
      (
        append_assoc name (10 ∷ []) (0 ∷ rest),
        cut_newline_line 80 name (0 ∷ rest) h.0 (omega arith),
        e,
        append_assoc name (0 ∷ kept) (0 ∷ drop 80 (name ++ 0 ∷ 0 ∷ rest)),
      )
      (key_lem name _ h.0 (omega arith))

full_key :
    (buff name : List ℕ)
    → All IsNameByte name
    → length name ≡ 79
    → c_string (char2alphachar (replace_n (overwrite buff name))) ≡ some name
unfolding replace_n
full_key buff name h l =
    let held = overwrite buff name in
    let rest = drop (suc (length name)) buff in
    let uncut : cut_newline 80 held ≡ held =
      subst (λ n. cut_newline (suc n) held ≡ held) l (cut_newline_full name rest h) in
    rw (uncut, take-append_at 79 name (0 ∷ rest) l) (key_lem name _ h (omega (arith, l)))

fgets_line :
    (buff name left : List ℕ)
    → IsLine name
    → fgets 80 buff (name ++ 10 ∷ left) ≡ some (overwrite buff (name ++ 10 ∷ []), left)
unfolding fgets
fgets_line buff [] left h =
    ap (λ r. some (overwrite buff r.0, r.1)) (fgets_take_line 79 [] left h.0 (omega arith))
fgets_line buff (c ∷ name) left h =
    let short : suc (length name) ≤ 78 = h.1 in
    ap (λ r. some (overwrite buff r.0, r.1)) (fgets_take_line 79 (c ∷ name) left h.0 (omega arith))

fgets_full :
    (buff name left : List ℕ)
    → All IsNameByte name
    → length name ≡ 79
    → fgets 80 buff (name ++ left) ≡ some (overwrite buff name, left)
unfolding fgets
fgets_full buff [] left h l = absurd (omega (arith, l))
fgets_full buff (c ∷ name) left h l =
    ap (λ r. some (overwrite buff r.0, r.1))
      (subst (λ n. fgets_take n (c ∷ name ++ left) ≡ (c ∷ name, left)) l
        (fgets_take_full (c ∷ name) left h))

module _ {ℓ} {Trie : Type ℓ} (trie_store : Trie → List ℕ → ℕ → Trie) where
  -- The names in their order, under numbers that count up.
  abbrev pub store_all : Trie → ℕ → List (List ℕ) → Trie
  store_all trie var [] = trie
  store_all trie var (name ∷ names) = store_all (trie_store trie name var) (var + 1) names

  -- One round of the loop, whose `fgets` leaves the name `name`.
  store_lines_step :
      (rounds : ℕ) (buff line : List ℕ) (var : ℕ) (trie : Trie) (domains left name : List ℕ)
      → fgets 80 buff domains ≡ some (line, left)
      → c_string (char2alphachar (replace_n line)) ≡ some name
      → var < int_max
      → store_lines trie_store (suc rounds) buff var trie domains
        ≡ store_lines trie_store rounds (replace_n line) (var + 1) (trie_store trie name var) left
  unfolding store_lines store_key
  store_lines_step rounds buff line var trie domains left name f k l =
      rw (store_lines, f, store_key, k, lt→leb {a = int_max} {b = var} l) refl

  store_lines_text :
      (rounds : ℕ) (buff : List ℕ) (var : ℕ) (trie : Trie) (names : List (List ℕ))
      → All IsLine names
      → length names < rounds
      → var + length names ≤ int_max
      → store_lines trie_store rounds buff var trie (text_of names)
        ≡ some (store_all trie var names)
  unfolding store_lines
  store_lines_text zero buff var trie names h l m = absurd (omega arith)
  store_lines_text (suc rounds) buff var trie [] h l m = refl
  store_lines_text (suc rounds) buff var trie (name ∷ names) h l m =
      store_lines_step rounds buff _ var trie _ (text_of names) name
        (fgets_line buff name (text_of names) h.0) (line_key buff name h.0) (omega arith)
      ∙ store_lines_text rounds _ (var + 1) (trie_store trie name var) names h.1 (omega arith)
          (omega arith)

  -- A line of 79 bytes: the next `fgets` finds its newline alone, and stores an empty name.
  store_lines_long :
      (rounds : ℕ) (buff : List ℕ) (var : ℕ) (trie : Trie) (name : List ℕ) (names : List (List ℕ))
      → All IsNameByte name
      → length name ≡ 79
      → All IsLine names
      → length names + 2 < rounds
      → var + length names + 2 ≤ int_max
      → store_lines trie_store rounds buff var trie (text_of (name ∷ names))
        ≡ some (store_all trie var (name ∷ [] ∷ names))
  store_lines_long zero buff var trie name names h l hs r m = absurd (omega arith)
  store_lines_long (suc rounds) buff var trie name names h l hs r m =
      store_lines_step rounds buff _ var trie _ (text_of ([] ∷ names)) name
        (fgets_full buff name (text_of ([] ∷ names)) h l) (full_key buff name h l) (omega arith)
      ∙ store_lines_text rounds _ (var + 1) (trie_store trie name var) ([] ∷ names)
          ((tt, omega arith), hs) (omega arith) (omega arith)

  module _ {ℓm} {AlphaMap : Type ℓm} (alpha_map_new : AlphaMap)
      (alpha_map_add_range : AlphaMap → ℕ → ℕ → AlphaMap) (trie_new : AlphaMap → Trie) where
    pub list2tri-text_of :
        (rounds : ℕ) (names : List (List ℕ))
        → All IsLine names
        → length names < rounds
        → length names < int_max
        → list2tri trie_store alpha_map_new alpha_map_add_range trie_new rounds
            (some (text_of names))
          ≡ some (store_all (new_trie alpha_map_new alpha_map_add_range trie_new) 1 names)
    unfolding list2tri
    list2tri-text_of rounds names h l m = store_lines_text rounds _ 1 _ names h l (omega arith)

    -- The tool reads 79 bytes at a time. A first line of 79 bytes counts as two: its newline is
    -- stored as an empty name under the number 2, and the names of the lines below get numbers that
    -- are larger by one than their lines.
    pub list2tri_long_line :
        (rounds : ℕ) (name : List ℕ) (names : List (List ℕ))
        → All IsNameByte name
        → length name ≡ 79
        → All IsLine names
        → length names + 2 < rounds
        → length names + 3 ≤ int_max
        → list2tri trie_store alpha_map_new alpha_map_add_range trie_new rounds
            (some (text_of (name ∷ names)))
          ≡ some (
              store_all (new_trie alpha_map_new alpha_map_add_range trie_new) 1 (name ∷ [] ∷ names))
    unfolding list2tri
    list2tri_long_line rounds name names h l hs r m =
        store_lines_long rounds _ 1 _ name names h l hs r (omega arith)
