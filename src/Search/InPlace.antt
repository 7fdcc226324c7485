-- ===== src/Search/InPlace.antt =====
-- The loop answers in place: while every name has three bytes or more, an address never overwrites
-- a name that is still to be read.
use dnscache.Common.{
  ℕ, zero, suc, ◌+◌, ◌*◌, ◌<◌, ◌≡◌, refl, sym, ap, ◌∙◌, ap₂, Bool, true, false, Option, some, List,
  [], ◌∷◌, ◌++◌, leb, length, All, drop, arith, append_assoc, append-nil, length-append, le→leb,
  lt→leb,
}
use dnscache.Common.Bytes.{le32, length-le32}
use dnscache.Protocol.{encode}
use dnscache.Kache.{Kache}
use dnscache.Search.{Node, Search, Policy, answer, miss_nodes, visit, search_loop, start}
pub use dnscache.Search.Buffer.{IsLong, length-encode}
use dnscache.Search.Buffer.{read_name, length-done, write_answer}

-- The answers, and the names to resolve, of the names from the `i`-th on.
module _ (trie_retrieve : List ℕ → Option ℕ) (kache_at : ℕ → Kache) (clock : ℕ → ℕ)
    (policy : Policy) where
  unfoldable pub answers : ℕ → List (List ℕ) → List ℕ
  answers i [] = []
  answers i (name ∷ names) =
      le32 (answer trie_retrieve kache_at clock policy i name) ++ answers (i + 1) names

  unfoldable pub all_misses : ℕ → List (List ℕ) → List Node
  all_misses i [] = []
  all_misses i (name ∷ names) =
      miss_nodes trie_retrieve kache_at clock policy i name ++ all_misses (i + 1) names

  -- The buffer in three parts: addresses, bytes that are no longer needed, and the names to come.
  abbrev state : (out junk rest : List ℕ) → ℕ → List Node → Search
  state out junk rest i misses = record {
    buf = out ++ (junk ++ rest);
    readcount = length out + length junk;
    ipcount = i;
    misses = misses;
  }

  visit-state :
      (out junk name rest : List ℕ) (i : ℕ) (misses : List Node)
      → length out ≡ 4 * i
      → IsLong name
      → let done = junk ++ (name ++ 0 ∷ []) in
        visit trie_retrieve kache_at clock policy (state out junk (name ++ 0 ∷ rest) i misses)
        ≡ some (
            state
              (out ++ le32 (answer trie_retrieve kache_at clock policy i name))
              (drop 4 done)
              rest
              (i + 1)
              (misses ++ miss_nodes trie_retrieve kache_at clock policy i name))
  unfolding visit
  visit-state out junk name rest i misses e long =
      let word = answer trie_retrieve kache_at clock policy i name in
      rw
        (
          read_name out junk name rest long.0,
          visit,
          write_answer out junk name rest (le32 word) (4 * i) e long.1 (length-le32 word),
        )
        (ap
          (λ n. some (record {
            buf = (out ++ le32 word) ++ (drop 4 (junk ++ (name ++ 0 ∷ [])) ++ rest);
            readcount = n;
            ipcount = i + 1;
            misses = misses ++ miss_nodes trie_retrieve kache_at clock policy i name;
          }))
          (sym (length-done out junk name word long.1)))

  visit-encode :
      (out junk name : List ℕ) (names : List (List ℕ)) (after : List ℕ) (i : ℕ) (misses : List Node)
      → length out ≡ 4 * i
      → IsLong name
      → visit trie_retrieve kache_at clock policy
          (state out junk (encode (name ∷ names) ++ after) i misses)
        ≡ some (
            state
              (out ++ le32 (answer trie_retrieve kache_at clock policy i name))
              (drop 4 (junk ++ (name ++ 0 ∷ [])))
              (encode names ++ after)
              (i + 1)
              (misses ++ miss_nodes trie_retrieve kache_at clock policy i name))
  visit-encode out junk name names after i misses e long =
      rw (append_assoc name (0 ∷ encode names) after)
        (visit-state out junk name (encode names ++ after) i misses e long)

  state_path :
      {out out' : List ℕ} {misses misses' : List Node} (left after : List ℕ) {i i' : ℕ}
      → out ≡ out'
      → i ≡ i'
      → misses ≡ misses'
      → some (state out left after i misses) ≡ some (state out' left after i' misses')
  state_path left after p q r = cc

  module _ (finished : ℕ → Bool) where
    loop_stop :
        (fuel : ℕ) (s s' : Search)
        → visit trie_retrieve kache_at clock policy s ≡ some s'
        → finished s'.readcount ≡ true
        → search_loop trie_retrieve kache_at clock policy finished (suc fuel) s ≡ some s'
    unfolding search_loop
    loop_stop fuel s s' e f = rw (e, search_loop, f) refl

    loop_more :
        (fuel : ℕ) (s s' : Search)
        → visit trie_retrieve kache_at clock policy s ≡ some s'
        → finished s'.readcount ≡ false
        → search_loop trie_retrieve kache_at clock policy finished (suc fuel) s
          ≡ search_loop trie_retrieve kache_at clock policy finished fuel s'
    unfolding search_loop
    loop_more fuel s s' e f = rw (e, search_loop, f) refl

    -- Where the loop ends, from any of its rounds.
    Ends :
        (fuel : ℕ) (out junk after : List ℕ) (i : ℕ) (misses : List Node) → List (List ℕ) → Type 0
    Ends fuel out junk after i misses names =
        (left : List ℕ) × (search_loop trie_retrieve kache_at clock policy finished fuel
            (state out junk (encode names ++ after) i misses)
          ≡ some (
              state (out ++ answers i names) left after (i + length names)
                (misses ++ all_misses i names)))
        × (length out + length junk + length (encode names)
            ≡ length (out ++ answers i names) + length left)

    loop_lem :
        (limit : ℕ)
        → ((r : ℕ) → finished r ≡ leb limit r)
        → (fuel : ℕ) (out junk after : List ℕ) (i : ℕ) (misses : List Node) (name : List ℕ)
          (names : List (List ℕ))
        → length out ≡ 4 * i
        → All IsLong (name ∷ names)
        → length out + length junk + length (encode (name ∷ names)) ≡ limit
        → length names < fuel
        → Ends fuel out junk after i misses (name ∷ names)
    unfolding Ends answers all_misses
    loop_lem limit fin zero out junk after i misses name names e long l f = absurd (omega arith)
    loop_lem limit fin (suc fuel) out junk after i misses name [] e long l f =
        let word = answer trie_retrieve kache_at clock policy i name in
        let nodes = miss_nodes trie_retrieve kache_at clock policy i name in
        let left = drop 4 (junk ++ (name ++ 0 ∷ [])) in
        let len = length-done out junk name word long.0.1 in
        (
          left,
          loop_stop fuel _ _ (visit-encode out junk name [] after i misses e long.0)
                (fin _ ∙ le→leb (omega (arith, len, length-append name (0 ∷ []))))
              ∙ state_path left after (ap (λ o. out ++ o) (sym (append-nil (le32 word)))) refl
                  (ap (λ m. misses ++ m) (sym (append-nil nodes))),
          rw (append-nil (le32 word)) (omega (arith, len, length-append name (0 ∷ []))),
        )
    loop_lem limit fin (suc fuel) out junk after i misses name (next ∷ names) e long l f =
        let word = answer trie_retrieve kache_at clock policy i name in
        let nodes = miss_nodes trie_retrieve kache_at clock policy i name in
        let len = length-done out junk name word long.0.1 in
        let size = length-append name (0 ∷ encode (next ∷ names)) in
        let grown = length-append out (le32 word) in
        let more = length-append next (0 ∷ encode names) in
        let (left, run, total) =
          loop_lem limit fin fuel (out ++ le32 word) (drop 4 (junk ++ (name ++ 0 ∷ []))) after
            (i + 1) (misses ++ nodes) next names (omega (arith, grown, length-le32 word)) long.1
            (omega (arith, len, size)) (omega arith) in
        (
          left,
          loop_more fuel _ _ (visit-encode out junk name (next ∷ names) after i misses e long.0)
                (fin _ ∙ lt→leb (omega (arith, len, size, more)))
              ∙ run
              ∙ state_path left after
                  (append_assoc out (le32 word) (answers (i + 1) (next ∷ names))) (omega arith)
                  (append_assoc misses nodes (all_misses (i + 1) (next ∷ names))),
          rw (← append_assoc out (le32 word) (answers (i + 1) (next ∷ names)))
              (omega (arith, len, size, total)),
        )

  pub length-answers : (i : ℕ) (names : List (List ℕ)) → length (answers i names) ≡ 4 * length names
  unfolding answers
  length-answers i [] = omega arith
  length-answers i (name ∷ names) =
      let word = answer trie_retrieve kache_at clock policy i name in
      omega (
        arith,
        length-append (le32 word) (answers (i + 1) names),
        length-le32 word,
        length-answers (i + 1) names,
      )

  -- On a request of long names the loop ends with one address for each name at the start of the
  -- buffer, in order, with the misses in order, and with every byte of the request read.
  pub search_names :
      (finished : ℕ → Bool) (fuel : ℕ) (after name : List ℕ) (names : List (List ℕ))
      → ((r : ℕ) → finished r ≡ leb (length (encode (name ∷ names))) r)
      → All IsLong (name ∷ names)
      → length names < fuel
      → (left : List ℕ) × (search_loop trie_retrieve kache_at clock policy finished fuel
            (start (encode (name ∷ names) ++ after))
          ≡ some (record {
            buf = answers 0 (name ∷ names) ++ left;
            readcount = length (encode (name ∷ names));
            ipcount = length (name ∷ names);
            misses = all_misses 0 (name ∷ names);
          }))
  unfolding Ends
  search_names finished fuel after name names fin long more =
      let (left, run, total) =
        loop_lem finished (length (encode (name ∷ names))) fin fuel [] [] after 0 [] name names
          (omega arith) long (omega arith) more in
      (
        left ++ after,
        run
            ∙ ap₂
                (λ r n. some (record {
                  buf = answers 0 (name ∷ names) ++ (left ++ after);
                  readcount = r;
                  ipcount = n;
                  misses = all_misses 0 (name ∷ names);
                }))
                (omega arith) (omega arith),
      )
