-- ===== src/Server/Tcp/Reply.antt =====
-- `do_search` of serv_thread_make.c against a description of the reply.
use dnscache.Common.{
  ℕ, ◌+◌, ◌*◌, ◌^◌, ◌<◌, ◌≡◌, refl, Option, some, List, [], ◌∷◌, ◌++◌, length, All, arith,
  append-nil, length-append, take-append,
}
use dnscache.Common.Bytes.{poke-append}
use dnscache.Protocol.{encode}
use dnscache.Kache.{Kache}
use dnscache.Search.{Node, tcp_policy}
use dnscache.Search.InPlace.{
  IsLong, answers, all_misses, length-answers, search_names, length-encode,
}
use dnscache.Server.Tcp.{writev, tcp_finished, first_flag, follow_up, respond, do_search}

respond_lem :
    (front out left : List ℕ) (flag readcount n : ℕ) (misses : List Node)
    → length front ≡ 12
    → length out ≡ 4 * n
    → respond
        (front ++ flag ∷ [])
        (record { buf = out ++ left; readcount = readcount; ipcount = n; misses = misses })
      ≡ some (
          writev ((front ++ first_flag misses ∷ []) ++ out)
          ∷ follow_up (front ++ first_flag misses ∷ []) misses
          ∷ [])
unfolding respond
respond_lem front out left flag readcount n misses twelve len = rw (
  ← twelve,
  poke-append front (flag ∷ []) [] (first_flag misses ∷ []) refl,
  ← len,
  take-append out left,
)

module _ (trie_retrieve : List ℕ → Option ℕ) (kache_at : ℕ → Kache) (clock : ℕ → ℕ) where
  pub do_search_lem :
      (front : List ℕ) (flag : ℕ) (name : List ℕ) (names : List (List ℕ))
      → length front ≡ 12
      → All IsLong (name ∷ names)
      → length (encode (name ∷ names)) < 2 ^ 31
      → let misses = all_misses trie_retrieve kache_at clock tcp_policy 0 (name ∷ names) in
        let head = front ++ first_flag misses ∷ [] in
        do_search trie_retrieve kache_at clock
          (front ++ flag ∷ [])
          (encode (name ∷ names))
          (length (encode (name ∷ names)))
        ≡ some (
            writev (head ++ answers trie_retrieve kache_at clock tcp_policy 0 (name ∷ names))
            ∷ follow_up head misses
            ∷ [])
  unfolding do_search
  do_search_lem front flag name names twelve long small =
      let all = encode (name ∷ names) in
      let (left, run) =
        search_names trie_retrieve kache_at clock tcp_policy (tcp_finished (length all))
          (length all + 1) [] name names (λ r. ground arith) long
          (omega (arith, length-encode names, length-append name (0 ∷ encode names))) in
      let run' = rw (append-nil all) at run in
      rw (run', do_search)
        (respond_lem front (answers trie_retrieve kache_at clock tcp_policy 0 (name ∷ names)) left
          flag (length all) (length (name ∷ names))
          (all_misses trie_retrieve kache_at clock tcp_policy 0 (name ∷ names)) twelve
          (length-answers trie_retrieve kache_at clock tcp_policy 0 (name ∷ names)))
