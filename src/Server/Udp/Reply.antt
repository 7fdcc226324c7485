-- ===== src/Server/Udp/Reply.antt =====
-- `udp_recv` and `do_search` of udp_server.c against a description of the reply.
use dnscache.Common.{
  ℕ, ◌+◌, ◌-◌, ◌*◌, ◌%◌, ◌^◌, ◌≤◌, ◌<◌, ◌≡◌, refl, ap, ◌∙◌, ap₂, true, false, Option, none, some,
  List, [], ◌∷◌, ◌++◌, leb, ◌==◌, length, All, drop, arith, append_assoc, length-append, take_all,
  take-append_at, drop-append_at,
}
use dnscache.Common.Bytes.{poke, poke_over, poke-append_at, load32, load32-append}
use dnscache.Protocol.{encode, head_length}
use dnscache.Kache.{Kache}
use dnscache.Search.{Node, udp_policy}
use dnscache.Search.InPlace.{
  IsLong, answers, all_misses, length-answers, search_names, length-encode,
}
use dnscache.Search.Expected.{udp_hit, flag_of, reply_words, missed_nodes, udp_answers}
use dnscache.Server.Tcp.{first_flag}
use dnscache.Server.Tcp.Receive.{request_front, head_words}
use dnscache.Server.Udp.{max_udp_length, udp_finished, finish, search_body, do_search, udp_recv}

first_flag-flag_of : (misses : List Node) → first_flag misses ≡ flag_of misses
first_flag-flag_of [] = refl
first_flag-flag_of (m ∷ misses) = refl

finish_lem :
    (front out left : List ℕ) (flag readcount n : ℕ) (misses : List Node)
    → length front ≡ 12
    → length out ≡ 4 * n
    → finish
        (front ++ flag ∷ [])
        true
        (record { buf = out ++ left; readcount = readcount; ipcount = n; misses = misses })
      ≡ some (record {
        readbuf = (front ++ first_flag misses ∷ []) ++ (out ++ left);
        reply = some ((front ++ first_flag misses ∷ []) ++ out);
        misses = misses;
      })
unfolding finish
finish_lem front out left flag readcount n misses twelve len =
    let v = first_flag misses in
    let head = front ++ v ∷ [] in
    let size : length (head ++ out) ≡ head_length + n * 4 =
      omega (arith, length-append head out, length-append front (v ∷ [])) in
    rw (poke-append_at front (flag ∷ []) [] (v ∷ []) 12 twelve refl, ← append_assoc head out left)
      (ap (λ m. some (record { readbuf = (head ++ out) ++ left; reply = some m; misses = misses }))
        (take-append_at (head_length + n * 4) (head ++ out) left size))

module _ (trie_retrieve : List ℕ → Option ℕ) (kache_at : ℕ → Kache) (clock : ℕ → ℕ) where
  do_search_lem :
      (front : List ℕ) (flag : ℕ) (name : List ℕ) (names : List (List ℕ)) (after : List ℕ)
      → length front ≡ 12
      → load32 (front ++ flag ∷ []) 0 ≡ some (head_length + length (encode (name ∷ names)))
      → All IsLong (name ∷ names)
      → head_length + length (encode (name ∷ names)) < 2 ^ 32
      → let misses = all_misses trie_retrieve kache_at clock udp_policy 0 (name ∷ names) in
        let head = front ++ first_flag misses ∷ [] in
        (readbuf : List ℕ) × (do_search trie_retrieve kache_at clock
            ((front ++ flag ∷ []) ++ (encode (name ∷ names) ++ after))
            true
          ≡ some (record {
            readbuf = readbuf;
            reply = some (head ++ answers trie_retrieve kache_at clock udp_policy 0 (name ∷ names));
            misses = misses;
          }))
  unfolding do_search search_body
  do_search_lem front flag name names after twelve total long small =
      let all = encode (name ∷ names) in
      let out = answers trie_retrieve kache_at clock udp_policy 0 (name ∷ names) in
      let misses = all_misses trie_retrieve kache_at clock udp_policy 0 (name ∷ names) in
      let head = front ++ flag ∷ [] in
      let n = head_length + length all in
      let headed : length head ≡ head_length = omega (arith, length-append front (flag ∷ [])) in
      let limit : (n + 2 ^ 32 - head_length) % 2 ^ 32 ≡ length all = omega arith in
      let (left, run) =
        search_names trie_retrieve kache_at clock udp_policy (udp_finished n)
          (length (all ++ after) + 1) after name names (λ r. ap (λ k. leb k r) limit) long
          (omega (
            arith,
            length-append all after,
            length-encode names,
            length-append name (0 ∷ encode names),
          )) in
      let sized : (n == 0) ≡ false = ground arith in
      (
        (front ++ first_flag misses ∷ []) ++ (out ++ left),
        rw (load32-append head (all ++ after) 0 total, do_search, sized)
            (ap₂ (λ h b. search_body trie_retrieve kache_at clock h b n true)
                (take-append_at head_length head (all ++ after) headed)
                (drop-append_at head_length head (all ++ after) headed)
              ∙ rw (run, search_body)
                  (finish_lem front out left flag (length all) (length (name ∷ names)) misses twelve
                    (length-answers trie_retrieve kache_at clock udp_policy 0 (name ∷ names)))),
      )

  -- The answer to a datagram, in the terms of the loop.
  recv_request :
      (reserved : ℕ) (request_number name : List ℕ) (names : List (List ℕ)) (stale : List ℕ)
      → length request_number ≡ 4
      → All IsLong (name ∷ names)
      → length (encode (name ∷ names)) ≤ max_udp_length
      → length stale ≡ head_length + max_udp_length
      → let front = request_front (head_length + length (encode (name ∷ names))) request_number in
        let misses = all_misses trie_retrieve kache_at clock udp_policy 0 (name ∷ names) in
        let head = front ++ first_flag misses ∷ [] in
        (readbuf : List ℕ) × (udp_recv trie_retrieve kache_at clock stale
            ((front ++ reserved ∷ []) ++ encode (name ∷ names))
            true
          ≡ some (record {
            readbuf = readbuf;
            reply = some (head ++ answers trie_retrieve kache_at clock udp_policy 0 (name ∷ names));
            misses = misses;
          }))
  unfolding udp_recv
  recv_request reserved request_number name names stale four long small room =
      let all = encode (name ∷ names) in
      let total = head_length + length all in
      let front = request_front total request_number in
      let (twelve, first, second) = head_words total reserved request_number (omega arith) four in
      let head = front ++ reserved ∷ [] in
      let size = length-append head all in
      let headed : length head ≡ head_length = omega (arith, length-append front (reserved ∷ [])) in
      let after = drop (length (head ++ all)) stale in
      let cut =
        take_all (head_length + max_udp_length) (head ++ all) (omega (arith, size, headed)) in
      let received : poke stale 0 (head ++ all) ≡ some (head ++ (all ++ after)) =
        poke_over stale (head ++ all) (omega (arith, size, headed))
        ∙ ap some (append_assoc head all after) in
      let (readbuf, run) =
        do_search_lem front reserved name names after twelve first long (omega arith) in
      (readbuf, rw (cut, received, udp_recv, load32-append head (all ++ after) 4 second) run)

  -- A datagram with a correct head and one or more names of three bytes or more, in 128 KiB or
  -- less, is answered by the first twelve bytes of its own head (so the length in it is that of the
  -- request), the flag byte that says whether a name was missed, and one word a name in order: the
  -- address of a record that is not older than a day and does not hold 127.0.0.2, else 127.0.0.2. An
  -- earlier datagram in the buffer plays no part. The names without such a record are handed on,
  -- in order.
  pub udp_recv_lem :
      (reserved : ℕ) (request_number name : List ℕ) (names : List (List ℕ)) (stale : List ℕ)
      → length request_number ≡ 4
      → All IsLong (name ∷ names)
      → length (encode (name ∷ names)) ≤ max_udp_length
      → length stale ≡ head_length + max_udp_length
      → let front = request_front (head_length + length (encode (name ∷ names))) request_number in
        let words = reply_words trie_retrieve kache_at clock udp_hit 0 (name ∷ names) in
        let misses =
          missed_nodes trie_retrieve kache_at clock udp_hit (λ n. none) 0 (name ∷ names) in
        (readbuf : List ℕ) × (udp_recv trie_retrieve kache_at clock stale
            ((front ++ reserved ∷ []) ++ encode (name ∷ names))
            true
          ≡ some (record {
            readbuf = readbuf;
            reply = some ((front ++ flag_of misses ∷ []) ++ words);
            misses = misses;
          }))
  udp_recv_lem reserved request_number name names stale four long small room =
      let front = request_front (head_length + length (encode (name ∷ names))) request_number in
      let (words, misses) = udp_answers trie_retrieve kache_at clock 0 (name ∷ names) in
      let (readbuf, run) =
        recv_request reserved request_number name names stale four long small room in
      (
        readbuf,
        run
            ∙ ap₂
                (λ ws ms. some (record {
                  readbuf = readbuf;
                  reply = some ((front ++ first_flag ms ∷ []) ++ ws);
                  misses = ms;
                }))
                words misses
            ∙ ap
                (λ f. some (record {
                  readbuf = readbuf;
                  reply = some (
                      (front ++ f ∷ [])
                      ++ reply_words trie_retrieve kache_at clock udp_hit 0 (name ∷ names));
                  misses =
                      missed_nodes trie_retrieve kache_at clock udp_hit (λ n. none) 0
                        (name ∷ names);
                }))
                (first_flag-flag_of
                  (missed_nodes trie_retrieve kache_at clock udp_hit (λ n. none) 0 (name ∷ names))),
      )
