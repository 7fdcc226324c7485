-- ===== src/Server/Tcp/Receive.antt =====
-- `serv` of src/server/serv_thread_make.c: the request is put together again however the stream splits
-- its body.
use dnscache.Common.{
  ℕ, ◌+◌, ◌-◌, ◌^◌, ◌≤◌, ◌<◌, ◌≡◌, refl, sym, ap, ap₂, ◌∙◌, ◌≢◌, true, false, Option, some, List,
  [], ◌∷◌, ◌++◌, leb, ltb, ◌==◌, length, All, take, concat, arith, append-nil, append_assoc,
  length-append, take-append-drop, take, drop, length-take_le, length-drop, le→leb, lt→leb, ge→ltb,
}
use dnscache.Common.Bytes.{poke, poke-append, le32, load32, load32-le32, load32_inside, length-le32}
use dnscache.Protocol.{encode, head_length, magic_number, total_length_length}
use dnscache.Kache.{Kache}
use dnscache.Search.{Node, tcp_policy}
use dnscache.Search.InPlace.{IsLong, answers, all_misses}
use dnscache.Search.Expected.{tcp_hit, flag_of, reply_words, missed_nodes, tcp_answers}
use dnscache.Server.Tcp.{
  Action, close_conn, dns, writev, first_flag, follow_up, receive, request_number_at,
  reserved_byte_at, body_length, serve_body, serve_checked, serv,
}
use dnscache.Server.Tcp.Reply.{do_search_lem}

-- What a `read` returns before the end of the stream.
abbrev pub IsChunk : List ℕ → Type 0
IsChunk c = 0 < length c

module _ (total b : ℕ) (bs : List ℕ) (chunks : List (List ℕ)) (front mid rest : List ℕ)
    (fits : length mid ≡ length (b ∷ bs)) where
  receive_last :
      leb total (head_length + (length front + length (b ∷ bs))) ≡ true
      → ltb total (head_length + 1) ≡ false
      → receive total ((b ∷ bs) ∷ chunks) (front ++ (mid ++ rest)) (length front)
        ≡ poke (front ++ ((b ∷ bs) ++ rest)) (total - head_length - 1) (0 ∷ [])
  unfolding receive
  receive_last full large = rw (poke-append front mid rest (b ∷ bs) fits, receive, full, large) refl

  pub receive_more :
      leb total (head_length + (length front + length (b ∷ bs))) ≡ false
      → receive total ((b ∷ bs) ∷ chunks) (front ++ (mid ++ rest)) (length front)
        ≡ receive total chunks ((front ++ (b ∷ bs)) ++ rest) (length (front ++ (b ∷ bs)))
  unfolding receive
  receive_more short =
      rw
        (
          poke-append front mid rest (b ∷ bs) fits,
          receive,
          short,
          append_assoc front (b ∷ bs) rest,
          length-append front (b ∷ bs),
        )
        refl

pub length-concat :
    (chunks : List (List ℕ)) → All IsChunk chunks → chunks ≢ [] → 0 < length (concat chunks)
length-concat [] c ne = absurd (ne refl)
length-concat (x ∷ chunks) c ne = omega (arith, length-append x (concat chunks), c.0)

-- The request is whole once its last chunk is in; the last byte is then set to NUL.
receive_lem :
    (total : ℕ) (chunks : List (List ℕ)) (front room : List ℕ)
    → All IsChunk chunks
    → chunks ≢ []
    → length room ≡ length (concat chunks)
    → total ≡ head_length + (length front + length room)
    → receive total chunks (front ++ room) (length front)
      ≡ poke (front ++ concat chunks) (total - head_length - 1) (0 ∷ [])
receive_lem total [] front room c ne l t = absurd (ne refl)
receive_lem total ([] ∷ chunks) front room c ne l t = absurd (omega (arith, c.0))
receive_lem total ((b ∷ bs) ∷ []) front room c ne l t =
    let len = length-append bs [] in
    rw (← append-nil room) (
      receive_last total b bs [] front room [] (omega (arith, len)) (le→leb (omega (arith, len)))
        (ge→ltb (omega (arith, len))))
receive_lem total ((b ∷ bs) ∷ next ∷ chunks) front room c ne l t =
    let n = length (b ∷ bs) in
    let len = length-append bs (concat (next ∷ chunks)) in
    let rest_len = length-concat (next ∷ chunks) c.1 (λ e. cc) in
    rw
      (
        ← take-append-drop n room,
        receive_more total b bs (next ∷ chunks) front (take n room) (drop n room)
            (length-take_le n room (omega (arith, len))) (lt→leb (omega (arith, len, rest_len))),
        ← append_assoc front (b ∷ bs) (concat (next ∷ chunks)),
      )
      (receive_lem total (next ∷ chunks) (front ++ (b ∷ bs)) (drop n room) c.1 (λ e. cc)
        (omega (arith, len, length-drop n room))
        (omega (arith, len, length-drop n room, length-append front (b ∷ bs))))

-- A request ends in the NUL of its last name.
encode_end :
    (name : List ℕ) (names : List (List ℕ))
    → (init : List ℕ) × (encode (name ∷ names) ≡ init ++ 0 ∷ [])
encode_end name [] = (name, refl)
encode_end name (next ∷ names) =
    let (init, e) = encode_end next names in
    (name ++ 0 ∷ init, rw (e, append_assoc name (0 ∷ init) (0 ∷ [])))

poke_end :
    (name : List ℕ) (names : List (List ℕ))
    → poke (encode (name ∷ names)) (length (encode (name ∷ names)) - 1) (0 ∷ [])
      ≡ some (encode (name ∷ names))
poke_end name names =
    let (init, e) = encode_end name names in
    let size : length (init ++ 0 ∷ []) - 1 ≡ length init =
      omega (arith, length-append init (0 ∷ [])) in
    rw (e, size) (poke-append init (0 ∷ []) [] (0 ∷ []) refl)

receive_names :
    (total : ℕ) (name : List ℕ) (names chunks : List (List ℕ)) (room : List ℕ)
    → total ≡ head_length + length (encode (name ∷ names))
    → length room ≡ length (encode (name ∷ names))
    → All IsChunk chunks
    → concat chunks ≡ encode (name ∷ names)
    → receive total chunks room 0 ≡ some (encode (name ∷ names))
receive_names total name names chunks room t l c e =
    let filled = length-append name (0 ∷ encode names) in
    let last : total - head_length - 1 ≡ length (encode (name ∷ names)) - 1 = omega arith in
    receive_lem total chunks [] room c
      (λ z. absurd (omega (arith, filled, ap length (sym e ∙ ap concat z)))) (l ∙ ap length (sym e))
      (omega arith)
    ∙ rw (e, last) (poke_end name names)

abbrev pub request_front : ℕ → List ℕ → List ℕ
request_front total request_number = le32 total ++ (le32 magic_number ++ request_number)

pub head_words :
    (total reserved : ℕ) (request_number : List ℕ)
    → total < 2 ^ 32
    → length request_number ≡ 4
    → (length (request_front total request_number) ≡ 12)
      × (load32 (request_front total request_number ++ reserved ∷ []) 0 ≡ some total)
      × (load32 (request_front total request_number ++ reserved ∷ []) total_length_length
          ≡ some magic_number)
head_words total reserved request_number small four =
    let rest = (le32 magic_number ++ request_number) ++ reserved ∷ [] in
    (
      omega (
        arith,
        length-append (le32 total) (le32 magic_number ++ request_number),
        length-append (le32 magic_number) request_number,
        length-le32 total,
        length-le32 magic_number,
      ),
      rw append_assoc (load32-le32 [] rest total small),
      rw
          (
            append_assoc (le32 total) (le32 magic_number ++ request_number) (reserved ∷ []),
            append_assoc (le32 magic_number) request_number (reserved ∷ []),
          )
          (ap (load32 (le32 total ++ (le32 magic_number ++ (request_number ++ reserved ∷ []))))
              (sym (length-le32 total))
            ∙ load32-le32 (le32 total) (request_number ++ reserved ∷ []) magic_number
                (omega arith)),
    )

-- What `serv` does with the words of a request and the names that it misses.
abbrev pub served : (front words : List ℕ) → List Node → List Action
served front words [] = writev ((front ++ flag_of [] ∷ []) ++ words) ∷ close_conn ∷ []
served front words (m ∷ misses) =
    writev ((front ++ flag_of (m ∷ misses) ∷ []) ++ words)
    ∷ dns (front ++ flag_of (m ∷ misses) ∷ []) (m ∷ misses)
    ∷ []

abbrev acted : (front words : List ℕ) → List Node → List Action
acted front words misses =
    writev ((front ++ first_flag misses ∷ []) ++ words)
    ∷ follow_up (front ++ first_flag misses ∷ []) misses
    ∷ []

acted-served :
    (front words : List ℕ) (misses : List Node)
    → acted front words misses ≡ served front words misses
acted-served front words [] = refl
acted-served front words (m ∷ misses) = refl

pub served_names :
    (trie_retrieve : List ℕ → Option ℕ) (kache_at : ℕ → Kache) (clock : ℕ → ℕ) (front : List ℕ)
    (names : List (List ℕ))
    → some (
        acted front
          (answers trie_retrieve kache_at clock tcp_policy 0 names)
          (all_misses trie_retrieve kache_at clock tcp_policy 0 names))
      ≡ some (
          served front
            (reply_words trie_retrieve kache_at clock tcp_hit 0 names)
            (missed_nodes trie_retrieve kache_at clock tcp_hit (λ n. some n) 0 names))
served_names trie_retrieve kache_at clock front names =
    let (words, misses) = tcp_answers trie_retrieve kache_at clock 0 names in
    ap some (ap₂ (acted front) words misses ∙ acted-served front _ _)

module _ (trie_retrieve : List ℕ → Option ℕ) (kache_at : ℕ → Kache) (clock : ℕ → ℕ) where
  -- The answer to a request, in the terms of the loop.
  pub serve_request :
      (reserved : ℕ) (request_number name : List ℕ) (names : List (List ℕ)) (behind : List ℕ)
      (chunks : List (List ℕ)) (fresh : ℕ → List ℕ)
      → length request_number ≡ 4
      → All IsLong (name ∷ names)
      → head_length + length (encode (name ∷ names)) < 2 ^ 31
      → All IsChunk chunks
      → concat chunks ≡ encode (name ∷ names)
      → ((n : ℕ) → length (fresh n) ≡ n)
      → 3 ≤ length behind
      → let front = request_front (head_length + length (encode (name ∷ names))) request_number in
        let misses = all_misses trie_retrieve kache_at clock tcp_policy 0 (name ∷ names) in
        let head = front ++ first_flag misses ∷ [] in
        serv trie_retrieve kache_at clock (front ++ reserved ∷ []) behind chunks fresh
        ≡ some (
            writev (head ++ answers trie_retrieve kache_at clock tcp_policy 0 (name ∷ names))
            ∷ follow_up head misses
            ∷ [])
  unfolding serv serve_checked serve_body
  serve_request reserved request_number name names behind chunks fresh four long small c e f three =
      let all = encode (name ∷ names) in
      let total = head_length + length all in
      let front = request_front total request_number in
      let (twelve, first, second) = head_words total reserved request_number (omega arith) four in
      let whole : length (front ++ reserved ∷ []) ≡ head_length =
        omega (arith, length-append front (reserved ∷ []), twelve) in
      let body : body_length total ≡ length all = omega arith in
      let sized : (total == 0) ≡ false = ground arith in
      let (number, third) =
        load32_inside (front ++ reserved ∷ []) request_number_at (omega arith) in
      let (word, fourth) =
        load32_inside ((front ++ reserved ∷ []) ++ behind) reserved_byte_at
          (omega (arith, length-append (front ++ reserved ∷ []) behind)) in
      rw (whole, first, second, third, fourth, sized)
        (rw
          (
            body,
            receive_names total name names chunks (fresh (length all)) refl (f (length all)) c e,
            serve_body,
            body,
          )
          (do_search_lem trie_retrieve kache_at clock front reserved name names twelve long
            (omega arith)))

  -- A request of one or more names of three bytes or more, with a correct head that the first `read`
  -- brings whole, and shorter than 2^31 bytes, gets as first message the first twelve bytes of its
  -- own head (so the length in it is that of the request), the flag byte that says whether a name
  -- was missed, and one word a name in order: the address of a record that is not older than a day,
  -- else 127.0.0.2. Then the connection is closed, or the missed names go to the DNS threads with
  -- their indices. This holds whatever the parts in which the body comes, if the block of the head
  -- has three bytes or more behind the head, which are read; no other access leaves a buffer.
  pub serv_lem :
      (reserved : ℕ) (request_number name : List ℕ) (names : List (List ℕ)) (behind : List ℕ)
      (chunks : List (List ℕ)) (fresh : ℕ → List ℕ)
      → length request_number ≡ 4
      → All IsLong (name ∷ names)
      → head_length + length (encode (name ∷ names)) < 2 ^ 31
      → All IsChunk chunks
      → concat chunks ≡ encode (name ∷ names)
      → ((n : ℕ) → length (fresh n) ≡ n)
      → 3 ≤ length behind
      → let front = request_front (head_length + length (encode (name ∷ names))) request_number in
        serv trie_retrieve kache_at clock (front ++ reserved ∷ []) behind chunks fresh
        ≡ some (
            served front
              (reply_words trie_retrieve kache_at clock tcp_hit 0 (name ∷ names))
              (missed_nodes trie_retrieve kache_at clock tcp_hit (λ n. some n) 0 (name ∷ names)))
  serv_lem reserved request_number name names behind chunks fresh four long small c e f three =
      let front = request_front (head_length + length (encode (name ∷ names))) request_number in
      serve_request reserved request_number name names behind chunks fresh four long small c e f
        three
      ∙ served_names trie_retrieve kache_at clock front (name ∷ names)
