-- ===== src/System/WholeSearch.antt =====
-- A search over TCP from the caller's buffer to the calls of `f`: src/client/dc_client.c,
-- src/server/serv_thread_make.c and src/server/dns_thread_make.c.
use dnscache.Common.{
  ℕ, suc, ◌+◌, ◌^◌, ◌≤◌, ◌<◌, ◌≡◌, ◌≢◌, refl, Option, some, List, [], ◌∷◌, ◌++◌, length, All, arith,
  sym, ap, ap₂, ◌∙◌, true, take, drop, map, concat, length-append,
}
use mathlib.Core.List.{Perm}
use dnscache.Common.Bytes.{le32, length-le32}
use dnscache.Protocol.{encode, head_length, first_without_error}
use dnscache.Kache.{Kache}
use dnscache.Search.{Node, tcp_policy}
use dnscache.Search.InPlace.{all_misses}
use dnscache.Server.Tcp.{writev, dns, first_flag, follow_up, serv}
use dnscache.Server.Tcp.Receive.{IsChunk, request_front, head_words}
use dnscache.Dns.Queue.{Ring, array_size}
use dnscache.Dns.Queue.Contents.{IsValid, size, contents}
use dnscache.Dns.Worker.{Addrinfo}
use dnscache.Client.Replies.{Call}
use dnscache.Client.Request.{success}
use dnscache.Client.RoundTrip.{AllAllowed, lower, pre_do_lem}
use dnscache.Client.Exchange.{exchange_request}
use dnscache.Client.Search.{tcp_dns_search}
use dnscache.Client.Hits.{hit_calls}
use dnscache.Client.SecondReply.{pair_words, found_calls}
use dnscache.Client.TcpSearch.{reply, IsFront}
use dnscache.Client.Outcome.{request, prepared_walk, message-prepared, tcp_dns_search_miss}
use dnscache.System.Turns.{Thread}
use dnscache.System.Resolved.{Resolver, resolved}
use dnscache.System.EachOnce.{right_calls, calls-Perm}
use dnscache.System.Missed.{
  Unmarked, first_ips, length-first_ips, answers_lem, AllWords-first_ips, miss_count-first_ips,
  resolved-IsFound, length-resolved,
}
use dnscache.System.Threads.{Resolves, resolves_lem}

length_names : (names : List (List ℕ)) → length names ≤ length (encode names)
length_names [] = omega arith
length_names (name ∷ names) =
    omega (arith, length_names names, length-append name (0 ∷ encode names))

length-map : (names : List (List ℕ)) → length (map lower names) ≡ length names
length-map [] = refl
length-map (name ∷ names) = ap suc (length-map names)

first_flag_missed :
    (misses : List Node) → 0 < length misses → first_flag misses ≢ first_without_error
first_flag_missed [] l = absurd (omega arith)
first_flag_missed (m ∷ misses) l = λ e. absurd (omega (arith, e))

follow_up_missed :
    (head : List ℕ) (misses : List Node)
    → 0 < length misses
    → follow_up head misses ≡ dns head misses
follow_up_missed head [] l = absurd (omega arith)
follow_up_missed head (m ∷ misses) l = refl

module _ (trie_retrieve : List ℕ → Option ℕ) (getaddrinfo : List ℕ → Addrinfo)
    (resolver : Resolver getaddrinfo) (threads : ℕ → Thread) (job connfd : ℕ) where
  module _ (kache_at : ℕ → Kache) (clock : ℕ → ℕ)
      (unmarked : Unmarked trie_retrieve kache_at clock) where
    -- The names that the server has to resolve.
    abbrev pub missed : List (List ℕ) → List Node
    missed names = all_misses trie_retrieve kache_at clock tcp_policy 0 (map lower names)

    -- The calls of `f`: the names that the cache has, in order, then the others as resolved.
    abbrev pub all_calls : List (List ℕ) → List Call
    all_calls names =
        hit_calls (map lower names) (first_ips trie_retrieve kache_at clock 0 (map lower names))
        ++ found_calls (resolved trie_retrieve getaddrinfo resolver (missed names))

    delivers_lem :
        (name : List ℕ) (names : List (List ℕ)) (tail front : List ℕ) (second : ℕ)
        → All AllAllowed (name ∷ names)
        → head_length + length (encode (name ∷ names)) < 2 ^ 31
        → IsFront front
        → 0 < length (missed (name ∷ names))
        → (chunks more : List (List ℕ)) (written : List ℕ → ℕ) (fresh : ℕ → List ℕ)
        → All IsChunk chunks
        → All IsChunk more
        → concat chunks
          ≡ reply front
              (first_flag (missed (name ∷ names)))
              (first_ips trie_retrieve kache_at clock 0 (map lower (name ∷ names)))
        → concat more
          ≡ reply front second
              (pair_words (resolved trie_retrieve getaddrinfo resolver (missed (name ∷ names))))
        → written (request (name ∷ names)) ≡ length (request (name ∷ names))
        → ((n : ℕ) → length (fresh n) ≡ n)
        → tcp_dns_search
            (encode (name ∷ names) ++ tail)
            (length (name ∷ names))
            true
            written
            (chunks ++ more)
            fresh
          ≡ some (record {
            status = success;
            sent = request (name ∷ names);
            calls = all_calls (name ∷ names);
          })
    delivers_lem name names tail front second allowed small twelve some_missed chunks more written
          fresh parts parts' whole whole' sends room =
        let lowered = map lower (name ∷ names) in
        let ms = missed (name ∷ names) in
        let ips = first_ips trie_retrieve kache_at clock 0 lowered in
        let found = resolved trie_retrieve getaddrinfo resolver ms in
        let n = length-map (name ∷ names) in
        tcp_dns_search_miss name names tail allowed (omega (arith, small)) ips chunks front
          (first_flag ms) written fresh twelve
          (length-first_ips trie_retrieve kache_at clock 0 lowered ∙ n)
          (AllWords-first_ips trie_retrieve kache_at clock unmarked 0 lowered) parts whole sends
          room found more front second (first_flag_missed ms some_missed) twelve
          (resolved-IsFound trie_retrieve kache_at clock getaddrinfo resolver [] lowered
            (omega (arith, n, length_names (name ∷ names), small)))
          (length-resolved trie_retrieve kache_at clock getaddrinfo resolver ms
            ∙ sym (miss_count-first_ips trie_retrieve kache_at clock unmarked 0 lowered))
          parts' whole'

    -- The messages of a search: the request, the first message and the second.
    abbrev pub front_of : List (List ℕ) → List ℕ
    front_of names = request_front (head_length + length (encode names)) (le32 1)

    abbrev pub first_message : List (List ℕ) → List ℕ
    first_message names =
        reply (front_of names) (first_flag (missed names))
          (first_ips trie_retrieve kache_at clock 0 (map lower names))

    abbrev pub last_message : (flag : ℕ) → List (List ℕ) → List ℕ
    last_message flag names =
        reply (front_of names) flag
          (pair_words (resolved trie_retrieve getaddrinfo resolver (missed names)))

    -- A search over TCP: `network k` cuts the `k`-th message into what the reads return.
    abbrev pub Searched :
        (names : List (List ℕ)) (tail behind : List ℕ) (network : ℕ → List ℕ → List (List ℕ))
        (served_fresh client_fresh : ℕ → List ℕ) (r : Ring) (words : ℕ → ℕ) (written : List ℕ → ℕ)
        → Type 0
    Searched names tail behind network served_fresh client_fresh r words written =
        (flag : ℕ) × (serv trie_retrieve kache_at clock (take head_length (request names)) behind
            (network 0 (drop head_length (request names))) served_fresh
          ≡ some (
              writev (first_message names)
              ∷ dns (front_of names ++ first_flag (missed names) ∷ []) (missed names)
              ∷ []))
        × Resolves trie_retrieve getaddrinfo resolver threads job connfd r (front_of names)
            (first_flag (missed names)) (missed names) words flag
        × (tcp_dns_search (encode names ++ tail) (length names) true written
              (network 1 (first_message names) ++ network 2 (last_message flag names)) client_fresh
            ≡ some (record { status = success; sent = request names; calls = all_calls names }))
        × Perm (all_calls names) (
            right_calls trie_retrieve getaddrinfo resolver kache_at clock unmarked 0
              (map lower names))

    -- One or more names of three or more allowed bytes, together shorter than 2^31 - 13, some of which
    -- the cache lacks: the server sends the addresses that it has and hands the other names on; the
    -- threads take every task, oldest first, send one second message, close the connection and free
    -- what the request has; and what the client makes of
    -- the two messages is one call of `f` for each name in lower case, with the address of its record
    -- in the cache if that is not older than a day, else that of the resolver, or 127.0.0.1 if it
    -- failed, those from the cache first. Both messages carry the length of the request in their
    -- heads. All this where the ring is empty and has the room, the DNS threads work one after the
    -- other, each to the end of its task, no other request comes between, the cache does not hold
    -- 127.0.0.2 as an address, all bytes are sent, the head of the request comes whole and its block
    -- has three bytes or more behind it, and the reads return each message in any parts but no part
    -- of both.
    pub whole_search_lem :
        (name : List ℕ) (names : List (List ℕ)) (tail behind : List ℕ)
        (network : ℕ → List ℕ → List (List ℕ)) (served_fresh client_fresh : ℕ → List ℕ) (r : Ring)
        (words : ℕ → ℕ) (written : List ℕ → ℕ)
        → All AllAllowed (name ∷ names)
        → All (λ n. 3 ≤ length n) (name ∷ names)
        → head_length + length (encode (name ∷ names)) < 2 ^ 31
        → ((k : ℕ) (bytes : List ℕ)
            → All IsChunk (network k bytes) × (concat (network k bytes) ≡ bytes))
        → ((n : ℕ) → length (served_fresh n) ≡ n)
        → ((n : ℕ) → length (client_fresh n) ≡ n)
        → 3 ≤ length behind
        → written (request (name ∷ names)) ≡ length (request (name ∷ names))
        → IsValid r
        → contents r ≡ []
        → size r + length (missed (name ∷ names)) < array_size
        → 0 < length (missed (name ∷ names))
        → Searched (name ∷ names) tail behind network served_fresh client_fresh r words written
    whole_search_lem name names tail behind network served_fresh client_fresh r words written
          allowed long small parts room room' three sends v empty fits some_missed =
        let ms = missed (name ∷ names) in
        let lowered = map lower (name ∷ names) in
        let front = front_of (name ∷ names) in
        let head = front ++ first_flag ms ∷ [] in
        let body = drop head_length (request (name ∷ names)) in
        let (twelve, _, _) =
          head_words (head_length + length (encode (name ∷ names))) b'F' (le32 1)
            (omega (arith, small)) (length-le32 1) in
        let (flag, resolves) =
          resolves_lem trie_retrieve getaddrinfo resolver threads job connfd r front (first_flag ms)
            ms words v empty fits twelve some_missed in
        let first = first_message (name ∷ names) in
        let last = last_message flag (name ∷ names) in
        let served =
          exchange_request trie_retrieve kache_at clock name names behind (network 0 body) tail
            (prepared_walk (name ∷ names) tail) served_fresh allowed long small
            (pre_do_lem name names tail allowed (omega (arith, small))) (parts 0 body).0
            ((parts 0 body).1 ∙ ap (drop head_length) (sym (message-prepared (name ∷ names) tail)))
            room three in
        (
          flag,
          ap
                (λ q.
                  serv trie_retrieve kache_at clock (take head_length q) behind (network 0 body)
                    served_fresh)
                (sym (message-prepared (name ∷ names) tail))
              ∙ (served
                  ∙ ap₂ (λ l f. some (writev (head ++ l) ∷ f ∷ []))
                      (answers_lem trie_retrieve kache_at clock 0 lowered)
                      (follow_up_missed head ms some_missed)),
          resolves,
          delivers_lem name names tail front flag allowed small twelve some_missed (network 1 first)
              (network 2 last) written client_fresh (parts 1 first).0 (parts 2 last).0
              (parts 1 first).1 (parts 2 last).1 sends room',
          calls-Perm trie_retrieve getaddrinfo resolver kache_at clock unmarked 0 lowered,
        )
