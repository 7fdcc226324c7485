-- ===== src/Dns/Queue/Batch.antt =====
-- The misses of one request go into the queue in order and without a gap, where no other thread
-- puts in between.
use dnscache.Common.{
  ℕ, ◌+◌, ◌<◌, ◌≡◌, refl, sym, ap, ◌∙◌, List, [], ◌∷◌, ◌++◌, length, arith, append_assoc,
  append-nil, map,
}
use dnscache.Search.{Node}
use dnscache.Dns.Queue.{
  Task, Ring, array_size, Put, stored, put, put_udp, udp_task, put_tcp, tcp_task,
}
use dnscache.Dns.Queue.Contents.{IsValid, size, contents, put_lem}

-- The ring holds the old tasks and then the new ones.
pub record Queued (r : Ring) (new : List Task) (p : Put) : Type 0 where
  pub ring : Ring
  pub done : p ≡ stored ring
  pub valid : IsValid ring
  pub grown : size ring ≡ size r + length new
  pub order : contents ring ≡ contents r ++ new

Queued-nil : (r : Ring) → IsValid r → Queued r [] (stored r)
Queued-nil r v = record {
  ring = r;
  done = refl;
  valid = v;
  grown = omega arith;
  order = sym (append-nil (contents r));
}

Queued-cons :
    (r : Ring) (t : Task) (new : List Task) (p : Put)
    → IsValid r
    → size r + 1 < array_size
    → ((r' : Ring) → put r t ≡ stored r' → IsValid r' → size r' ≡ size r + 1 → Queued r' new p)
    → Queued r (t ∷ new) p
Queued-cons r t new p v h then =
    let (r', e, v', s, c) = (put_lem r t v).0 h in
    let q = then r' e v' s in
    record {
      ring = q.ring;
      done = q.done;
      valid = q.valid;
      grown = omega (arith, q.grown);
      order = q.order ∙ ap (λ l. l ++ new) c ∙ append_assoc (contents r) (t ∷ []) new;
    }

-- Where the ring has the room, the loop of the UDP server appends one task for each missed name, in
-- order, and ends.
pub put_udp_lem :
    (r : Ring) (misses : List Node)
    → IsValid r
    → size r + length misses < array_size
    → Queued r (map udp_task misses) (put_udp r misses)
unfolding put_udp
put_udp_lem r [] v h = Queued-nil r v
put_udp_lem r (m ∷ misses) v h =
    Queued-cons r (udp_task m) (map udp_task misses) (put_udp r (m ∷ misses)) v (omega arith)
      (λ r' e v' s. rw (e, put_udp) (put_udp_lem r' misses v' (omega (arith, s))))

-- The tasks of one TCP request, numbered from `i` on.
abbrev pub tcp_tasks : (job connfd total i : ℕ) → List Node → List Task
tcp_tasks job connfd total i [] = []
tcp_tasks job connfd total i (m ∷ misses) =
    tcp_task job connfd total i m ∷ tcp_tasks job connfd total (i + 1) misses

-- Where the ring has the room, the loop of the TCP server appends one task for each missed name, in
-- order and numbered from `i` on, and ends.
pub put_tcp_lem :
    (job connfd total i : ℕ) (r : Ring) (misses : List Node)
    → IsValid r
    → size r + length misses < array_size
    → Queued r (tcp_tasks job connfd total i misses) (put_tcp job connfd total i r misses)
unfolding put_tcp
put_tcp_lem job connfd total i r [] v h = Queued-nil r v
put_tcp_lem job connfd total i r (m ∷ misses) v h =
    Queued-cons r (tcp_task job connfd total i m) (tcp_tasks job connfd total (i + 1) misses)
      (put_tcp job connfd total i r (m ∷ misses)) v (omega arith)
      (λ r' e v' s.
        rw (e, put_tcp) (put_tcp_lem job connfd total (i + 1) r' misses v' (omega (arith, s))))
