-- ===== src/Client/Hits.antt =====
-- The loops of `tcp_dns_search` that call `f` by the index of a name.
use dnscache.Common.{
  ℕ, suc, ◌+◌, ◌*◌, ◌≡◌, refl, true, false, some, List, [], ◌∷◌, ◌++◌, ◌==◌, if◌then◌else◌, length,
  All, get_elem?-append, arith, append_assoc, length-append, Bool-cases, inl, inr,
}
use dnscache.Common.Bytes.{IsString, le32}
use dnscache.Protocol.{encode, head_length, cache_miss}
use dnscache.Client.RoundTrip.{starts}
use dnscache.Client.Replies.{Call, word, call_of, deliver_hits}
use dnscache.Client.Delivery.{le32s, AllWords, call_of-starts, first_word, le32s_assoc, next_word}

-- The calls that a first message with an error leads to, and the number of its misses.
abbrev pub hit_calls : List (List ℕ) → List ℕ → List Call
hit_calls [] ips = []
hit_calls (name ∷ names) [] = []
hit_calls (name ∷ names) (ip ∷ ips) =
    if ip == cache_miss
    then hit_calls names ips
    else record { domain = name; address = ip } ∷ hit_calls names ips

abbrev pub miss_count : List ℕ → ℕ
miss_count [] = 0
miss_count (ip ∷ ips) = if ip == cache_miss then suc (miss_count ips) else miss_count ips

deliver_hits_miss :
    (left i ip : ℕ) (index buf retbuf : List ℕ) (calls : List Call) (misses : ℕ)
    → word retbuf i ≡ some ip
    → (ip == cache_miss) ≡ true
    → deliver_hits left (i + 1) index buf retbuf ≡ some (calls, misses)
    → deliver_hits (suc left) i index buf retbuf ≡ some (calls, suc misses)
unfolding deliver_hits
deliver_hits_miss left i ip index buf retbuf calls misses w e more =
    rw (deliver_hits, w, e, more) refl

deliver_hits_hit :
    (left i ip : ℕ) (index buf retbuf : List ℕ) (c : Call) (calls : List Call) (misses : ℕ)
    → word retbuf i ≡ some ip
    → (ip == cache_miss) ≡ false
    → call_of index i buf (some ip) ≡ some c
    → deliver_hits left (i + 1) index buf retbuf ≡ some (calls, misses)
    → deliver_hits (suc left) i index buf retbuf ≡ some (c ∷ calls, misses)
unfolding deliver_hits
deliver_hits_hit left i ip index buf retbuf c calls misses w e k more =
    rw (deliver_hits, w, e, k, more) refl

pub deliver_hits_lem :
    (earlier names : List (List ℕ)) (ips tail front rest : List ℕ) (i : ℕ)
    → All IsString (earlier ++ names)
    → length ips ≡ length names
    → AllWords ips
    → length earlier ≡ i
    → length front ≡ head_length + 4 * i
    → deliver_hits
        (length names)
        i
        (starts 0 (earlier ++ names))
        (encode (earlier ++ names) ++ tail)
        (front ++ (le32s ips ++ rest))
      ≡ some (hit_calls names ips, miss_count ips)
unfolding deliver_hits
deliver_hits_lem earlier [] [] tail front rest i a e w n l = refl
deliver_hits_lem earlier [] (ip ∷ ips) tail front rest i a e w n l = absurd (omega arith)
deliver_hits_lem earlier (name ∷ names) [] tail front rest i a e w n l = absurd (omega arith)
deliver_hits_lem earlier (name ∷ names) (ip ∷ ips) tail front rest i a e w n l =
    let all = append_assoc earlier (name ∷ []) names in
    let first = first_word front rest ips i ip l w.0 in
    let next =
      deliver_hits_lem (earlier ++ name ∷ []) names ips tail (front ++ le32 ip) rest (i + 1)
        (rw all a) (omega arith) w.1 (omega (arith, n, length-append earlier (name ∷ [])))
        (next_word front i ip l) in
    let more = rw (all, ← le32s_assoc front rest ips ip) at next in
    let here =
      call_of-starts (earlier ++ name ∷ names) [] tail name i ip a
        (rw (← n) (get_elem?-append earlier names name)) in
    elim (Bool-cases (ip == cache_miss)) [
      | inl hit ↦ rw (hit) (
          deliver_hits_miss (length names) i ip _ _ _ (hit_calls names ips) (miss_count ips) first
            hit more)
      | inr miss ↦ rw (miss) (
          deliver_hits_hit (length names) i ip _ _ _ _ (hit_calls names ips) (miss_count ips) first
            miss here more)
    ]
