-- ===== src/Client/Overread.antt =====
-- The `strlen` in the loop of `udp_dns_search`, which begins as far into the names as the reply is
-- long.
use dnscache.Common.{
  ℕ, zero, suc, ◌+◌, ◌*◌, ◌^◌, ◌≤◌, ◌<◌, ◌≡◌, refl, true, none, List, [], ◌∷◌, ◌++◌, ◌==◌, length,
  All, take, drop, map, arith, Option-cases, inl, inr, length-take_le, length-append,
}
use dnscache.Common.Bytes.{poke, c_string, string_at}
use dnscache.Protocol.{encode, head_length}
use dnscache.Client.RoundTrip.{AllAllowed, lower, length-encode-lower, starts, pre_do_lem}
use dnscache.Client.Replies.{call_of, word, deliver_udp, udp_replies}
use dnscache.Client.Search.{sent_and, prepared, udp_dns_search}
use dnscache.Client.Outcome.{request, length-request, message-prepared}

drop-past : (buf : List ℕ) (p : ℕ) → length buf ≤ p → drop p buf ≡ []
drop-past [] zero h = refl
drop-past [] (suc p) h = refl
drop-past (b ∷ buf) zero h = absurd (omega arith)
drop-past (b ∷ buf) (suc p) h = drop-past buf p (omega arith)

string_at-past : (buf : List ℕ) (p : ℕ) → length buf ≤ p → string_at buf p ≡ none
unfolding string_at c_string
string_at-past buf p h = rw (string_at, drop-past buf p h) refl

deliver_udp-past :
    (left i count : ℕ) (index buf retbuf : List ℕ)
    → length buf ≤ count
    → deliver_udp (suc left) i count index buf retbuf ≡ none
unfolding deliver_udp
deliver_udp-past left i count index buf retbuf h =
    elim (Option-cases (call_of index i buf (word retbuf i))) [
      | inl e ↦ rw (deliver_udp, e) refl
      | inr (c, e) ↦ rw (deliver_udp, e, string_at-past buf count h) refl
    ]

udp_replies-past :
    (datagram index buf retbuf : List ℕ) (n : ℕ)
    → head_length + suc n * 4 ≤ length datagram
    → length buf ≤ head_length + suc n * 4
    → udp_replies datagram (suc n) index buf retbuf ≡ none
unfolding udp_replies
udp_replies-past datagram index buf retbuf n long short =
    let cut = length-take_le (head_length + suc n * 4) datagram long in
    elim (Option-cases (poke retbuf 0 (take (head_length + suc n * 4) datagram))) [
      | inl e ↦ rw (udp_replies, e) refl
      | inr (r, e) ↦
          rw (udp_replies, e, cut)
            (deliver_udp-past n 0 (head_length + suc n * 4) index buf r short)
    ]

-- On names that are with the head shorter than 2^32 bytes: where the caller's buffer is no longer than the head and four bytes for each of its names, the
-- whole reply of the server makes `udp_dns_search` read outside the buffer.
pub udp_overread :
    (name : List ℕ) (rest : List (List ℕ)) (tail datagram : List ℕ) (written : List ℕ → ℕ)
    (fresh : ℕ → List ℕ)
    → let names = name ∷ rest in
      All AllAllowed names
      → head_length + length (encode names) < 2 ^ 32
      → written (request names) ≡ length (request names)
      → head_length + length names * 4 ≤ length datagram
      → length (encode names ++ tail) ≤ head_length + length names * 4
      → udp_dns_search (encode names ++ tail) (length names) written datagram fresh ≡ none
unfolding udp_dns_search prepared sent_and
udp_overread name rest tail datagram written fresh allowed small sends long short =
    let names = name ∷ rest in
    let buf = encode (map lower names) ++ tail in
    let whole : (written (request names) == head_length + length (encode names)) ≡ true =
      ground (arith, length-request names) in
    let past =
      udp_replies-past datagram (starts 0 names) buf (fresh (length names * 2 * 4 + head_length))
        (length rest) long
        (omega (
          arith,
          short,
          length-encode-lower names,
          length-append (encode names) tail,
          length-append (encode (map lower names)) tail,
        )) in
    rw
      (
        udp_dns_search,
        prepared,
        pre_do_lem name rest tail allowed small,
        sent_and,
        message-prepared names tail,
        whole,
        past,
      )
      refl
