-- ===== src/Client/Receive.antt =====
-- The reading loops of `tcp_dns_search`: a message that comes in any parts.
use dnscache.Common.{
  ℕ, zero, suc, ◌+◌, ◌≤◌, ◌<◌, ◌≡◌, ◌≢◌, refl, sym, ap, ◌∙◌, some, List, [], ◌∷◌, ◌++◌, length, All,
  take, drop, concat, arith, append_assoc, append-nil, length-append, take-append-drop,
  length-take_le, length-drop, le→leb, lt→leb,
}
use dnscache.Common.Bytes.{poke, poke-append}
use dnscache.Server.Tcp.Receive.{IsChunk, length-concat}
use dnscache.Client.Replies.{receive_reply}

module _ (size b : ℕ) (bs : List ℕ) (chunks : List (List ℕ)) (front room : List ℕ)
    (fits : length (b ∷ bs) ≤ length room) where
  poke_chunk :
      poke (front ++ room) (length front) (b ∷ bs)
      ≡ some (front ++ ((b ∷ bs) ++ drop (length (b ∷ bs)) room))
  poke_chunk =
      let n = length (b ∷ bs) in
      ap (λ r. poke (front ++ r) (length front) (b ∷ bs)) (sym (take-append-drop n room))
      ∙ poke-append front (take n room) (drop n room) (b ∷ bs) (length-take_le n room fits)

  receive_last :
      size ≤ length front + length (b ∷ bs)
      → receive_reply size ((b ∷ bs) ∷ chunks) (front ++ room) (length front)
        ≡ some (front ++ ((b ∷ bs) ++ drop (length (b ∷ bs)) room), chunks)
  unfolding receive_reply
  receive_last full = rw (receive_reply, poke_chunk, le→leb full) refl

  receive_more :
      length front + length (b ∷ bs) < size
      → receive_reply size ((b ∷ bs) ∷ chunks) (front ++ room) (length front)
        ≡ receive_reply size chunks
            ((front ++ (b ∷ bs)) ++ drop (length (b ∷ bs)) room)
            (length (front ++ (b ∷ bs)))
  unfolding receive_reply
  receive_more short =
      rw
        (
          receive_reply,
          poke_chunk,
          lt→leb short,
          append_assoc front (b ∷ bs) (drop (length (b ∷ bs)) room),
          length-append front (b ∷ bs),
        )
        refl

drop-nil : (n : ℕ) → drop {A = ℕ} n [] ≡ []
drop-nil zero = refl
drop-nil (suc n) = refl

drop-length_append :
    (xs ys room : List ℕ) → drop (length (xs ++ ys)) room ≡ drop (length ys) (drop (length xs) room)
drop-length_append [] ys room = refl
drop-length_append (x ∷ xs) ys [] = sym (drop-nil (length ys))
drop-length_append (x ∷ xs) ys (r ∷ room) = drop-length_append xs ys room

-- A message of `size` bytes that comes in one or more parts is put into the buffer; the parts
-- after it are left.
pub receive_reply_lem :
    (size : ℕ) (chunks more : List (List ℕ)) (front room : List ℕ)
    → All IsChunk chunks
    → chunks ≢ []
    → length front + length (concat chunks) ≡ size
    → length (concat chunks) ≤ length room
    → receive_reply size (chunks ++ more) (front ++ room) (length front)
      ≡ some (front ++ (concat chunks ++ drop (length (concat chunks)) room), more)
receive_reply_lem size [] more front room c ne t l = absurd (ne refl)
receive_reply_lem size ([] ∷ chunks) more front room c ne t l = absurd (omega (arith, c.0))
receive_reply_lem size ((b ∷ bs) ∷ []) more front room c ne t l =
    let len = length-append bs [] in
    receive_last size b bs more front room (omega (arith, len, l)) (omega (arith, len, t))
    ∙ ap (λ m. some (front ++ (m ++ drop (length m) room), more))
        (sym (ap (λ m. b ∷ m) (append-nil bs)))
receive_reply_lem size ((b ∷ bs) ∷ next ∷ chunks) more front room c ne t l =
    let n = length (b ∷ bs) in
    let later = concat (next ∷ chunks) in
    let len = length-append bs later in
    let rest =
      receive_reply_lem size (next ∷ chunks) more (front ++ (b ∷ bs)) (drop n room) c.1 (λ e. cc)
        (omega (arith, len, t, length-append front (b ∷ bs)))
        (omega (arith, len, l, length-drop n room)) in
    receive_more size b bs ((next ∷ chunks) ++ more) front room (omega (arith, len))
      (omega (arith, len, t, length-concat (next ∷ chunks) c.1 (λ e. cc)))
    ∙ (rest
        ∙ ap (λ r. some (r, more))
            (append_assoc front (b ∷ bs) (later ++ drop (length later) (drop n room))
              ∙ ap (λ r. front ++ r)
                  (sym (append_assoc (b ∷ bs) later (drop (length later) (drop n room)))
                    ∙ ap (λ d. ((b ∷ bs) ++ later) ++ d)
                        (sym (drop-length_append (b ∷ bs) later room)))))
