-- ===== src/Server/Tcp/Overflow.antt =====
-- Each `read` of `serv` may bring as many bytes as the whole request has, also behind those that
-- came before.
use dnscache.Common.{
  ℕ, ◌+◌, ◌≤◌, ◌<◌, ◌≡◌, refl, none, List, [], ◌∷◌, ◌++◌, length, length-append, arith, take, drop,
  take-append-drop, length-take_le, length-drop, lt→leb,
}
use dnscache.Common.Bytes.{poke_overflow}
use dnscache.Protocol.{head_length}
use dnscache.Server.Tcp.{receive}
use dnscache.Server.Tcp.Receive.{receive_more}

receive_fault :
    (total c : ℕ) (cs : List ℕ) (chunks : List (List ℕ)) (request : List ℕ) (p : ℕ)
    → length request < p + length (c ∷ cs)
    → receive total ((c ∷ cs) ∷ chunks) request p ≡ none
unfolding receive
receive_fault total c cs chunks request p h = rw (poke_overflow request p (c ∷ cs) h, receive) refl

-- A first read that is short of the request and a second that is no longer than the request, as
-- `serv` asks for, but together longer than it, write past the end of the buffer.
pub receive_overflow :
    (total b c : ℕ) (bs cs : List ℕ) (chunks : List (List ℕ)) (room : List ℕ)
    → total ≡ head_length + length room
    → length (b ∷ bs) < length room
    → length (c ∷ cs) ≤ length room
    → length room < length (b ∷ bs) + length (c ∷ cs)
    → receive total ((b ∷ bs) ∷ (c ∷ cs) ∷ chunks) room 0 ≡ none
receive_overflow total b c bs cs chunks room t short fits over =
    let n = length (b ∷ bs) in
    rw
      (
        ← take-append-drop n room,
        receive_more total b bs ((c ∷ cs) ∷ chunks) [] (take n room) (drop n room)
            (length-take_le n room (omega arith)) (lt→leb (omega arith)),
      )
      (receive_fault total c cs chunks ((b ∷ bs) ++ drop n room) n
        (omega (arith, length-append bs (drop n room), length-drop n room)))
