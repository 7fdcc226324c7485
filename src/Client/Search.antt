-- ===== src/Client/Search.antt =====
-- `dns_search`, `tcp_dns_search` and `udp_dns_search` of src/client/dc_client.c.
use dnscache.Common.{ℕ, ◌+◌, ◌*◌, Bool, Option, none, some, List, [], ltb, ◌==◌, if◌then◌else◌}
use mathlib.Core.Option
use dnscache.Protocol.{head_length}
use dnscache.Client.Request.{Status, success, connect_wrong, other_wrong, Walk, pre_do, message}
use dnscache.Client.Replies.{Call, tcp_replies, udp_replies}

-- What a search comes to: its result, the bytes it sent, and the calls of `f` in order.
pub record Outcome : Type 0 where
  pub status : Status
  pub sent : List ℕ
  pub calls : List Call

-- `TCP_OR_UDP` of src/client/constants.h.
abbrev pub tcp_or_udp : ℕ
tcp_or_udp = 2048

-- `pre_do`, the check of what was sent, and `replies`; `written` is the result of the sending call.
unfoldable pub sent_and :
    (written : List ℕ → ℕ) → (Walk → Option (List Call)) → Walk → Option Outcome
unfolding message
sent_and written replies w =
    let m = message w in
    if written m == w.total_length
    then Option.map (λ calls. record { status = success; sent = m; calls = calls }) (replies w)
    else some (record { status = other_wrong; sent = m; calls = [] })

-- A result that ends the search before anything is sent.
abbrev pub refused : Status → Option Outcome
refused s = some (record { status = s; sent = []; calls = [] })

unfoldable pub prepared : (Walk → Option Outcome) → Option Walk → Option Outcome
prepared go o = elim o [
  | none ↦ none
  | some w ↦ elim w.status [ success ↦ go w | other ↦ refused other ]
]

-- `fresh n` is what `malloc` leaves in `n` bytes, `connected` whether `connect` succeeds.
unfoldable pub tcp_dns_search :
    (buf : List ℕ) (nbuf : ℕ) (connected : Bool) (written : List ℕ → ℕ) (chunks : List (List ℕ))
    (fresh : ℕ → List ℕ)
    → Option Outcome
unfolding pre_do tcp_replies sent_and prepared
tcp_dns_search buf nbuf connected written chunks fresh =
    prepared
      (λ w.
        if connected
        then sent_and written
            (λ w'. tcp_replies chunks nbuf w'.index w'.buf (fresh (nbuf * 2 * 4 + head_length))) w
        else refused connect_wrong)
      (pre_do buf nbuf)

unfoldable pub udp_dns_search :
    (buf : List ℕ) (nbuf : ℕ) (written : List ℕ → ℕ) (datagram : List ℕ) (fresh : ℕ → List ℕ)
    → Option Outcome
unfolding pre_do udp_replies sent_and prepared
udp_dns_search buf nbuf written datagram fresh =
    prepared
      (sent_and written
        (λ w. udp_replies datagram nbuf w.index w.buf (fresh (nbuf * 2 * 4 + head_length))))
      (pre_do buf nbuf)

-- `dns_search`: by TCP for many names.
unfoldable pub dns_search :
    (buf : List ℕ) (nbuf : ℕ) (connected : Bool) (written : List ℕ → ℕ) (chunks : List (List ℕ))
    (datagram : List ℕ) (fresh : ℕ → List ℕ)
    → Option Outcome
unfolding tcp_dns_search udp_dns_search
dns_search buf nbuf connected written chunks datagram fresh =
    if ltb tcp_or_udp nbuf
    then tcp_dns_search buf nbuf connected written chunks fresh
    else udp_dns_search buf nbuf written datagram fresh
