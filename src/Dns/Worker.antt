-- ===== src/Dns/Worker.antt =====
-- src/server/dnsrequest.c and the body of `thread_main_dns` in src/server/dns_thread_make.c, from
-- the task that was taken to the second message. The parts that other threads may come between are
-- separate: `resolve`, then `settle` under the mutex of the request, then `check` outside it.
pub mod Expected
pub mod Resolve
pub mod Second
pub mod Message
pub mod Race
pub mod Sticky
use dnscache.Common.{
  update, ℕ, zero, suc, ◌+◌, ◌-◌, ◌*◌, ◌≡◌, Bool, true, false, Option, none, some, List, [], ◌∷◌,
  ◌++◌, ◌==◌, if◌then◌else◌,
}
use mathlib.Core.Option
use dnscache.Common.Bytes.{poke, le32}
use dnscache.Protocol.{head_length, dns_error, second_with_error, second_without_error}
use dnscache.Kache.{Data, Kache, kache_store}
use dnscache.Dns.Queue.{Kind, tcp, udp, Request, Task}

abbrev pub have_error : ℕ
have_error = 0

abbrev pub no_error : ℕ
no_error = 1

-- What `getaddrinfo` returns, and the first address of its list.
pub record Addrinfo : Type 0 where
  pub retval : ℕ
  pub res : Option ℕ

-- `dnsrequest(name, ipaddr)`: the result and `*ipaddr` afterwards.
unfoldable pub dnsrequest : (List ℕ → Addrinfo) → List ℕ → ℕ → ℕ × ℕ
dnsrequest getaddrinfo name ipaddr =
    let info = getaddrinfo name in
    if info.retval == 0
    then (0, elim info.res [ none ↦ ipaddr | some ip ↦ ip ])
    else (info.retval, ipaddr)

-- The blocks that the tasks of one TCP request share. `ipptr` is in words.
pub record Job : Type 0 where
  pub number : ℕ
  pub ipptr : ℕ → ℕ
  pub miss : ℕ
  pub headptr : List ℕ

-- What `do_dns_search` allocates; `fresh` is what `dc_alloc` leaves.
abbrev pub new_job : (total : ℕ) (head : List ℕ) (fresh : ℕ → ℕ) → Job
new_job total head fresh = record { number = total; ipptr = fresh; miss = no_error; headptr = head }

module _ (trie_retrieve : List ℕ → Option ℕ) (getaddrinfo : List ℕ → Addrinfo) where
  -- The address that is stored for a name: 127.0.0.1 where the request fails. `old` is what the
  -- word held before.
  abbrev pub resolved_ip : List ℕ → ℕ → ℕ
  resolved_ip name old =
      let (retval, ip) = dnsrequest getaddrinfo name old in if retval == 0 then ip else dns_error

  abbrev pub store_ip : Kache → List ℕ → ℕ → ℕ → Kache
  store_ip k name ip now =
      kache_store trie_retrieve k (some name) (record { ip = ip; timestamp = now })

  -- The UDP branch. `old` is the uninitialised `ip`.
  unfoldable pub resolve_udp : Kache → Task → (old now : ℕ) → Kache
  resolve_udp k t old now = store_ip k t.domain (resolved_ip t.domain old) now

  -- The TCP branch up to the `dc_free` of the name: the index and the address go into the pair of
  -- the task, and a failure into the thread's own `missindex`.
  unfoldable pub resolve_tcp :
      Kache → Job → (missindex : ℕ) → Task → Request → (now : ℕ) → Kache × Job × ℕ
  resolve_tcp k j missindex t q now =
      let place = q.count * 2 in
      let (retval, _) = dnsrequest getaddrinfo t.domain (j.ipptr (place + 1)) in
      let ip = resolved_ip t.domain (j.ipptr (place + 1)) in
      (
        store_ip k t.domain ip now,
        record j { ipptr = update (update j.ipptr place q.index) (place + 1) ip },
        if retval == 0 then missindex else have_error,
      )

-- Under `mutex`.
unfoldable pub settle : (missindex : ℕ) → Job → Job
settle missindex j = record j {
  miss = if missindex == have_error then have_error else j.miss;
  number = j.number - 1;
}

abbrev pub words : (ℕ → ℕ) → ℕ → ℕ → List ℕ
words a i zero = []
words a i (suc n) = le32 (a i) ++ words a (i + 1) n

abbrev pub second_flag : ℕ → ℕ
second_flag miss = if miss == have_error then second_with_error else second_without_error

-- The second message. `none` would be a head that is too short.
unfoldable pub second_message : Job → (total : ℕ) → Option (List ℕ)
second_message j total =
    Option.map (λ head. head ++ words j.ipptr 0 (total * 2))
      (poke j.headptr (head_length - 1) (second_flag j.miss ∷ []))

-- The blocks that the tasks of a TCP request share.
pub data Block : Type 0 where
  ipptr_block number_block mutex_block headptr_block miss_block : Block

-- What a thread does with a request that is done. A message that is `none` is a fault.
pub data Done : Type 0 where
  sends : Option (List ℕ) → Done
  closes : Done
  frees : Block → Done

abbrev pub finished : Option (List ℕ) → List Done
finished message =
    sends message
    ∷ closes
    ∷ frees ipptr_block
    ∷ frees number_block
    ∷ frees mutex_block
    ∷ frees headptr_block
    ∷ frees miss_block
    ∷ []

-- `if ((*number) == 0)`, with the mutex given back: what is done. A block that was freed keeps what it
-- held.
unfoldable pub check : Job → (total : ℕ) → List Done
check j total = if j.number == 0 then finished (second_message j total) else []
