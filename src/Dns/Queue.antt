-- ===== src/Dns/Queue.antt =====
-- The ring `dns_array` of src/server/server.h: the puts of the two `do_dns_search` functions
-- (src/server/serv_thread_make.c, src/server/udp_server.c) and the take of `thread_main_dns`
-- (src/server/dns_thread_make.c), each under `dns_array_mutex`.
pub mod Contents
pub mod Drain
pub mod Batch
use dnscache.Common.{
  update, ℕ, zero, suc, ◌+◌, ◌-◌, Bool, true, false, Option, none, some, List, [], ◌∷◌, ◌++◌, leb,
  ◌==◌, if◌then◌else◌,
}
use dnscache.Search.{Node}

-- `ARRAYSIZE`.
abbrev pub array_size : ℕ
array_size = 5024000

-- `tcp_or_udp`.
pub data Kind : Type 0 where
  tcp udp : Kind

-- What a TCP task has of its request. `job` stands for the blocks that its tasks share: `number`,
-- `ipptr`, `mutex`, `headptr` and `miss`.
pub record Request : Type 0 where
  pub index : ℕ
  pub sockfd : ℕ
  pub count : ℕ
  pub total : ℕ
  pub job : ℕ

-- `dns_thread_t`. In a UDP task the pointers are NULL and the numbers are -1: `none`.
pub record Task : Type 0 where
  pub domain : List ℕ
  pub request : Option Request
  pub tcp_or_udp : Kind

pub record Ring : Type 0 where
  pub dns_array : ℕ → Task
  pub iput : ℕ
  pub iget : ℕ

-- `if (++i == ARRAYSIZE) i = 0;`
abbrev pub next : ℕ → ℕ
next i = if i + 1 == array_size then 0 else i + 1

-- `iget = iput = 0` of `main`.
abbrev pub empty_ring : (ℕ → Task) → Ring
empty_ring dns_array = record { dns_array = dns_array; iput = 0; iget = 0 }

-- A put either stores, or finds the ring full and ends the process by `exit(0)`.
pub data Put : Type 0 where
  stored : Ring → Put
  exited : Put

unfoldable pub put : Ring → Task → Put
put r t =
    if r.iget == next r.iput
    then exited
    else stored (record r { dns_array = update r.dns_array r.iput t; iput = next r.iput })

-- What a DNS thread gets; `none` is `iget == iput`, where it waits.
unfoldable pub get : Ring → Option (Task × Ring)
get r =
    if r.iget == r.iput then none else some (r.dns_array r.iget, record r { iget = next r.iget })

abbrev pub udp_task : Node → Task
udp_task m = record { domain = m.domain; request = none; tcp_or_udp = udp }

-- Every node of a TCP request has its index.
abbrev pub index_of : Node → ℕ
index_of m = elim m.index [ none ↦ 0 | some i ↦ i ]

abbrev pub tcp_task : (job connfd total i : ℕ) → Node → Task
tcp_task job connfd total i m = record {
  domain = m.domain;
  request =
      some (record { index = index_of m; sockfd = connfd; count = i; total = total; job = job });
  tcp_or_udp = tcp;
}

-- The loop of `do_dns_search` in udp_server.c.
unfoldable pub put_udp : Ring → List Node → Put
put_udp r [] = stored r
put_udp r (m ∷ misses) = elim (put r (udp_task m)) [
  | exited ↦ exited
  | stored r' ↦ put_udp r' misses
]

-- The loop of `do_dns_search` in serv_thread_make.c, from its `i`-th round on.
unfoldable pub put_tcp : (job connfd total i : ℕ) → Ring → List Node → Put
put_tcp job connfd total i r [] = stored r
put_tcp job connfd total i r (m ∷ misses) = elim (put r (tcp_task job connfd total i m)) [
  | exited ↦ exited
  | stored r' ↦ put_tcp job connfd total (i + 1) r' misses
]
