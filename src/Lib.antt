-- ===== src/Lib.antt =====
-- dnscache: a DNS cache for web crawlers. Servers answer requests of many names from a cache, and
-- threads resolve what the cache lacks; a client library sends requests and calls back with each
-- name and its address.
--
-- The parts, and how they act on each other:
--   A client calls `dns_search`, which checks and lowers the names (`pre_do`), puts a head of 13 bytes
--   before them and sends both. The server's `serv` (TCP) or `udp_recv` (UDP) reads the request and
--   `do_search` looks each name up by `kache_retrieve`. TCP: a first message carries one address a
--   name, with 127.0.0.2 for a miss, and its flag byte tells whether a second one follows. UDP: one
--   reply. The missed names go as tasks into the ring `dns_array`; a DNS thread takes a task out,
--   calls `dnsrequest`, stores the answer by `kache_store`, and the last thread of a TCP request
--   sends the second message, pairs of an index and an address.
--
-- The files:
--   Common: lists and tests on native numbers; Common/Bytes: C strings, `memcpy` and little-endian
--     words in a buffer, where `none` is an access outside it.
--   Hash: `BKDRHash` of src/server/hash.c.
--   Kache: src/server/dl_kache.c, the record `Kache` for `main_tr_data` and `hash_data`; Kache/Init is
--     `kache_init`. The trie is an argument.
--   Protocol: the constants of src/server/constants.h and src/client/constants.h.
--   Search: the loop that the two `do_search` share, with a `Policy` for how they treat an entry
--     that is too old and whether they number the misses; Search/InPlace: the answers are written
--     over the names that are still to be read; Search/Expected: what a request is to be answered
--     by, from the records alone.
--   Server/Tcp: `serv` and `do_search` of src/server/serv_thread_make.c; Server/Udp: `udp_recv` and
--     `do_search` of src/server/udp_server.c. A handler comes to a list of `Action`s.
--   Dns/Queue: the ring of src/server/server.h, `do_dns_search` of both servers and the taking of a
--     task in `thread_main_dns`; Dns/Worker: the rest of `thread_main_dns` of
--     src/server/dns_thread_make.c and src/server/dnsrequest.c; Dns/Worker/Expected: the address that a
--     name is to get; Dns/Worker/Message: the bytes of the second message.
--   Client/Request: `is_in_set`, `pre_do` and `build_head` of src/client/dc_client.c; Client/Replies
--     and Client/Search: `tcp_dns_search`, `udp_dns_search` and `dns_search`; Client/UdpStrings: what
--     the `strlen` in the loop of `udp_dns_search` reads; Client/Exchange puts the client's request to
--     the model of the server.
--   Slist: src/server/slist.c and its copy src/client/slist.c, nodes in memory and the loops over
--     `next`; Slist/Chains: the nodes that a list holds, by address.
--   Memory: src/server/dc_mm1.c. Memory/SizeClass: `first_bit` and the capacity that `dc_alloc`
--     chooses; Memory/Chunks: the tables of dc_mm_structs.h, the record `Memory`, and `mm_init`,
--     `mk_el` and `expand_el`; Memory/Alloc and Memory/Free: `dc_alloc`, `dc_free`, `dc_realloc` and
--     `print_statics`; Memory/Views: what the tables hold, by capacity. The Makefiles build dc_mm.c in
--     its place, which only calls `malloc`, `realloc` and `free`.
--   System: a search over TCP as a whole, from the caller's names through the TCP server, the ring
--     and the DNS threads to the calls of `f`; the threads take the tasks in order and finish one before the next.
--   List2tri: src/server/list2tri.c, which numbers the names for the trie that the server loads;
--     List2tri/Addresses: the tool together with `kache_init`. The tool's result is the trie that it
--     saves.
--   TailPool: src/client/datrie_tail_pool.c, strings in a buffer that grows; TailPool/File: the file.
--
-- State and time: a function of the code that changes a structure takes and returns it. The cache
-- as other threads leave it at the moment of each lookup is an argument (`kache_at`), so is the
-- time (`clock`). A region under a mutex is one step; what stands between two regions is a step of
-- its own, which Dns/Worker/Race uses. A socket is the list of what each `read` returns, or a
-- datagram; the sending calls are results. `uint32` values wrap around at 2^32 where the code
-- subtracts; where `total_length` of `pre_do` would wrap, which takes its loops back to the start of
-- the caller's buffer, the model stops with `none`. `serv` reads three bytes behind the head of a
-- request: what its block has there is an argument.
--
-- Bounds: `search_loop` has as fuel the length of the request plus one, and each round reads at
-- least one byte; the theorems on it show a result, so that the fuel is enough. The loops over
-- `next` have a number of rounds, and the theorems on them say how many are enough. `dc_alloc` has as
-- fuel the calls of itself, and the theorems need none. The loop that
-- grows a pool has rounds too: each doubles the pool. The loop of `list2tri` has as fuel the
-- names plus one. The other loops recurse on a list, or on the
-- rounds that are left.
--
-- Taken as arguments: the trie (`trie_retrieve`, a copy of libdatrie in src/server), `getaddrinfo`,
-- what `malloc`, `realloc` and `dc_alloc` leave in a block, the sending calls, the clock. Not
-- modelled: socket and thread set-up (src/server/mainserver.c, src/server/init.c), signals, the
-- wrappers that end the process (errors.c, wraps.c), the trie's own files, src/server/lirs.c, which
-- is compiled out, and the test programs. A block is not reused: a double free of what a
-- request has shows as a second `frees` of the same block, and `malloc` of src/server/dc_mm1.c gives a new block at
-- each call. A chunk is an address, its block has room for 1024 nodes of a list, and a call of
-- `dc_alloc` or `dc_free` is one step, although they read some counts before they lock.
pub mod Common
pub mod Hash
pub mod Kache
pub mod Protocol
pub mod Search
pub mod Server
pub mod Dns
pub mod Client
pub mod Slist
pub mod System
pub mod Memory
pub mod TailPool
pub mod List2tri
