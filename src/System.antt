-- ===== src/System.antt =====
-- A whole search: the client of src/client, the TCP server, the ring and the DNS threads of src/server.
pub mod Turns
pub mod Resolved
pub mod Missed
pub mod EachOnce
pub mod Threads
pub mod WholeSearch
mod Examples
