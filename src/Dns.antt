-- ===== src/Dns.antt =====
-- The DNS threads and the queue that feeds them.
pub mod Queue
pub mod Worker
mod Examples
