-- ===== src/Server.antt =====
-- The server's handlers of a request.
pub mod Tcp
pub mod Udp
mod Examples
