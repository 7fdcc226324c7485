-- ===== src/Client.antt =====
-- src/client/dc_client.c: the request that the client builds from the caller's names.
pub mod Request
pub mod Replies
pub mod Search
pub mod RoundTrip
pub mod Delivery
pub mod Receive
pub mod Hits
pub mod SecondReply
pub mod TcpSearch
pub mod Overread
pub mod Refused
pub mod Outcome
pub mod Exchange
pub mod UdpStrings
pub mod UdpOutcome
mod Examples
mod SearchExamples
