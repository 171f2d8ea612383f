-- ===== src/Rpc.antt =====
-- nameko/rpc.py: remote procedure calls, on the side that serves them and the side that makes them.
mod Examples
pub mod Client
pub mod Registration
pub mod RoundTrip
pub mod Server
