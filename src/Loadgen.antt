-- ===== src/Loadgen.antt =====
-- loadgen/: the parser of token streams, the client and the arrivals.
pub mod Sse
pub mod Client
pub mod Replay
pub mod Arrival
