-- ===== src/Config/Accepted.antt =====
-- What a topology that validate accepts guarantees to the rest of the program.
mod Checks
pub mod Ports
pub mod Latency
pub mod Receipts
pub mod Injection
pub mod Replay
