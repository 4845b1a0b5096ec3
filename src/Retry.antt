-- ===== src/Retry.antt =====
-- src/retry.rs: strategies that yield the delays between attempts, and the loop that makes them.
pub mod Fibonacci
pub mod Exponential
pub mod Fixed
pub mod Attempts
pub mod Timeout
mod Tests
