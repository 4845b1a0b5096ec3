-- ===== src/NativeTls.antt =====
-- src/native_tls.rs: TLS by the library of the platform.
pub mod Connector
pub mod Builder
mod Tests
