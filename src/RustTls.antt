-- ===== src/RustTls.antt =====
-- src/rust_tls.rs: TLS by rustls.
pub mod Cert
pub mod Verifier
pub mod Builder
pub mod Connector
mod Tests
