-- ===== src/Openssl.antt =====
-- src/openssl: TLS by openssl.
pub mod Wrapper
pub mod Stream
pub mod Handshake
pub mod Certs
pub mod Context
pub mod Acceptor
pub mod Connector
mod Tests
