-- ===== src/Net.antt =====
-- The network streams and connectors of src/net, and what the connectors of the TLS modules share.
pub mod Calls
pub mod TcpStream
pub mod Connector
pub mod Loopback
mod Tests
