-- ===== src/RustTls/Connector.antt =====
-- `connector` and `split` of src/rust_tls.rs: TLS connections by rustls.
pub mod Connects
use future_aio.Base.{ℕ, String, Option, none, some, IoError, invalid_input}
use future_aio.Net.Calls.{Calls, pure, fail, ◌>>=◌}
use future_aio.Net.TcpStream.{Sockets, stream}
use future_aio.Net.Connector.{TcpDomainConnector}

-- What the source uses of `futures_rustls`: connectors, the names of servers (`try_from` may refuse
-- one), and the streams that a handshake gives, with their two halves.
pub record ClientTls (W Tcp : Type 0) : Type 1 where
  pub TlsConnector : Type 0
  pub ServerName : Type 0
  pub TlsStream : Type 0
  pub ReadHalf : Type 0
  pub WriteHalf : Type 0
  pub try_from : String → Option ServerName
  pub connect : TlsConnector → ServerName → Tcp → Calls W IoError TlsStream
  pub split : TlsStream → ReadHalf × WriteHalf

module _ {W : Type 0} (sockets : Sockets W) (tls : ClientTls W sockets.TcpStream) where
  open tls use {TlsConnector, ServerName, TlsStream, ReadHalf, WriteHalf}

  pub record TlsAnonymousConnector : Type 0 where
    pub inner : TlsConnector

  pub from : TlsConnector → TlsAnonymousConnector
  from connector = record { inner = connector }

  pub record TlsDomainConnector : Type 0 where
    pub domain : String
    pub connector : TlsConnector

  pub new : TlsConnector → String → TlsDomainConnector
  new connector domain = record { domain = domain; connector = connector }

  split_connection : TlsStream → WriteHalf × ReadHalf
  split_connection s = let (read, write) = tls.split s in (write, read)

  -- `ServerName::try_from(...).map_err(...)`.
  pub server_name : Option ServerName → Calls W IoError ServerName
  server_name none = fail invalid_input
  server_name (some name) = pure name

  pub connect_anonymous :
      TlsAnonymousConnector → String → Calls W IoError (WriteHalf × ReadHalf × ℕ)
  unfolding server_name split_connection
  connect_anonymous c domain = do
    tcp_stream ← stream sockets domain
    let fd = sockets.as_raw_fd tcp_stream
    name ← server_name (tls.try_from domain)
    s ← tls.connect c.inner name tcp_stream
    let (write, read) = split_connection s
    pure (write, read, fd)

  pub connect_domain : TlsDomainConnector → String → Calls W IoError (WriteHalf × ReadHalf × ℕ)
  unfolding server_name split_connection
  connect_domain c addr = do
    tcp_stream ← stream sockets addr
    let fd = sockets.as_raw_fd tcp_stream
    name ← server_name (tls.try_from c.domain)
    s ← tls.connect c.connector name tcp_stream
    let (write, read) = split_connection s
    pure (write, read, fd)

  abbrev pub anonymous_connector : TcpDomainConnector W ℕ WriteHalf ReadHalf TlsAnonymousConnector
  anonymous_connector = record {
    connect = connect_anonymous;
    new_domain = λ c d. c;
    domain = λ c. "localhost";
    clone_box = λ c. c;
  }

  abbrev pub domain_connector : TcpDomainConnector W ℕ WriteHalf ReadHalf TlsDomainConnector
  domain_connector = record {
    connect = connect_domain;
    new_domain = λ c d. record c { domain = d };
    domain = λ c. c.domain;
    clone_box = λ c. c;
  }
