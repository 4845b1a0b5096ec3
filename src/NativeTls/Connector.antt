-- ===== src/NativeTls/Connector.antt =====
-- `connector` and `split` of src/native_tls.rs: TLS connections by the library of the platform.
pub mod Connects
use future_aio.Base.{ℕ, String, true, some, IoError, connection_refused}
use future_aio.Net.Calls.{Calls, pure, map_err, ◌>>=◌}
use future_aio.Net.TcpStream.{prompt_opts, Sockets, stream, stream_with_opts}
use future_aio.Net.Connector.{TcpDomainConnector}

-- What the source uses of `async_native_tls`.
pub record NativeTls (W Tcp : Type 0) : Type 1 where
  pub TlsConnector : Type 0
  pub TlsStream : Type 0
  pub TlsError : Type 0
  pub ReadHalf : Type 0
  pub WriteHalf : Type 0
  pub connect : TlsConnector → String → Tcp → Calls W TlsError TlsStream
  pub split : TlsStream → ReadHalf × WriteHalf

module _ {W : Type 0} (sockets : Sockets W) (tls : NativeTls W sockets.TcpStream) where
  open tls use {TlsConnector, TlsStream, TlsError, ReadHalf, WriteHalf}

  pub record TlsAnonymousConnector : Type 0 where
    pub inner : TlsConnector

  pub from : TlsConnector → TlsAnonymousConnector
  from connector = record { inner = connector }

  pub record TlsDomainConnector : Type 0 where
    pub domain : String
    pub connector : TlsConnector

  pub new : TlsConnector → String → TlsDomainConnector
  new connector domain = record { domain = domain; connector = connector }

  split_connection : TlsStream → WriteHalf × ReadHalf
  split_connection s = let (read, write) = tls.split s in (write, read)

  -- The text of the error is left out.
  refused : TlsError → IoError
  refused e = connection_refused

  pub connect_anonymous :
      TlsAnonymousConnector → String → Calls W IoError (WriteHalf × ReadHalf × ℕ)
  unfolding refused split_connection
  connect_anonymous c domain = do
    tcp_stream ← stream sockets domain
    let fd = sockets.as_raw_fd tcp_stream
    s ← map_err refused (tls.connect c.inner domain tcp_stream)
    let (write, read) = split_connection s
    pure (write, read, fd)

  pub connect_domain : TlsDomainConnector → String → Calls W IoError (WriteHalf × ReadHalf × ℕ)
  unfolding refused split_connection
  connect_domain c addr = do
    tcp_stream ← stream_with_opts sockets addr (some prompt_opts)
    let fd = sockets.as_raw_fd tcp_stream
    s ← map_err refused (tls.connect c.connector c.domain tcp_stream)
    let (write, read) = split_connection s
    pure (write, read, fd)

  abbrev pub anonymous_connector : TcpDomainConnector W ℕ WriteHalf ReadHalf TlsAnonymousConnector
  anonymous_connector = record {
    connect = connect_anonymous;
    new_domain = λ c d. c;
    domain = λ c. "localhost";
    clone_box = λ c. c;
  }

  abbrev pub domain_connector : TcpDomainConnector W ℕ WriteHalf ReadHalf TlsDomainConnector
  domain_connector = record {
    connect = connect_domain;
    new_domain = λ c d. record c { domain = d };
    domain = λ c. c.domain;
    clone_box = λ c. c;
  }
