-- ===== src/Net/Connector.antt =====
-- The interface `TcpDomainConnector` of src/net/mod.rs, and its implementation without TLS.
pub mod Derived
pub mod Secure
pub mod WebSocket
use future_aio.Base.{ℕ, String, IoError, ◌≡◌, refl}
use future_aio.Net.Calls.{Calls, pure, ◌>>=◌}
use future_aio.Net.TcpStream.{Sockets, stream}

-- `TcpDomainConnector` for connectors of type `C`; a connection is what to write to, what to read
-- from, and the `ConnectionFd`, which depends on the target. A boxed connector is one of its own type.
pub record TcpDomainConnector (W Fd Write Read C : Type 0) : Type 0 where
  pub connect : C → String → Calls W IoError (Write × Read × Fd)
  pub new_domain : C → String → C
  pub domain : C → String
  pub clone_box : C → C

-- What every implementation keeps to: a clone acts as the connector, and a second new domain
-- overrides the first.
pub record IsConnector {W Fd Write Read C : Type 0} (i : TcpDomainConnector W Fd Write Read C)
    : Type 0 where
  pub clone_same : (c : C) → i.clone_box c ≡ c
  pub new_domain_twice :
      (c : C) (d e : String) → i.new_domain (i.new_domain c d) e ≡ i.new_domain c e

-- `DefaultTcpDomainConnector` has no fields.
pub data DefaultTcpDomainConnector : Type 0 where
  default_connector : DefaultTcpDomainConnector

module _ {W : Type 0} (sockets : Sockets W) where
  open sockets use {TcpStream}

  -- A `TcpStream` is a handle, and its clone the same handle. `split_connection` of a `TcpStream`
  -- gives the clone to write to and the stream to read from.
  pub split_connection : TcpStream → TcpStream × TcpStream
  split_connection s = (s, s)

  pub connect : DefaultTcpDomainConnector → String → Calls W IoError (TcpStream × TcpStream × ℕ)
  connect c addr = do
    tcp_stream ← stream sockets addr
    let fd = sockets.as_raw_fd tcp_stream
    pure (tcp_stream, tcp_stream, fd)

  abbrev pub default_tcp : TcpDomainConnector W ℕ TcpStream TcpStream DefaultTcpDomainConnector
  default_tcp = record {
    connect = connect;
    new_domain = λ c d. c;
    domain = λ c. "localhost";
    clone_box = λ c. c;
  }

  default_tcp-IsConnector : IsConnector default_tcp
  default_tcp-IsConnector = record { clone_same = λ c. refl; new_domain_twice = λ c d e. refl }
