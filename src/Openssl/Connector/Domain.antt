-- ===== src/Openssl/Connector/Domain.antt =====
-- The connectors of src/openssl/connector.rs, and `split` of src/openssl/mod.rs.
pub mod Answers
use future_aio.Base.{
  ℕ, String, Option, none, some, Result, ok, err, IoError, connection_refused, Outcome, returns,
  panics, Failure,
}
use future_aio.Net.TcpStream.{Sockets, prompt_opts, stream, stream_with_opts}
use future_aio.Openssl.Handshake.{Ssl}
use future_aio.Openssl.Connector.{SslConnector, TlsConnector, connect}

-- The halves of a TLS stream, to read from and to write to.
abbrev pub Halves : Type 0 → Type 0 → Type 0 → Type 0
Halves T Read Write = T → Read × Write

module _ {W E T M Read Write : Type 0} (sockets : Sockets W)
    (tls : SslConnector E sockets.TcpStream T M)
    (handshakes : Ssl sockets.TcpStream T M (Failure E)) (split : Halves T Read Write) where
  open sockets use {TcpStream, as_raw_fd}

  pub record TlsAnonymousConnector : Type 0 where
    pub inner : TlsConnector tls handshakes

  pub from : TlsConnector tls handshakes → TlsAnonymousConnector
  from connector = record { inner = connector }

  pub record TlsDomainConnector : Type 0 where
    pub domain : String
    pub connector : TlsConnector tls handshakes

  pub new : TlsConnector tls handshakes → String → TlsDomainConnector
  new connector domain = record { domain = domain; connector = connector }

  pub new_domain : TlsDomainConnector → String → TlsDomainConnector
  new_domain c domain = record c { domain = domain }

  pub domain : TlsDomainConnector → String
  domain c = c.domain

  pub clone_box : TlsDomainConnector → TlsDomainConnector
  clone_box c = c

  -- The same of an anonymous connector, for which every domain is the same.
  pub new_domain_anonymous : TlsAnonymousConnector → String → TlsAnonymousConnector
  new_domain_anonymous c domain = c

  pub domain_anonymous : TlsAnonymousConnector → String
  domain_anonymous c = "localhost"

  pub clone_box_anonymous : TlsAnonymousConnector → TlsAnonymousConnector
  clone_box_anonymous c = c

  split_connection : T → Write × Read
  split_connection t = let (read, write) = split t in (write, read)

  -- What is done with the answer of `connect`; the text of the error is left out.
  secured :
      ℕ
      → Option (Outcome (Result T (Failure E)))
      → Option (Outcome (Result (Write × Read × ℕ) IoError))
  unfolding split_connection
  secured fd none = none
  secured fd (some panics) = some panics
  secured fd (some (returns (err f))) = some (returns (err connection_refused))
  secured fd (some (returns (ok t))) =
      let (write, read) = split_connection t in some (returns (ok (write, read, fd)))

  dialed :
      ℕ
      → ℕ
      → TlsConnector tls handshakes
      → String
      → Result TcpStream IoError × W
      → Option (Outcome (Result (Write × Read × ℕ) IoError)) × W
  unfolding secured
  dialed fuel cx c name (err e, w) = (some (returns (err e)), w)
  dialed fuel cx c name (ok tcp, w) =
      (secured (as_raw_fd tcp) (connect tls handshakes fuel cx c name tcp), w)

  -- The network of the handshake is in the stream; the world changes with the dialing.
  pub connect_anonymous :
      ℕ
      → ℕ
      → TlsAnonymousConnector
      → String
      → W
      → Option (Outcome (Result (Write × Read × ℕ) IoError)) × W
  unfolding dialed
  connect_anonymous fuel cx c domain w =
      dialed fuel cx c.inner domain (stream_with_opts sockets domain (some prompt_opts) w)

  pub connect_domain :
      ℕ
      → ℕ
      → TlsDomainConnector
      → String
      → W
      → Option (Outcome (Result (Write × Read × ℕ) IoError)) × W
  unfolding dialed
  connect_domain fuel cx c addr w = dialed fuel cx c.connector c.domain (stream sockets addr w)
