-- ===== src/RustTls/Connector/Connects.antt =====
-- How the connectors of rustls connect.
use future_aio.Base.{String, List, Option, none, some, IoError, ◌≡◌, refl, sym, subst}
use future_aio.Net.Calls.{Calls, ◌>>=◌, pure}
use future_aio.Net.TcpStream.{Sockets, stream}
use future_aio.Net.Connector.{IsConnector}
use future_aio.Net.Connector.Derived.{
  Change, derived, last_domain, derived-last_domain, derived_same,
}
use future_aio.Net.Connector.Secure.{Secured, connect-Secured}
use future_aio.RustTls.Connector.{
  ClientTls, from, new, server_name, split_connection, connect_anonymous, connect_domain,
  anonymous_connector, domain_connector,
}

module _ {W : Type 0} (sockets : Sockets W) (tls : ClientTls W sockets.TcpStream) where
  open tls use {TlsConnector, ServerName, TlsStream, ReadHalf, WriteHalf}

  anonymous-IsConnector : IsConnector (anonymous_connector sockets tls)
  anonymous-IsConnector = record { clone_same = λ c. refl; new_domain_twice = λ c d e. refl }

  domain-IsConnector : IsConnector (domain_connector sockets tls)
  domain-IsConnector = record { clone_same = λ c. refl; new_domain_twice = λ c d e. refl }

  -- The handshake with a server of the name, which may be refused.
  abbrev pub handshake :
      TlsConnector → Option ServerName → sockets.TcpStream → Calls W IoError TlsStream
  handshake c o tcp = server_name sockets tls o >>= λ name. tls.connect c name tcp

  -- The connection of `dial`, whatever the name.
  named-Secured :
      (c : TlsConnector) (o : Option ServerName) (addr : String) (w : W)
      → Secured (stream sockets addr) (handshake c o) sockets.as_raw_fd tls.split w (
          (stream sockets addr >>= λ tcp. server_name sockets tls o >>= λ name.
          tls.connect c name tcp >>= λ s.
          pure ((tls.split s).1, (tls.split s).0, sockets.as_raw_fd tcp))
            w)
  unfolding server_name
  named-Secured c none addr w =
      connect-Secured (stream sockets addr) (handshake c none) sockets.as_raw_fd tls.split w
  named-Secured c (some name) addr w =
      connect-Secured (stream sockets addr) (handshake c (some name)) sockets.as_raw_fd tls.split w

  connect_domain-Secured :
      (c : TlsConnector) (d addr : String) (w : W)
      → Secured
          (stream sockets addr)
          (handshake c (tls.try_from d))
          sockets.as_raw_fd
          tls.split
          w
          (connect_domain sockets tls (new sockets tls c d) addr w)
  unfolding connect_domain new split_connection
  connect_domain-Secured c d addr w = named-Secured c (tls.try_from d) addr w

  -- An anonymous connector does as the connector does whose domain is the address.
  connect_anonymous-connect_domain :
      (c : TlsConnector) (addr : String) (w : W)
      → connect_anonymous sockets tls (from sockets tls c) addr w
        ≡ connect_domain sockets tls (new sockets tls c addr) addr w
  unfolding connect_domain connect_anonymous new from
  connect_anonymous-connect_domain c addr w = refl

  domain_derived :
      (c : TlsConnector) (cs : List Change) (d : String)
      → derived (domain_connector sockets tls) cs (new sockets tls c d)
        ≡ new sockets tls c (last_domain cs d)
  unfolding new
  domain_derived c cs d =
      derived-last_domain (domain_connector sockets tls) (new sockets tls c) (λ d. refl)
        (λ d e. refl) cs d

  -- A connector for the domain d, however it was cloned and given new domains, dials the address
  -- that it is given, and gives the connection that a handshake with the domain that it was given
  -- last makes of the dialed stream, with the descriptor of that stream, or the error of the first
  -- part that fails: the dialing, the name of the domain, or the handshake. An anonymous connector,
  -- whatever domains it was given, does as a connector does whose domain is the address.
  pub rustls_connects-Secured :
      (c : TlsConnector) (cs : List Change) (d addr : String) (w : W)
      → Secured
          (stream sockets addr)
          (handshake c (tls.try_from (last_domain cs d)))
          sockets.as_raw_fd
          tls.split
          w
          (connect_domain sockets tls
            (derived (domain_connector sockets tls) cs (new sockets tls c d))
            addr
            w)
        × (connect_anonymous sockets tls
              (derived (anonymous_connector sockets tls) cs (from sockets tls c))
              addr
              w
            ≡ connect_domain sockets tls (new sockets tls c addr) addr w)
  rustls_connects-Secured c cs d addr w = (
    subst
        (λ b.
          Secured (stream sockets addr) (handshake c (tls.try_from (last_domain cs d)))
            sockets.as_raw_fd tls.split w (connect_domain sockets tls b addr w))
        (sym (domain_derived c cs d)) (connect_domain-Secured c (last_domain cs d) addr w),
    subst
        (λ b.
          connect_anonymous sockets tls b addr w
          ≡ connect_domain sockets tls (new sockets tls c addr) addr w)
        (sym
          (derived_same (anonymous_connector sockets tls) (from sockets tls c) refl (λ e. refl) cs))
        (connect_anonymous-connect_domain c addr w),
  )
