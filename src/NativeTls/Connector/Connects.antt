-- ===== src/NativeTls/Connector/Connects.antt =====
-- How the connectors of the platform's library connect.
use future_aio.Base.{String, List, some, IoError, connection_refused, ◌≡◌, refl, sym, subst}
use future_aio.Net.Calls.{Calls, map_err}
use future_aio.Net.TcpStream.{prompt_opts, Sockets, stream, stream_with_opts}
use future_aio.Net.Connector.{IsConnector}
use future_aio.Net.Connector.Derived.{
  Change, derived, last_domain, derived-last_domain, derived_same,
}
use future_aio.Net.Connector.Secure.{Secured, connect-Secured}
use future_aio.NativeTls.Connector.{
  NativeTls, prompt_opts, from, new, split_connection, refused, connect_anonymous, connect_domain,
  anonymous_connector, domain_connector,
}

module _ {W : Type 0} (sockets : Sockets W) (tls : NativeTls W sockets.TcpStream) where
  open tls use {TlsConnector, TlsStream}

  anonymous-IsConnector : IsConnector (anonymous_connector sockets tls)
  anonymous-IsConnector = record { clone_same = λ c. refl; new_domain_twice = λ c d e. refl }

  domain-IsConnector : IsConnector (domain_connector sockets tls)
  domain-IsConnector = record { clone_same = λ c. refl; new_domain_twice = λ c d e. refl }

  -- The handshake with a server; every failure of it is a refused connection.
  abbrev pub handshake : TlsConnector → String → sockets.TcpStream → Calls W IoError TlsStream
  handshake c name tcp = map_err (λ _. connection_refused) (tls.connect c name tcp)

  connect_domain-Secured :
      (c : TlsConnector) (d addr : String) (w : W)
      → Secured
          (stream_with_opts sockets addr (some prompt_opts))
          (handshake c d)
          sockets.as_raw_fd
          tls.split
          w
          (connect_domain sockets tls (new sockets tls c d) addr w)
  unfolding connect_domain new split_connection refused
  connect_domain-Secured c d addr w =
      connect-Secured (stream_with_opts sockets addr (some prompt_opts)) (handshake c d)
        sockets.as_raw_fd tls.split w

  connect_anonymous-Secured :
      (c : TlsConnector) (addr : String) (w : W)
      → Secured
          (stream sockets addr)
          (handshake c addr)
          sockets.as_raw_fd
          tls.split
          w
          (connect_anonymous sockets tls (from sockets tls c) addr w)
  unfolding connect_anonymous from split_connection refused
  connect_anonymous-Secured c addr w =
      connect-Secured (stream sockets addr) (handshake c addr) sockets.as_raw_fd tls.split w

  domain_derived :
      (c : TlsConnector) (cs : List Change) (d : String)
      → derived (domain_connector sockets tls) cs (new sockets tls c d)
        ≡ new sockets tls c (last_domain cs d)
  unfolding new
  domain_derived c cs d =
      derived-last_domain (domain_connector sockets tls) (new sockets tls c) (λ d. refl)
        (λ d e. refl) cs d

  -- A connector for the domain d, however it was cloned and given new domains, dials the address
  -- with the options for a prompt stream, and makes the handshake with the domain that it was given
  -- last. An anonymous connector, whatever domains it was given, dials the address with the default
  -- options, and makes the handshake with the same address. Each gives the connection over the
  -- dialed stream, with its descriptor, or the error of the dialing as it is, or a refused
  -- connection for any failure of the handshake.
  pub native_connects-Secured :
      (c : TlsConnector) (cs : List Change) (d addr : String) (w : W)
      → Secured
          (stream_with_opts sockets addr (some prompt_opts))
          (handshake c (last_domain cs d))
          sockets.as_raw_fd
          tls.split
          w
          (connect_domain sockets tls
            (derived (domain_connector sockets tls) cs (new sockets tls c d))
            addr
            w)
        × Secured (stream sockets addr) (handshake c addr) sockets.as_raw_fd tls.split w (
            connect_anonymous sockets tls
              (derived (anonymous_connector sockets tls) cs (from sockets tls c))
              addr
              w)
  native_connects-Secured c cs d addr w = (
    subst
        (λ b.
          Secured (stream_with_opts sockets addr (some prompt_opts))
            (handshake c (last_domain cs d)) sockets.as_raw_fd tls.split w
            (connect_domain sockets tls b addr w))
        (sym (domain_derived c cs d)) (connect_domain-Secured c (last_domain cs d) addr w),
    subst
        (λ b.
          Secured (stream sockets addr) (handshake c addr) sockets.as_raw_fd tls.split w
            (connect_anonymous sockets tls b addr w))
        (sym
          (derived_same (anonymous_connector sockets tls) (from sockets tls c) refl (λ e. refl) cs))
        (connect_anonymous-Secured c addr w),
  )
