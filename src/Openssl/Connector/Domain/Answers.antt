-- ===== src/Openssl/Connector/Domain/Answers.antt =====
-- What the connectors of openssl answer.
use future_aio.Base.{
  ℕ, String, ◌≡◌, ◌≢◌, ◌<◌, refl, ◌⊎◌, inl, inr, Option, some, Result, ok, err, IoError,
  connection_refused, Outcome, returns, Failure,
}
use future_aio.Net.TcpStream.{Sockets, prompt_opts, stream, stream_with_opts}
use future_aio.Openssl.Handshake.{Ssl}
use future_aio.Openssl.Handshake.Progress.{IsSsl}
use future_aio.Openssl.Connector.{SslConnector, TlsConnector, connect}
use future_aio.Openssl.Connector.Connects.{Starts, connect-Ends}
use future_aio.Openssl.Connector.Domain.{
  Halves, from, new, new_domain, secured, dialed, connect_anonymous, connect_domain,
}

module _ {W E T M Read Write : Type 0} (sockets : Sockets W)
    (tls : SslConnector E sockets.TcpStream T M)
    (handshakes : Ssl sockets.TcpStream T M (Failure E)) (split : Halves T Read Write) where
  open sockets use {TcpStream, as_raw_fd}

  -- What the handshake of `connect` with a name answers, on a dialed stream.
  abbrev pub Shaken :
      ℕ → ℕ → TlsConnector tls handshakes → String → TcpStream → Result T (Failure E) → Type 0
  Shaken fuel cx c name tcp r = connect tls handshakes fuel cx c name tcp ≡ some (returns r)

  -- The halves of the stream that the handshake with the name gave, to write to and to read from,
  -- with the descriptor of the dialed stream; the error of the dialing; or, where the handshake on
  -- the dialed stream failed, and only there, a refused connection.
  abbrev pub Answers :
      ℕ
      → ℕ
      → TlsConnector tls handshakes
      → String
      → Result TcpStream IoError × W
      → W
      → Result (Write × Read × ℕ) IoError
      → Type 0
  Answers fuel cx c name dial w (ok a) =
      (tcp : TcpStream) × (t : T) × (dial ≡ (ok tcp, w))
      × Shaken fuel cx c name tcp (ok t)
      × (a ≡ ((split t).1, (split t).0, as_raw_fd tcp))
  Answers fuel cx c name dial w (err e) =
      (dial ≡ (err e, w))
      ⊎ ((tcp : TcpStream) × (f : Failure E) × (dial ≡ (ok tcp, w))
          × Shaken fuel cx c name tcp (err f)
          × (e ≡ connection_refused))

  abbrev pub Answered :
      ℕ
      → ℕ
      → TlsConnector tls handshakes
      → String
      → Result TcpStream IoError × W
      → Option (Outcome (Result (Write × Read × ℕ) IoError)) × W
      → Type 0
  Answered fuel cx c name dial (run, w) =
      (r : Result (Write × Read × ℕ) IoError) × (run ≡ some (returns r))
      × Answers fuel cx c name dial w r

  module _ (rounds : M → ℕ) (laws : IsSsl handshakes rounds) where
    secured-Answered :
        (fuel cx : ℕ) (c : TlsConnector tls handshakes) (name : String) (tcp : TcpStream) (w : W)
        (r : Result T (Failure E))
        → Shaken fuel cx c name tcp r
        → Answered fuel cx c name
            (ok tcp, w)
            (secured sockets tls handshakes split (as_raw_fd tcp) (some (returns r)), w)
    unfolding secured
    secured-Answered fuel cx c name tcp w (err f) run =
        (err connection_refused, refl, inr (tcp, f, refl, run, refl))
    secured-Answered fuel cx c name tcp w (ok t) run =
        (ok ((split t).1, (split t).0, as_raw_fd tcp), refl, (tcp, t, refl, run, refl))

    dialed-Answered :
        (fuel cx bound : ℕ) (c : TlsConnector tls handshakes) (name : String)
        (dial : Result TcpStream IoError × W)
        → cx ≢ 0
        → bound < fuel
        → ((k : tls.Configuration) → Starts handshakes rounds bound (tls.start k name))
        → Answered fuel cx c name dial (dialed sockets tls handshakes split fuel cx c name dial)
    unfolding dialed
    dialed-Answered fuel cx bound c name (err e, w) x b starts = (err e, refl, inl refl)
    dialed-Answered fuel cx bound c name (ok tcp, w) x b starts =
        let (r, run, idle) =
          connect-Ends handshakes rounds laws tls fuel cx bound c name tcp x b starts in
        rw run (secured-Answered fuel cx c name tcp w r run)

    -- Where no handshake with the name is blocked more than `bound` times, both connectors end, after
    -- at most `bound + 1` polls, without a panic. The connector for the domain d dials the address
    -- with the default options and makes the handshake with d, also where d is its new domain; the
    -- anonymous one dials with the options for a prompt stream, and makes the handshake with the same
    -- address. If the handshake with that name succeeds on the dialed stream, the answer is the
    -- halves of the stream that it gave, with the descriptor of the dialed stream; if it fails, a
    -- refused connection; and if the dialing fails, its error.
    pub openssl_connects-Answered :
        (fuel cx bound : ℕ) (c : TlsConnector tls handshakes) (d e addr : String) (w : W)
        → cx ≢ 0
        → bound < fuel
        → ((k : tls.Configuration) → Starts handshakes rounds bound (tls.start k d))
        → ((k : tls.Configuration) → Starts handshakes rounds bound (tls.start k addr))
        → Answered fuel cx c d (stream sockets addr w) (
            connect_domain sockets tls handshakes split fuel cx
              (new_domain sockets tls handshakes split (new sockets tls handshakes split c e) d)
              addr
              w)
          × Answered fuel cx c addr (stream_with_opts sockets addr (some prompt_opts) w) (
              connect_anonymous sockets tls handshakes split fuel cx
                (from sockets tls handshakes split c)
                addr
                w)
    unfolding connect_domain connect_anonymous new new_domain from
    openssl_connects-Answered fuel cx bound c d e addr w x b starts starts_addr = (
      dialed-Answered fuel cx bound c d (stream sockets addr w) x b starts,
      dialed-Answered fuel cx bound c addr (stream_with_opts sockets addr (some prompt_opts) w) x b
          starts_addr,
    )
