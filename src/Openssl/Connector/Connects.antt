-- ===== src/Openssl/Connector/Connects.antt =====
-- That connecting and accepting come to an end.
use future_aio.Base.{ℕ, String, ◌≢◌, ◌<◌, refl, Result, ok, err, Outcome, Failure}
use future_aio.Openssl.Wrapper.{AsyncToSyncWrapper, new}
use future_aio.Openssl.Handshake.{Ssl, Step, initial}
use future_aio.Openssl.Handshake.Progress.{IsSsl, Gives, Ends, await-Ends}
use future_aio.Openssl.Acceptor.{TlsAcceptor, accept}
use future_aio.Openssl.Connector.{SslConnector, TlsConnector, started, configured, connect}

module _ {E S T M : Type 0} (handshakes : Ssl S T M (Failure E)) (rounds : M → ℕ) where
  -- The first step of a handshake, from a wrapper that holds a context.
  abbrev pub Starts : ℕ → (AsyncToSyncWrapper S → Outcome (Step T M (Failure E))) → Type 0
  Starts bound start =
      (v : AsyncToSyncWrapper S) → v.context ≢ 0 → Gives handshakes rounds bound (start v)

module _ {E S T M : Type 0} (handshakes : Ssl S T M (Failure E)) (rounds : M → ℕ)
    (laws : IsSsl handshakes rounds) where
  accept-Ends :
      (fuel cx bound : ℕ) (acceptor : TlsAcceptor S T M (Failure E)) (stream : S)
      → cx ≢ 0
      → bound < fuel
      → Starts handshakes rounds bound acceptor.start
      → Ends handshakes rounds (accept handshakes fuel cx acceptor stream)
  unfolding accept new
  accept-Ends fuel cx bound acceptor stream c b starts =
      await-Ends handshakes rounds laws fuel cx bound (initial acceptor.start (new stream)) c b
        (refl, starts)

  module _ (tls : SslConnector E S T M) where
    started-Ends :
        (fuel cx bound : ℕ) (domain : String) (stream : S)
        (r : Result tls.Configuration (Failure E))
        → cx ≢ 0
        → bound < fuel
        → ((k : tls.Configuration) → Starts handshakes rounds bound (tls.start k domain))
        → Ends handshakes rounds (started tls handshakes fuel cx domain stream r)
    unfolding started new
    started-Ends fuel cx bound domain stream (err f) c b starts = (err f, refl, λ t h. cc)
    started-Ends fuel cx bound domain stream (ok k) c b starts =
        await-Ends handshakes rounds laws fuel cx bound (initial (tls.start k domain) (new stream))
          c b (refl, starts k)

    pub connect-Ends :
        (fuel cx bound : ℕ) (c : TlsConnector tls handshakes) (domain : String) (stream : S)
        → cx ≢ 0
        → bound < fuel
        → ((k : tls.Configuration) → Starts handshakes rounds bound (tls.start k domain))
        → Ends handshakes rounds (connect tls handshakes fuel cx c domain stream)
    unfolding connect
    connect-Ends fuel cx bound c domain stream x b starts =
        started-Ends fuel cx bound domain stream (configured tls handshakes c) x b starts

    -- Where no handshake is blocked more than `bound` times, `connect` and `accept` end after at most
    -- `bound + 1` polls, without a panic: with a stream that holds no context, or with an error.
    pub connect_and_accept-Ends :
        (fuel cx bound : ℕ) (c : TlsConnector tls handshakes) (domain : String)
        (acceptor : TlsAcceptor S T M (Failure E)) (stream : S)
        → cx ≢ 0
        → bound < fuel
        → ((k : tls.Configuration) → Starts handshakes rounds bound (tls.start k domain))
        → Starts handshakes rounds bound acceptor.start
        → Ends handshakes rounds (connect tls handshakes fuel cx c domain stream)
          × Ends handshakes rounds (accept handshakes fuel cx acceptor stream)
    connect_and_accept-Ends fuel cx bound c domain acceptor stream x b starts accepts = (
      connect-Ends fuel cx bound c domain stream x b starts,
      accept-Ends fuel cx bound acceptor stream x b accepts,
    )
