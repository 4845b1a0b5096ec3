-- ===== src/Net/Connector/Secure.antt =====
-- What the connectors of the TLS modules share: a stream is dialed, and secured by a handshake.
use future_aio.Base.{ℕ, Result, ok, err, IoError, ◌≡◌, refl, ◌⊎◌, inl, inr}
use future_aio.Net.Calls.{Calls, pure, followed, ◌>>=◌}

module _ {W Tcp Tls Write Read : Type 0} (dial : Calls W IoError Tcp)
    (handshake : Tcp → Calls W IoError Tls) (as_raw_fd : Tcp → ℕ) (split : Tls → Read × Write) where
  -- A connection over a stream that was dialed and on which the handshake succeeded, with the
  -- descriptor of the dialed stream; or the error of the dialing, and no handshake is made; or that
  -- of the handshake.
  abbrev pub Secured : W → Result (Write × Read × ℕ) IoError × W → Type 0
  Secured w (ok c, w') =
      (tcp : Tcp) × (v : W) × (tls : Tls) × (dial w ≡ (ok tcp, v))
      × (handshake tcp v ≡ (ok tls, w'))
      × (c ≡ ((split tls).1, (split tls).0, as_raw_fd tcp))
  Secured w (err e, w') =
      (dial w ≡ (err e, w'))
      ⊎ ((tcp : Tcp) × (v : W) × (dial w ≡ (ok tcp, v)) × (handshake tcp v ≡ (err e, w')))

  -- The connection of a stream that is secured.
  abbrev pub connection : Tcp → Tls → Write × Read × ℕ
  connection tcp tls = ((split tls).1, (split tls).0, as_raw_fd tcp)

  shaken :
      (w v : W) (tcp : Tcp) (r : Result Tls IoError × W)
      → dial w ≡ (ok tcp, v)
      → handshake tcp v ≡ r
      → Secured w (followed (λ tls. pure (connection tcp tls)) r)
  shaken w v tcp (ok tls, w') d h = (tcp, v, tls, d, h, refl)
  shaken w v tcp (err e, w') d h = inr (tcp, v, d, h)

  dialed :
      (w : W) (r : Result Tcp IoError × W)
      → dial w ≡ r
      → Secured w (followed (λ tcp. handshake tcp >>= λ tls. pure (connection tcp tls)) r)
  dialed w (ok tcp, v) d = shaken w v tcp (handshake tcp v) d refl
  dialed w (err e, v) d = inl d

  pub connect-Secured :
      (w : W) → Secured w ((dial >>= λ tcp. handshake tcp >>= λ tls. pure (connection tcp tls)) w)
  connect-Secured w = dialed w (dial w) refl
