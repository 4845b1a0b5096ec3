-- ===== src/Net/TcpStream/Settings.antt =====
-- Which settings a stream has once it is connected.
use future_aio.Base.{
  Bool, String, Option, none, some, Result, ok, err, IoError, ◌≡◌, refl, ap, ◌∙◌, ◌⊎◌, inl, inr,
}
use future_aio.Net.Calls.{pure, followed, ◌>>◌}
use future_aio.Net.TcpStream.{
  KeepaliveOpts, SocketOpts, Sockets, from_opts, set_delay, set_keepalive, configure,
  stream_with_opts,
}
use future_aio.Net.TcpStream.Seen.{Settings, IsFaithful, view-from_opts}

-- The settings that a caller asks for, over those that the stream has.
abbrev pub asked : {A : Type 0} → Option A → A → A
asked none a = a
asked (some b) a = b

abbrev pub asked_nodelay : Option SocketOpts → Bool → Bool
asked_nodelay none b = b
asked_nodelay (some opts) b = asked opts.nodelay b

abbrev pub asked_keepalive : Option SocketOpts → KeepaliveOpts → KeepaliveOpts
asked_keepalive none k = k
asked_keepalive (some opts) k = asked opts.keepalive k

module _ {W : Type 0} (sockets : Sockets W) where
  open sockets use {TcpStream, TcpKeepalive, connect, set_nodelay, set_tcp_keepalive}

  -- One of the setters fails with `e`.
  abbrev pub SetterFails : TcpStream → IoError → W → Type 0
  SetterFails s e w' =
      ((b : Bool) × (v : W) × (set_nodelay s b v ≡ (err e, w')))
      ⊎ ((k : TcpKeepalive) × (v : W) × (set_tcp_keepalive s k v ≡ (err e, w')))

  module _ (seen : Settings sockets) where
    open seen use {nodelay_of, keepalive_of, view}

    -- From `w` on, the settings of `s` become these functions of what they were, or a setter fails.
    abbrev pub Configured :
        TcpStream
        → (Bool → Bool)
        → (KeepaliveOpts → KeepaliveOpts)
        → W
        → Result (Unit {0}) IoError × W
        → Type 0
    Configured s f g w (ok u, w') =
        (nodelay_of s w' ≡ f (nodelay_of s w)) × (keepalive_of s w' ≡ g (keepalive_of s w))
    Configured s f g w (err e, w') = SetterFails s e w'

    -- What `stream_with_opts` gives: a connected stream with the settings asked for, the error of
    -- `connect`, or that of a setter on the connected stream.
    abbrev pub Opened : String → Option SocketOpts → W → Result TcpStream IoError × W → Type 0
    Opened addr opts w (ok s, w') =
        (v : W) × (connect addr w ≡ (ok s, v))
        × (nodelay_of s w' ≡ asked_nodelay opts (nodelay_of s v))
        × (keepalive_of s w' ≡ asked_keepalive opts (keepalive_of s v))
    Opened addr opts w (err e, w') =
        (connect addr w ≡ (err e, w'))
        ⊎ ((s : TcpStream) × (v : W) × (connect addr w ≡ (ok s, v)) × SetterFails s e w')

    module _ (laws : IsFaithful sockets seen) where
      delay_answered :
          (s : TcpStream) (b : Bool) (w : W) (r : Result (Unit {0}) IoError × W)
          → set_nodelay s b w ≡ r
          → Configured s (λ _. b) (λ k. k) w r
      delay_answered s b w (ok u, w') e = laws.sets_nodelay s b w w' e
      delay_answered s b w (err x, w') e = inl (b, w, e)

      set_delay-Configured :
          (s : TcpStream) (o : Option Bool) (w : W)
          → Configured s (asked o) (λ k. k) w (set_delay sockets s o w)
      unfolding set_delay
      set_delay-Configured s none w = (refl, refl)
      set_delay-Configured s (some b) w = delay_answered s b w (set_nodelay s b w) refl

      keepalive_answered :
          (s : TcpStream) (opts : KeepaliveOpts) (w : W) (r : Result (Unit {0}) IoError × W)
          → set_tcp_keepalive s (from_opts sockets opts) w ≡ r
          → Configured s (λ b. b) (λ _. opts) w r
      keepalive_answered s opts w (ok u, w') e =
          let (sets, keeps) = laws.sets_keepalive s (from_opts sockets opts) w w' e in
          (keeps, sets ∙ view-from_opts sockets seen laws opts)
      keepalive_answered s opts w (err x, w') e = inr (from_opts sockets opts, w, e)

      set_keepalive-Configured :
          (s : TcpStream) (o : Option KeepaliveOpts) (w : W)
          → Configured s (λ b. b) (asked o) w (set_keepalive sockets s o w)
      unfolding set_keepalive
      set_keepalive-Configured s none w = (refl, refl)
      set_keepalive-Configured s (some opts) w =
          keepalive_answered s opts w (set_tcp_keepalive s (from_opts sockets opts) w) refl

      chained :
          (s : TcpStream) (opts : SocketOpts) (w v : W) (r : Result (Unit {0}) IoError × W)
          → Configured s (asked opts.nodelay) (λ k. k) w (ok tt, v)
          → Configured s (λ b. b) (asked opts.keepalive) v r
          → Configured s (asked opts.nodelay) (asked opts.keepalive) w r
      chained s opts w v (ok u, w') (nodelay, keepalive) c =
          (c.0 ∙ nodelay, c.1 ∙ ap (asked opts.keepalive) keepalive)
      chained s opts w v (err e, w') first c = c

      -- The second setter, after the first.
      second-Configured :
          (s : TcpStream) (opts : SocketOpts) (w : W) (r : Result (Unit {0}) IoError × W)
          → Configured s (asked opts.nodelay) (λ k. k) w r
          → Configured s
              (asked opts.nodelay)
              (asked opts.keepalive)
              w
              (followed (λ _. set_keepalive sockets s opts.keepalive) r)
      second-Configured s opts w (err e, w') c = c
      second-Configured s opts w (ok u, w') c =
          chained s opts w w' (set_keepalive sockets s opts.keepalive w') c
            (set_keepalive-Configured s opts.keepalive w')

      configure-Configured :
          (s : TcpStream) (o : Option SocketOpts) (w : W)
          → Configured s (asked_nodelay o) (asked_keepalive o) w (configure sockets s o w)
      unfolding configure
      configure-Configured s none w = (refl, refl)
      configure-Configured s (some opts) w =
          second-Configured s opts w (set_delay sockets s opts.nodelay w)
            (set_delay-Configured s opts.nodelay w)

      setters-Opened :
          (addr : String) (o : Option SocketOpts) (w v : W) (s : TcpStream)
          → connect addr w ≡ (ok s, v)
          → (r : Result (Unit {0}) IoError × W)
          → Configured s (asked_nodelay o) (asked_keepalive o) v r
          → Opened addr o w (followed (λ _. pure s) r)
      setters-Opened addr o w v s e (ok u, w') c = (v, e, c.0, c.1)
      setters-Opened addr o w v s e (err x, w') c = inr (s, v, e, c)

      connected-Opened :
          (addr : String) (o : Option SocketOpts) (w : W) (r : Result TcpStream IoError × W)
          → connect addr w ≡ r
          → Opened addr o w (followed (λ s. configure sockets s o >> pure s) r)
      connected-Opened addr o w (ok s, v) e =
          setters-Opened addr o w v s e (configure sockets s o v) (configure-Configured s o v)
      connected-Opened addr o w (err x, v) e = inl e

      -- A stream that `stream_with_opts` returns is one that `connect` gave for the address, with
      -- the delay and the keepalive settings that were asked for, each value of them, and with
      -- its own where none were asked for. An error is that of `connect`, or that of a setter after
      -- `connect` had succeeded.
      pub stream_with_opts-Opened :
          (addr : String) (o : Option SocketOpts) (w : W)
          → Opened addr o w (stream_with_opts sockets addr o w)
      unfolding stream_with_opts
      stream_with_opts-Opened addr o w = connected-Opened addr o w (connect addr w) refl
