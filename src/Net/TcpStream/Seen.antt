-- ===== src/Net/TcpStream/Seen.antt =====
-- The settings that a stream of src/net/tcp_stream.rs is seen with, and how `from_opts` keeps them.
use future_aio.Base.{ℕ, Bool, Option, none, some, ok, ◌≡◌, ap, ◌∙◌}
use future_aio.Net.TcpStream.{KeepaliveOpts, Sockets, when, from_opts}

-- What the system tells of a stream's settings, with `none` for its own default.
pub record Settings {W : Type 0} (sockets : Sockets W) : Type 0 where
  pub nodelay_of : sockets.TcpStream → W → Bool
  pub keepalive_of : sockets.TcpStream → W → KeepaliveOpts
  pub view : sockets.TcpKeepalive → KeepaliveOpts

-- What is relied on: `TcpKeepalive` keeps what it is built with, and a setter that succeeds sets
-- its setting and leaves the other.
pub record IsFaithful {W : Type 0} (sockets : Sockets W) (seen : Settings sockets) : Type 0 where
  pub view_new :
      seen.view sockets.new_keepalive ≡ record { time = none; interval = none; retries = none }
  pub view_time :
      (t : ℕ) (k : sockets.TcpKeepalive)
      → seen.view (sockets.with_time t k) ≡ record (seen.view k) { time = some t }
  pub view_interval :
      (t : ℕ) (k : sockets.TcpKeepalive)
      → seen.view (sockets.with_interval t k) ≡ record (seen.view k) { interval = some t }
  pub view_retries :
      (n : ℕ) (k : sockets.TcpKeepalive)
      → seen.view (sockets.with_retries n k) ≡ record (seen.view k) { retries = some n }
  pub sets_nodelay :
      (s : sockets.TcpStream) (b : Bool) (w w' : W)
      → sockets.set_nodelay s b w ≡ (ok tt, w')
      → (seen.nodelay_of s w' ≡ b) × (seen.keepalive_of s w' ≡ seen.keepalive_of s w)
  pub sets_keepalive :
      (s : sockets.TcpStream) (k : sockets.TcpKeepalive) (w w' : W)
      → sockets.set_tcp_keepalive s k w ≡ (ok tt, w')
      → (seen.keepalive_of s w' ≡ seen.view k) × (seen.nodelay_of s w' ≡ seen.nodelay_of s w)

module _ {W : Type 0} (sockets : Sockets W) (seen : Settings sockets)
    (laws : IsFaithful sockets seen) where
  open sockets use {TcpKeepalive}
  open seen use {view}

  view_timed :
      (t : Option ℕ)
      → view (when t sockets.with_time sockets.new_keepalive)
        ≡ record { time = t; interval = none; retries = none }
  unfolding when
  view_timed none = laws.view_new
  view_timed (some t) =
      laws.view_time t sockets.new_keepalive
      ∙ ap {A = KeepaliveOpts} (λ v. record v { time = some t }) laws.view_new

  view_spaced :
      (t i : Option ℕ) (k : TcpKeepalive)
      → view k ≡ record { time = t; interval = none; retries = none }
      → view (when i sockets.with_interval k) ≡ record { time = t; interval = i; retries = none }
  unfolding when
  view_spaced t none k e = e
  view_spaced t (some i) k e =
      laws.view_interval i k ∙ ap {A = KeepaliveOpts} (λ v. record v { interval = some i }) e

  view_probed :
      (t i r : Option ℕ) (k : TcpKeepalive)
      → view k ≡ record { time = t; interval = i; retries = none }
      → view (when r sockets.with_retries k) ≡ record { time = t; interval = i; retries = r }
  unfolding when
  view_probed t i none k e = e
  view_probed t i (some r) k e =
      laws.view_retries r k ∙ ap {A = KeepaliveOpts} (λ v. record v { retries = some r }) e

  pub view-from_opts : (opts : KeepaliveOpts) → view (from_opts sockets opts) ≡ opts
  unfolding from_opts
  view-from_opts opts =
      let timed = when opts.time sockets.with_time sockets.new_keepalive in
      let spaced = when opts.interval sockets.with_interval timed in
      view_probed opts.time opts.interval opts.retries spaced
        (view_spaced opts.time opts.interval timed (view_timed opts.time))
