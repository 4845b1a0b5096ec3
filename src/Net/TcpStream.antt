-- ===== src/Net/TcpStream.antt =====
-- src/net/tcp_stream.rs: streams with socket options, not on Windows.
pub mod Seen
pub mod Settings
use future_aio.Base.{ℕ, Bool, true, String, Option, none, some, IoError}
use future_aio.Duration.{secs}
use future_aio.Net.Calls.{Calls, pure, ◌>>=◌, ◌>>◌}

-- `TCP_KEEPALIVE_TIME`, `TCP_KEEPALIVE_INTERVAL` and `TCP_KEEPALIVE_PROBES`.
abbrev pub tcp_keepalive_time : ℕ
tcp_keepalive_time = secs 7200

abbrev pub tcp_keepalive_interval : ℕ
tcp_keepalive_interval = secs 75

abbrev pub tcp_keepalive_probes : ℕ
tcp_keepalive_probes = 9

pub record KeepaliveOpts : Type 0 where
  pub time : Option ℕ
  pub interval : Option ℕ
  pub retries : Option ℕ

pub record SocketOpts : Type 0 where
  pub nodelay : Option Bool
  pub keepalive : Option KeepaliveOpts

abbrev pub default_keepalive : KeepaliveOpts
default_keepalive = record {
  time = some tcp_keepalive_time;
  interval = some tcp_keepalive_interval;
  retries = some tcp_keepalive_probes;
}

abbrev pub default_opts : SocketOpts
default_opts = record { nodelay = none; keepalive = none }

-- The options of the TLS connectors that ask for no delay.
abbrev pub prompt_opts : SocketOpts
prompt_opts = record { nodelay = some true; keepalive = some default_keepalive }

-- What the source uses of `async_net` and `socket2`, over a world of type `W`.
pub record Sockets (W : Type 0) : Type 1 where
  pub TcpStream : Type 0
  pub TcpKeepalive : Type 0
  pub new_keepalive : TcpKeepalive
  pub with_time : ℕ → TcpKeepalive → TcpKeepalive
  pub with_interval : ℕ → TcpKeepalive → TcpKeepalive
  pub with_retries : ℕ → TcpKeepalive → TcpKeepalive
  pub connect : String → Calls W IoError TcpStream
  pub set_nodelay : TcpStream → Bool → Calls W IoError (Unit {0})
  pub set_tcp_keepalive : TcpStream → TcpKeepalive → Calls W IoError (Unit {0})
  pub as_raw_fd : TcpStream → ℕ

-- `if let Some(x) = o { result = f(result, x) }`.
pub when : {A K : Type 0} → Option A → (A → K → K) → K → K
when none f k = k
when (some a) f k = f a k

module _ {W : Type 0} (sockets : Sockets W) where
  open sockets use {TcpStream, TcpKeepalive, connect, set_nodelay, set_tcp_keepalive}

  -- `From<&KeepaliveOpts> for TcpKeepalive`.
  pub from_opts : KeepaliveOpts → TcpKeepalive
  unfolding when
  from_opts opts =
      let timed = when opts.time sockets.with_time sockets.new_keepalive in
      let spaced = when opts.interval sockets.with_interval timed in
      when opts.retries sockets.with_retries spaced

  set_delay : TcpStream → Option Bool → Calls W IoError (Unit {0})
  set_delay stream none = pure tt
  set_delay stream (some nodelay) = set_nodelay stream nodelay

  set_keepalive : TcpStream → Option KeepaliveOpts → Calls W IoError (Unit {0})
  unfolding from_opts
  set_keepalive stream none = pure tt
  set_keepalive stream (some opts) = set_tcp_keepalive stream (from_opts opts)

  configure : TcpStream → Option SocketOpts → Calls W IoError (Unit {0})
  unfolding set_delay set_keepalive
  configure stream none = pure tt
  configure stream (some opts) = do
    set_delay stream opts.nodelay
    set_keepalive stream opts.keepalive

  unfoldable pub stream_with_opts : String → Option SocketOpts → Calls W IoError TcpStream
  unfolding configure
  stream_with_opts addr socket_opts = do
    tcp_stream ← connect addr
    configure tcp_stream socket_opts
    pure tcp_stream

  unfoldable pub stream : String → Calls W IoError TcpStream
  unfolding stream_with_opts
  stream addr =
      stream_with_opts addr (some (record default_opts { keepalive = some default_keepalive }))
