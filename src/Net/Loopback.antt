-- ===== src/Net/Loopback.antt =====
-- A network in memory, for runs on concrete inputs: the world is the settings of its one stream.
use future_aio.Base.{ℕ, Bool, false, none, some, ok, refl, sym, ap}
use future_aio.Net.TcpStream.{KeepaliveOpts, Sockets}
use future_aio.Net.TcpStream.Seen.{Settings, IsFaithful}

abbrev pub system_keepalive : KeepaliveOpts
system_keepalive = record { time = none; interval = none; retries = none }

abbrev pub Net : Type 0
Net = Bool × KeepaliveOpts

abbrev pub fresh : Net
fresh = (false, system_keepalive)

-- The stream is its descriptor, 7.
abbrev pub loopback : Sockets Net
loopback = record {
  TcpStream = ℕ;
  TcpKeepalive = KeepaliveOpts;
  new_keepalive = system_keepalive;
  with_time = λ t k. record k { time = some t };
  with_interval = λ t k. record k { interval = some t };
  with_retries = λ n k. record k { retries = some n };
  connect = λ addr w. (ok 7, w);
  set_nodelay = λ s b w. (ok tt, (b, w.1));
  set_tcp_keepalive = λ s k w. (ok tt, (w.0, k));
  as_raw_fd = λ s. s;
}

abbrev pub seen : Settings loopback
seen = record { nodelay_of = λ s w. w.0; keepalive_of = λ s w. w.1; view = λ k. k }

pub loopback-IsFaithful : IsFaithful loopback seen
loopback-IsFaithful = record {
  view_new = refl;
  view_time = λ t k. refl;
  view_interval = λ t k. refl;
  view_retries = λ n k. refl;
  sets_nodelay = λ s b w w' h. (ap (λ r. r.1.0) (sym h), ap (λ r. r.1.1) (sym h));
  sets_keepalive = λ s k w w' h. (ap (λ r. r.1.1) (sym h), ap (λ r. r.1.0) (sym h));
}
