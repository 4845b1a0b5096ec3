-- ===== src/Net/Tests.antt =====
-- A stream with options at an example.
use future_aio.Base.{some}
use future_aio.Net.TcpStream.{prompt_opts, stream_with_opts}
use future_aio.Net.TcpStream.Settings.{Opened, stream_with_opts-Opened}
use future_aio.Net.Loopback.{loopback, seen, fresh, loopback-IsFaithful}

stream_with_opts-Opened_example :
    Opened loopback seen "127.0.0.1:9998"
      (some prompt_opts)
      fresh
      (stream_with_opts loopback "127.0.0.1:9998" (some prompt_opts) fresh)
stream_with_opts-Opened_example =
    stream_with_opts-Opened loopback seen loopback-IsFaithful "127.0.0.1:9998" (some prompt_opts)
      fresh
