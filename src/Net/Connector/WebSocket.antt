-- ===== src/Net/Connector/WebSocket.antt =====
-- The connector of src/net/mod.rs for wasm32, over a web socket.
use future_aio.Base.{String, IoError, other, refl}
use future_aio.Net.Calls.{Calls, pure, map_err, ◌>>=◌}
use future_aio.Net.Connector.{TcpDomainConnector, IsConnector}

-- What the source uses of `ws_stream_wasm`: the web socket that is connected, as an asynchronous
-- stream with its two halves.
pub record WebSockets (W : Type 0) : Type 1 where
  pub WsStreamIo : Type 0
  pub WsError : Type 0
  pub ReadHalf : Type 0
  pub WriteHalf : Type 0
  pub connect : String → Calls W WsError WsStreamIo
  pub split : WsStreamIo → ReadHalf × WriteHalf

-- `DefaultDomainWebsocketConnector` has no fields.
pub data DefaultDomainWebsocketConnector : Type 0 where
  websocket_connector : DefaultDomainWebsocketConnector

pub new : DefaultDomainWebsocketConnector
new = websocket_connector

module _ {W : Type 0} (sockets : WebSockets W) where
  open sockets use {WsError, ReadHalf, WriteHalf}

  -- The cause of the error is left out.
  failed : WsError → IoError
  failed e = other

  -- The descriptor of the connection is the address.
  pub connect :
      DefaultDomainWebsocketConnector → String → Calls W IoError (WriteHalf × ReadHalf × String)
  unfolding failed
  connect c addr = do
    wsstream_io ← map_err failed (sockets.connect addr)
    let (stream, sink) = sockets.split wsstream_io
    pure (sink, stream, addr)

  abbrev pub websocket :
      TcpDomainConnector W String WriteHalf ReadHalf DefaultDomainWebsocketConnector
  websocket = record {
    connect = connect;
    new_domain = λ c d. c;
    domain = λ c. "localhost";
    clone_box = λ c. c;
  }

  websocket-IsConnector : IsConnector websocket
  websocket-IsConnector = record { clone_same = λ c. refl; new_domain_twice = λ c d e. refl }
