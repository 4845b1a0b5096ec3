-- ===== src/Openssl/Handshake.antt =====
-- `HandshakeFuture` of src/openssl/handshake.rs: a TLS handshake, polled until it is over.
pub mod Progress
use future_aio.Base.{
  ℕ, zero, suc, Result, ok, err, Option, none, some, Poll, pending, ready, Outcome, returns, panics,
  ◌>>=◌,
}
use future_aio.Openssl.Wrapper.{AsyncToSyncWrapper, set_context, unset_context}

-- What a step of the handshake of `openssl` gives: a stream, a handshake that waits for the network
-- (`HandshakeError::WouldBlock`), or a failure.
pub data Step (T M E : Type 0) : Type 0 where
  stream : T → Step T M E
  blocked : M → Step T M E
  failed : E → Step T M E

-- The two types of `openssl` that own a wrapper, `SslStream` and `MidHandshakeSslStream`, and the
-- next step of a handshake that waits.
pub record Ssl (S T M E : Type 0) : Type 0 where
  pub stream_wrapper : T → AsyncToSyncWrapper S
  pub put_stream : T → AsyncToSyncWrapper S → T
  pub mid_wrapper : M → AsyncToSyncWrapper S
  pub put_mid : M → AsyncToSyncWrapper S → M
  pub handshake : M → Outcome (Step T M E)

pub data HandshakeFuture (S T M E : Type 0) : Type 0 where
  initial :
      (AsyncToSyncWrapper S → Outcome (Step T M E)) → AsyncToSyncWrapper S → HandshakeFuture S T M E
  mid_handshake : M → HandshakeFuture S T M E
  done : HandshakeFuture S T M E

module _ {S T M E : Type 0} (ssl : Ssl S T M E) where
  -- The `match` on the step, the same in both arms: the future that stays, and the answer. `done`
  -- was stored before, by `mem::replace`.
  settled : Step T M E → Outcome (Poll (Result T E) × HandshakeFuture S T M E)
  settled (stream t) = do
    w ← unset_context (ssl.stream_wrapper t)
    returns (ready (ok (ssl.put_stream t w)), done)
  settled (blocked m) = do
    w ← unset_context (ssl.mid_wrapper m)
    returns (pending, mid_handshake (ssl.put_mid m w))
  settled (failed e) = returns (ready (err e), done)

  unfoldable pub poll :
      ℕ → HandshakeFuture S T M E → Outcome (Poll (Result T E) × HandshakeFuture S T M E)
  unfolding settled
  poll cx (initial f w) = do w' ← set_context cx w; s ← f w'; settled s
  poll cx (mid_handshake m) = do
    w ← set_context cx (ssl.mid_wrapper m)
    s ← ssl.handshake (ssl.put_mid m w)
    settled s
  poll cx done = panics

  next_poll :
      (HandshakeFuture S T M E → Option (Outcome (Result T E)))
      → Outcome (Poll (Result T E) × HandshakeFuture S T M E)
      → Option (Outcome (Result T E))
  next_poll next panics = some panics
  next_poll next (returns (pending, h)) = next h
  next_poll next (returns (ready r, h)) = some (returns r)

  -- `.await` in `connect` and `accept`: the executor polls until the future is ready. `none` means
  -- that the fuel ran out.
  unfoldable pub await : ℕ → ℕ → HandshakeFuture S T M E → Option (Outcome (Result T E))
  unfolding next_poll
  await zero cx h = none
  await (suc fuel) cx h = next_poll (λ h'. await fuel cx h') (poll cx h)
