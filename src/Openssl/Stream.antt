-- ===== src/Openssl/Stream.antt =====
-- `TlsStream` of src/openssl/stream.rs, over what stands for `openssl::ssl::SslStream`.
pub mod Contexts
pub mod Passthrough
pub mod Sessions
use future_aio.Base.{
  ℕ, List, Result, ok, err, Poll, pending, ready, IoError, unexpected_eof, write_zero, would_block,
  connection_refused, invalid_input, other, os, Outcome, returns, panics, ◌>>=◌,
}
use future_aio.Openssl.Wrapper.{AsyncToSyncWrapper, set_context, unset_context}

-- The answers of `SslStream::shutdown` that the source tells apart.
pub data Shutdown : Type 0 where
  shut zero_return : Shutdown
  ssl_error : ℕ → Shutdown

-- `SslStream<AsyncToSyncWrapper<S>>`: a stream of type `T` that owns a wrapper, with its calls, which
-- may unwind. A read is for a buffer of a size.
pub record SslStream (S T : Type 0) : Type 0 where
  pub get_ref : T → AsyncToSyncWrapper S
  pub put : T → AsyncToSyncWrapper S → T
  pub ssl_read : ℕ → T → Outcome (Result (List ℕ) IoError × T)
  pub ssl_write : List ℕ → T → Outcome (Result ℕ IoError × T)
  pub ssl_flush : T → Outcome (Result (Unit {0}) IoError × T)
  pub shutdown : T → Outcome (Shutdown × T)

unfoldable pub result_to_poll {ℓ} : {R : Type ℓ} → Result R IoError → Poll (Result R IoError)
result_to_poll (ok v) = ready (ok v)
result_to_poll (err would_block) = pending
result_to_poll (err e) = ready (err e)

-- The answer of `poll_close` to that of `shutdown`.
pub closed : Shutdown → Result (Unit {0}) IoError
closed shut = ok tt
closed zero_return = ok tt
closed (ssl_error code) = err other

module _ {S T : Type 0} (ssl : SslStream S T) where
  open ssl use {get_ref, put}

  unfoldable pub with_context :
      {R : Type 0}
      → ℕ
      → (T → Outcome (Result R IoError × T))
      → T
      → Outcome (Poll (Result R IoError) × T)
  unfolding result_to_poll
  with_context cx f stream = do
    w ← set_context cx (get_ref stream)
    r ← f (put stream w)
    w' ← unset_context (get_ref r.1)
    returns (result_to_poll r.0, put r.1 w')

  pub poll_read : ℕ → ℕ → T → Outcome (Poll (Result (List ℕ) IoError) × T)
  poll_read cx size stream = with_context cx (ssl.ssl_read size) stream

  pub poll_write : ℕ → List ℕ → T → Outcome (Poll (Result ℕ IoError) × T)
  poll_write cx buf stream = with_context cx (ssl.ssl_write buf) stream

  pub poll_flush : ℕ → T → Outcome (Poll (Result (Unit {0}) IoError) × T)
  poll_flush cx stream = with_context cx ssl.ssl_flush stream

  pub poll_close : ℕ → T → Outcome (Poll (Result (Unit {0}) IoError) × T)
  unfolding closed
  poll_close cx stream =
      with_context cx (λ t. ssl.shutdown t >>= λ r. returns (closed r.0, r.1)) stream
