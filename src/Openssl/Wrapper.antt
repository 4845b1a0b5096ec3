-- ===== src/Openssl/Wrapper.antt =====
-- `AsyncToSyncWrapper` of src/openssl/async_to_sync_wrapper.rs: an asynchronous stream with the
-- interface of a synchronous one. The address of the task's context is kept in the wrapper during
-- a call; it is not 0.
pub mod Contexts
use future_aio.Base.{
  ℕ, ◌==◌, if◌then◌else◌, List, Result, ok, err, Poll, pending, ready, IoError, would_block,
  Outcome, returns, panics, ◌>>=◌,
}

pub record AsyncToSyncWrapper (S : Type 0) : Type 0 where
  pub inner : S
  pub context : ℕ

-- What a poll of the stream below does, with a context.
abbrev pub PollOf : Type 0 → Type 0 → Type 0
PollOf S R = ℕ → S → Poll (Result R IoError) × S

unfoldable pub to_sync : {R : Type 0} → Poll (Result R IoError) → Result R IoError
to_sync (ready r) = r
to_sync pending = err would_block

module _ {S : Type 0} where
  unfoldable pub new : S → AsyncToSyncWrapper S
  new inner = record { inner = inner; context = 0 }

  -- `assert_eq!(self.context, 0)` and the store of the address.
  unfoldable pub set_context : ℕ → AsyncToSyncWrapper S → Outcome (AsyncToSyncWrapper S)
  set_context cx w = if w.context == 0 then returns (record w { context = cx }) else panics

  unfoldable pub unset_context : AsyncToSyncWrapper S → Outcome (AsyncToSyncWrapper S)
  unset_context w = if w.context == 0 then panics else returns (record w { context = 0 })

  module _ {R : Type 0} where
    unfoldable pub with_context :
        AsyncToSyncWrapper S → PollOf S R → Outcome (Poll (Result R IoError) × AsyncToSyncWrapper S)
    with_context w f =
        if w.context == 0
        then panics
        else let (r, inner) = f w.context w.inner in returns (r, record w { inner = inner })

    -- `read`, `write` and `flush`, over `poll_read`, `poll_write` and `poll_flush` of the stream.
    unfoldable pub sync_call :
        PollOf S R → AsyncToSyncWrapper S → Outcome (Result R IoError × AsyncToSyncWrapper S)
    unfolding with_context to_sync
    sync_call poll w = with_context w poll >>= λ r. returns (to_sync r.0, r.1)

  -- A read is for a buffer of a size, and gives the bytes that it puts there.
  module _ (poll_read : ℕ → PollOf S (List ℕ)) where
    unfoldable pub read :
        ℕ → AsyncToSyncWrapper S → Outcome (Result (List ℕ) IoError × AsyncToSyncWrapper S)
    unfolding sync_call
    read size w = sync_call (poll_read size) w

  module _ (poll_write : List ℕ → PollOf S ℕ) where
    unfoldable pub write :
        List ℕ → AsyncToSyncWrapper S → Outcome (Result ℕ IoError × AsyncToSyncWrapper S)
    unfolding sync_call
    write buf w = sync_call (poll_write buf) w

  module _ (poll_flush : PollOf S (Unit {0})) where
    unfoldable pub flush :
        AsyncToSyncWrapper S → Outcome (Result (Unit {0}) IoError × AsyncToSyncWrapper S)
    unfolding sync_call
    flush w = sync_call poll_flush w
