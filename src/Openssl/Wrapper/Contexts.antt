-- ===== src/Openssl/Wrapper/Contexts.antt =====
-- When the assertions on the context of a wrapper hold.
use future_aio.Base.{ℕ, ◌≡◌, ◌≢◌, returns, arith}
use future_aio.Openssl.Wrapper.{
  AsyncToSyncWrapper, PollOf, set_context, unset_context, to_sync, sync_call,
}

module _ {S : Type 0} (w : AsyncToSyncWrapper S) where
  pub set_context-idle :
      (cx : ℕ) → w.context ≡ 0 → set_context cx w ≡ returns (record w { context = cx })
  unfolding set_context
  set_context-idle cx idle = ground arith

  pub unset_context-lent : w.context ≢ 0 → unset_context w ≡ returns (record w { context = 0 })
  unfolding unset_context
  unset_context-lent lent = ground arith

  -- With a context in place a synchronous call is one poll of the stream below.
  pub sync_call-lent :
      {R : Type 0} (poll : PollOf S R)
      → w.context ≢ 0
      → sync_call poll w
        ≡ returns
            (to_sync (poll w.context w.inner).0, record w { inner = (poll w.context w.inner).1 })
  unfolding sync_call
  sync_call-lent poll lent = ground arith
