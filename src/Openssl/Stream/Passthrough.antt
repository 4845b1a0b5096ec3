-- ===== src/Openssl/Stream/Passthrough.antt =====
-- The two adapters together: a stream that is made synchronous by the wrapper, and asynchronous
-- again by `with_context`, is the stream.
use future_aio.Base.{
  ℕ, ◌≡◌, ◌≢◌, refl, ap, ◌∙◌, List, Result, ok, err, Poll, pending, ready, IoError, unexpected_eof,
  would_block, returns, ◌>>=◌,
}
use future_aio.Openssl.Wrapper.{
  AsyncToSyncWrapper, PollOf, unset_context, to_sync, sync_call, read, write, flush,
}
use future_aio.Openssl.Wrapper.Contexts.{set_context-idle, unset_context-lent, sync_call-lent}
use future_aio.Openssl.Stream.{
  SslStream, shut, result_to_poll, with_context, poll_read, poll_write, poll_flush,
}
use future_aio.Openssl.Stream.Contexts.{IsSslStream, KeepsContext}

module _ {S : Type 0} (read_inner : ℕ → PollOf S (List ℕ)) (write_inner : List ℕ → PollOf S ℕ)
    (flush_inner : PollOf S (Unit {0})) where
  -- A `SslStream` that passes reads, writes and flushes on to its wrapper as they are, and shuts down
  -- without a word to the other side.
  abbrev pub plain : SslStream S (AsyncToSyncWrapper S)
  plain = record {
    get_ref = λ t. t;
    put = λ t w. w;
    ssl_read = read read_inner;
    ssl_write = write write_inner;
    ssl_flush = flush flush_inner;
    shutdown = λ t. returns (shut, t);
  }

result_to_poll-to_sync :
    {R : Type 0} (p : Poll (Result R IoError))
    → p ≢ ready (err would_block)
    → result_to_poll (to_sync p) ≡ p
unfolding result_to_poll to_sync
result_to_poll-to_sync pending h = refl
result_to_poll-to_sync (ready (ok a)) h = refl
result_to_poll-to_sync (ready (err would_block)) h = absurd (h refl)
result_to_poll-to_sync (ready (err unexpected_eof)) h = refl
result_to_poll-to_sync (ready (err _)) h = refl

-- What `AsyncRead` and `AsyncWrite` promise: `WouldBlock` is not an answer of a poll.
abbrev pub NeverWouldBlock : {S R : Type 0} → PollOf S R → Type 0
NeverWouldBlock {S} poll = (cx : ℕ) (s : S) → (poll cx s).0 ≢ ready (err would_block)

module _ {S : Type 0} (read_inner : ℕ → PollOf S (List ℕ)) (write_inner : List ℕ → PollOf S ℕ)
    (flush_inner : PollOf S (Unit {0})) where
  sync_call-keeps :
      {R : Type 0} (poll : PollOf S R)
      → KeepsContext (λ (t : AsyncToSyncWrapper S). t) (sync_call poll)
  sync_call-keeps poll t lent = (_, _, sync_call-lent t poll lent, refl)

  pub plain-IsSslStream : IsSslStream (plain read_inner write_inner flush_inner)
  unfolding read write flush
  plain-IsSslStream = record {
    get_ref-put = λ t w. refl;
    read_keeps = λ size. sync_call-keeps (read_inner size);
    write_keeps = λ buf. sync_call-keeps (write_inner buf);
    flush_keeps = sync_call-keeps flush_inner;
    shutdown_keeps = λ t lent. (shut, t, refl, refl);
  }

  -- The stream that the poll of the stream below leaves, idle.
  abbrev pub idle_after :
      {R : Type 0} → PollOf S R → ℕ → S → Poll (Result R IoError) × AsyncToSyncWrapper S
  idle_after poll cx s = ((poll cx s).0, record { inner = (poll cx s).1; context = 0 })

  plain_call :
      {R : Type 0} (poll : PollOf S R) (cx : ℕ) (s : S)
      → NeverWouldBlock poll
      → cx ≢ 0
      → with_context
          (plain read_inner write_inner flush_inner)
          cx
          (sync_call poll)
          (record { inner = s; context = 0 })
        ≡ returns (idle_after poll cx s)
  unfolding with_context
  plain_call poll cx s never nonzero =
      let p = poll cx s in
      let w : AsyncToSyncWrapper S = record { inner = s; context = cx } in
      let idle : AsyncToSyncWrapper S = record { inner = s; context = 0 } in
      ap
        (λ m. m >>= λ w.
          sync_call poll w >>= λ r. unset_context r.1 >>= λ w'. returns (result_to_poll r.0, w'))
        (set_context-idle idle cx refl)
      ∙ ap (λ m. m >>= λ r. unset_context r.1 >>= λ w'. returns (result_to_poll r.0, w'))
          (sync_call-lent w poll nonzero)
      ∙ ap (λ m. m >>= λ w'. returns (result_to_poll (to_sync p.0), w'))
          (unset_context-lent (record { inner = p.1; context = cx }) nonzero)
      ∙ ap (λ (q : Poll (Result _ IoError)). returns (q, record { inner = p.1; context = 0 }))
          (result_to_poll-to_sync p.0 (never cx s))

  -- Over such a `SslStream` the polls to read, write and flush of a `TlsStream` are those of the
  -- stream below: `Pending` survives the way through the synchronous interface and back, and so do
  -- results and errors, if the stream below never answers `WouldBlock` itself.
  pub plain_polls :
      (cx size : ℕ) (buf : List ℕ) (s : S)
      → NeverWouldBlock (read_inner size)
      → NeverWouldBlock (write_inner buf)
      → NeverWouldBlock flush_inner
      → cx ≢ 0
      → let tls = plain read_inner write_inner flush_inner in
        let stream : AsyncToSyncWrapper S = record { inner = s; context = 0 } in
        (poll_read tls cx size stream ≡ returns (idle_after (read_inner size) cx s))
        × (poll_write tls cx buf stream ≡ returns (idle_after (write_inner buf) cx s))
        × (poll_flush tls cx stream ≡ returns (idle_after flush_inner cx s))
  unfolding poll_read poll_write poll_flush read write flush
  plain_polls cx size buf s r w f nonzero = (
    plain_call (read_inner size) cx s r nonzero,
    plain_call (write_inner buf) cx s w nonzero,
    plain_call flush_inner cx s f nonzero,
  )
