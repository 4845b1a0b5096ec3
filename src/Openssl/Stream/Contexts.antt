-- ===== src/Openssl/Stream/Contexts.antt =====
-- A poll of a `TlsStream` lends the context for one call and takes it back.
use future_aio.Base.{
  ℕ, ◌≡◌, ◌≢◌, refl, sym, ap, ◌∙◌, ◌⊎◌, inl, inr, List, Result, ok, err, Poll, pending, ready,
  IoError, would_block, unexpected_eof, other, Outcome, returns, ◌>>=◌,
}
use future_aio.Openssl.Wrapper.{AsyncToSyncWrapper, unset_context}
use future_aio.Openssl.Wrapper.Contexts.{set_context-idle, unset_context-lent}
use future_aio.Openssl.Stream.{
  SslStream, Shutdown, shut, zero_return, ssl_error, result_to_poll, closed, with_context,
  poll_read, poll_write, poll_flush, poll_close,
}

-- What is relied on of a call of `SslStream`: while its wrapper holds a context it does not unwind,
-- and it leaves the context in place.
abbrev pub KeepsContext :
    {S T R : Type 0} → (T → AsyncToSyncWrapper S) → (T → Outcome (R × T)) → Type 0
KeepsContext {T} {R} get_ref f =
    (t : T)
    → (get_ref t).context ≢ 0
    → (r : R) × (t' : T) × (f t ≡ returns (r, t')) × ((get_ref t').context ≡ (get_ref t).context)

pub record IsSslStream {S T : Type 0} (ssl : SslStream S T) : Type 0 where
  pub get_ref-put : (t : T) (w : AsyncToSyncWrapper S) → ssl.get_ref (ssl.put t w) ≡ w
  pub read_keeps : (size : ℕ) → KeepsContext ssl.get_ref (ssl.ssl_read size)
  pub write_keeps : (buf : List ℕ) → KeepsContext ssl.get_ref (ssl.ssl_write buf)
  pub flush_keeps : KeepsContext ssl.get_ref ssl.ssl_flush
  pub shutdown_keeps : KeepsContext ssl.get_ref ssl.shutdown

module _ {S T : Type 0} (ssl : SslStream S T) where
  abbrev pub IsIdle : T → Type 0
  IsIdle t = (ssl.get_ref t).context ≡ 0

  -- The stream lent the context `cx`.
  abbrev lent : T → ℕ → T
  lent t cx = ssl.put t (record (ssl.get_ref t) { context = cx })

  -- `WouldBlock` becomes `Pending`, and every other answer is ready.
  abbrev pub PollsAs : {R : Type 0} → Result R IoError → Poll (Result R IoError) → Type 0
  PollsAs r p = ((r ≡ err would_block) × (p ≡ pending)) ⊎ ((r ≢ err would_block) × (p ≡ ready r))

  -- The poll makes the call with the context lent, returns its answer, and leaves an idle stream.
  abbrev pub Polled :
      {R : Type 0}
      → ℕ
      → (T → Outcome (Result R IoError × T))
      → T
      → Outcome (Poll (Result R IoError) × T)
      → Type 0
  Polled {R} cx f t run =
      (r : Result R IoError) × (p : Poll (Result R IoError)) × (t₁ t' : T) × (f (lent t cx)
        ≡ returns (r, t₁))
      × (run ≡ returns (p, t'))
      × PollsAs r p
      × IsIdle t'

  -- A close is ready at once: a success where the connection is shut, or was closed by the other
  -- side, and else an error.
  abbrev pub ClosesAs : Shutdown → Poll (Result (Unit {0}) IoError) → Type 0
  ClosesAs a p =
      (((a ≡ shut) ⊎ (a ≡ zero_return)) × (p ≡ ready (ok tt)))
      ⊎ (((code : ℕ) × (a ≡ ssl_error code)) × (p ≡ ready (err other)))

  abbrev pub Closed : ℕ → T → Outcome (Poll (Result (Unit {0}) IoError) × T) → Type 0
  Closed cx t run =
      (a : Shutdown) × (p : Poll (Result (Unit {0}) IoError)) × (t₁ t' : T) × (ssl.shutdown
          (lent t cx)
        ≡ returns (a, t₁))
      × (run ≡ returns (p, t'))
      × ClosesAs a p
      × IsIdle t'

module _ {S T : Type 0} (ssl : SslStream S T) (laws : IsSslStream ssl) where
  result_to_poll-PollsAs : {R : Type 0} (r : Result R IoError) → PollsAs ssl r (result_to_poll r)
  unfolding result_to_poll
  result_to_poll-PollsAs (ok v) = inr (λ e. cc, refl)
  result_to_poll-PollsAs (err would_block) = inl (refl, refl)
  result_to_poll-PollsAs (err unexpected_eof) = inr (λ e. cc, refl)
  result_to_poll-PollsAs (err _) = inr (λ e. cc, refl)

  closed-ClosesAs : (a : Shutdown) → ClosesAs ssl a (result_to_poll (closed a))
  unfolding closed result_to_poll
  closed-ClosesAs shut = inl (inl refl, refl)
  closed-ClosesAs zero_return = inl (inr refl, refl)
  closed-ClosesAs (ssl_error code) = inr ((code, refl), refl)

  -- What a call that keeps the context answers, and the stream it leaves, on the way through.
  with_context-returns :
      {R : Type 0} (cx : ℕ) (f : T → Outcome (Result R IoError × T)) (t : T)
      → KeepsContext ssl.get_ref f
      → IsIdle ssl t
      → cx ≢ 0
      → (r : Result R IoError) × (t₁ t' : T) × (f (lent ssl t cx) ≡ returns (r, t₁))
        × (with_context ssl cx f t ≡ returns (result_to_poll r, t'))
        × IsIdle ssl t'
  unfolding with_context
  with_context-returns cx f t keeps idle nonzero =
      let held =
        ap (λ w. w.context) (laws.get_ref-put t (record (ssl.get_ref t) { context = cx })) in
      let (r, t₁, ran, kept) = keeps (lent ssl t cx) (λ z. nonzero (sym held ∙ z)) in
      let back = unset_context-lent (ssl.get_ref t₁) (λ z. nonzero (sym (kept ∙ held) ∙ z)) in
      (
        r,
        t₁,
        ssl.put t₁ (record (ssl.get_ref t₁) { context = 0 }),
        ran,
        ap
              (λ m. m >>= λ w. f (ssl.put t w) >>= λ p. unset_context (ssl.get_ref p.1) >>= λ w'.
                returns (result_to_poll p.0, ssl.put p.1 w'))
              (set_context-idle (ssl.get_ref t) cx idle)
            ∙ ap
                (λ m. m >>= λ p. unset_context (ssl.get_ref p.1) >>= λ w'.
                  returns (result_to_poll p.0, ssl.put p.1 w'))
                ran
            ∙ ap (λ m. m >>= λ w'. returns (result_to_poll r, ssl.put t₁ w')) back,
        ap (λ w. w.context) (laws.get_ref-put t₁ (record (ssl.get_ref t₁) { context = 0 })),
      )

  shutdown_call : T → Outcome (Result (Unit {0}) IoError × T)
  shutdown_call t = ssl.shutdown t >>= λ r. returns (closed r.0, r.1)

  shutdown_call_keeps : KeepsContext ssl.get_ref shutdown_call
  unfolding shutdown_call
  shutdown_call_keeps t lent =
      let (r, t', ran, kept) = laws.shutdown_keeps t lent in
      (closed r, t', ap (λ m. m >>= λ p. returns (closed p.0, p.1)) ran, kept)

  with_context-Polled :
      {R : Type 0} (cx : ℕ) (f : T → Outcome (Result R IoError × T)) (t : T)
      → KeepsContext ssl.get_ref f
      → IsIdle ssl t
      → cx ≢ 0
      → Polled ssl cx f t (with_context ssl cx f t)
  with_context-Polled cx f t keeps idle nonzero =
      let (r, t₁, t', ran, run, back) = with_context-returns cx f t keeps idle nonzero in
      (r, result_to_poll r, t₁, t', ran, run, result_to_poll-PollsAs r, back)

  poll_close-Closed :
      (cx : ℕ) (t : T) → IsIdle ssl t → cx ≢ 0 → Closed ssl cx t (poll_close ssl cx t)
  unfolding poll_close shutdown_call
  poll_close-Closed cx t idle nonzero =
      let (r, t₁, t', ran, run, back) =
        with_context-returns cx shutdown_call t shutdown_call_keeps idle nonzero in
      let held =
        ap (λ w. w.context) (laws.get_ref-put t (record (ssl.get_ref t) { context = cx })) in
      let (a, t₂, shuts, kept) =
        laws.shutdown_keeps (lent ssl t cx) (λ z. nonzero (sym held ∙ z)) in
      let same : closed a ≡ r =
        cc (sym (ap (λ m. m >>= λ p. returns (closed p.0, p.1)) shuts) ∙ ran) in
      (
        a,
        result_to_poll (closed a),
        t₂,
        t',
        shuts,
        run ∙ ap (λ x. returns (result_to_poll x, t')) (sym same),
        closed-ClosesAs a,
        back,
      )

  -- Polled on an idle stream, with a context that is not 0, each of `poll_read`, `poll_write`,
  -- `poll_flush` and `poll_close` makes its one call with that context lent to the wrapper, does not
  -- panic and leaves the stream idle. The first three return `Pending` where the call answers
  -- `WouldBlock`, and else its answer. `poll_close` is ready: with a success where the connection is
  -- shut down or was closed by the other side, and with an error for any other failure.
  pub polls-Polled :
      (cx size : ℕ) (buf : List ℕ) (t : T)
      → IsIdle ssl t
      → cx ≢ 0
      → Polled ssl cx (ssl.ssl_read size) t (poll_read ssl cx size t)
        × Polled ssl cx (ssl.ssl_write buf) t (poll_write ssl cx buf t)
        × Polled ssl cx ssl.ssl_flush t (poll_flush ssl cx t)
        × Closed ssl cx t (poll_close ssl cx t)
  unfolding poll_read poll_write poll_flush
  polls-Polled cx size buf t idle nonzero = (
    with_context-Polled cx (ssl.ssl_read size) t (laws.read_keeps size) idle nonzero,
    with_context-Polled cx (ssl.ssl_write buf) t (laws.write_keeps buf) idle nonzero,
    with_context-Polled cx ssl.ssl_flush t laws.flush_keeps idle nonzero,
    poll_close-Closed cx t idle nonzero,
  )
