-- ===== src/Openssl/Handshake/Progress.antt =====
-- The states of a handshake, and that it comes to its end.
use future_aio.Base.{
  ℕ, zero, suc, ◌≤◌, ◌<◌, ◌≡◌, ◌≢◌, refl, sym, ap, ◌∙◌, subst, Result, ok, err, Option, some, Poll,
  pending, ready, Outcome, returns, panics, ◌>>=◌, arith, ok-injective,
}
use future_aio.Openssl.Wrapper.{AsyncToSyncWrapper}
use future_aio.Openssl.Wrapper.Contexts.{set_context-idle, unset_context-lent}
use future_aio.Openssl.Handshake.{
  Step, stream, blocked, failed, Ssl, HandshakeFuture, initial, mid_handshake, done, settled, poll,
  next_poll, await,
}

module _ {S T M E : Type 0} (ssl : Ssl S T M E) (rounds : M → ℕ) where
  -- What a step of the handshake may give, that was lent a context and has `bound` steps left: it does
  -- not unwind, leaves the context with the stream, and waits for fewer steps the next time.
  abbrev pub Gives : ℕ → Outcome (Step T M E) → Type 0
  Gives bound panics = ⊥
  Gives bound (returns (stream t)) = (ssl.stream_wrapper t).context ≢ 0
  Gives bound (returns (blocked m)) = ((ssl.mid_wrapper m).context ≢ 0) × (rounds m < bound)
  Gives bound (returns (failed e)) = Unit {0}

  pub record IsSsl : Type 0 where
    pub stream_put :
        (t : T) (w : AsyncToSyncWrapper S) → ssl.stream_wrapper (ssl.put_stream t w) ≡ w
    pub mid_put : (m : M) (w : AsyncToSyncWrapper S) → ssl.mid_wrapper (ssl.put_mid m w) ≡ w
    pub rounds_put : (m : M) (w : AsyncToSyncWrapper S) → rounds (ssl.put_mid m w) ≡ rounds m
    pub handshake_gives :
        (m : M) → (ssl.mid_wrapper m).context ≢ 0 → Gives (rounds m) (ssl.handshake m)

  -- A future that may be polled: its wrapper is idle, and at most `bound` polls will find it waiting.
  abbrev pub IsWaiting : ℕ → HandshakeFuture S T M E → Type 0
  IsWaiting bound (initial f w) =
      (w.context ≡ 0) × ((v : AsyncToSyncWrapper S) → v.context ≢ 0 → Gives bound (f v))
  IsWaiting bound (mid_handshake m) = ((ssl.mid_wrapper m).context ≡ 0) × (rounds m ≤ bound)
  IsWaiting bound done = ⊥

  -- A poll waits with a future that may be polled again, for less, or it is ready, with an idle stream
  -- or an error, and leaves a future that is done.
  abbrev pub Progressed : ℕ → Outcome (Poll (Result T E) × HandshakeFuture S T M E) → Type 0
  Progressed bound panics = ⊥
  Progressed bound (returns (pending, h)) = (n : ℕ) × (n < bound) × IsWaiting n h
  Progressed bound (returns (ready (ok t), h)) = ((ssl.stream_wrapper t).context ≡ 0) × (h ≡ done)
  Progressed bound (returns (ready (err e), h)) = h ≡ done

  -- The handshake ends: with a stream whose wrapper is idle, or with an error.
  abbrev pub Ends : Option (Outcome (Result T E)) → Type 0
  Ends run =
      (r : Result T E) × (run ≡ some (returns r))
      × ((t : T) → r ≡ ok t → (ssl.stream_wrapper t).context ≡ 0)

  module _ (laws : IsSsl) where
    settled-Progressed :
        (bound : ℕ) (o : Outcome (Step T M E))
        → Gives bound o
        → Progressed bound (o >>= settled ssl)
    unfolding settled
    settled-Progressed bound panics g = g
    settled-Progressed bound (returns (stream t)) g =
        rw (unset_context-lent (ssl.stream_wrapper t) g) (
          ap (λ w. w.context) (laws.stream_put t (record (ssl.stream_wrapper t) { context = 0 })),
          refl,
        )
    settled-Progressed bound (returns (blocked m)) (lent, fewer) =
        rw (unset_context-lent (ssl.mid_wrapper m) lent) (
          rounds m,
          fewer,
          (
            ap (λ w. w.context) (laws.mid_put m (record (ssl.mid_wrapper m) { context = 0 })),
            omega (arith, laws.rounds_put m (record (ssl.mid_wrapper m) { context = 0 })),
          ),
        )
    settled-Progressed bound (returns (failed e)) g = refl

    Gives-mono : (m n : ℕ) (o : Outcome (Step T M E)) → m ≤ n → Gives m o → Gives n o
    Gives-mono m n panics h g = g
    Gives-mono m n (returns (stream t)) h g = g
    Gives-mono m n (returns (blocked x)) h (lent, fewer) = (lent, omega arith)
    Gives-mono m n (returns (failed e)) h g = tt

    -- A poll of a handshake that waits, with a context that is not 0, does not panic. It waits, and may
    -- be polled again, with one waiting poll less to come; or it is ready, with a stream that is idle
    -- or with an error, and the future is done. A future that is done panics when it is polled.
    pub poll-Progressed :
        (cx bound : ℕ) (h : HandshakeFuture S T M E)
        → cx ≢ 0
        → IsWaiting bound h
        → Progressed bound (poll ssl cx h) × (poll ssl cx done ≡ panics)
    unfolding poll
    poll-Progressed cx bound (initial f w) c (idle, gives) =
        let lent : AsyncToSyncWrapper S = record w { context = cx } in
        (rw (set_context-idle w cx idle) (settled-Progressed bound (f lent) (gives lent c)), refl)
    poll-Progressed cx bound (mid_handshake m) c (idle, few) =
        let lent : AsyncToSyncWrapper S = record (ssl.mid_wrapper m) { context = cx } in
        let held = ap (λ w. w.context) (laws.mid_put m lent) in
        let m' = ssl.put_mid m lent in
        (
          rw (set_context-idle (ssl.mid_wrapper m) cx idle) (
              settled-Progressed bound (ssl.handshake m') (
                Gives-mono (rounds m') bound (ssl.handshake m')
                  (omega (arith, laws.rounds_put m lent))
                  (laws.handshake_gives m' (λ z. c (sym held ∙ z))))),
          refl,
        )
    poll-Progressed cx bound done c w = absurd w

    ok_idle :
        (r : Result T E) (h : HandshakeFuture S T M E) (bound : ℕ)
        → Progressed bound (returns (ready r, h))
        → (t : T) → r ≡ ok t
        → (ssl.stream_wrapper t).context ≡ 0
    ok_idle (ok u) h bound p t e =
        subst (λ v. (ssl.stream_wrapper v).context ≡ 0) (ok-injective e) p.0
    ok_idle (err x) h bound p t e = cc

    after_poll :
        (fuel cx bound : ℕ) (o : Outcome (Poll (Result T E) × HandshakeFuture S T M E))
        → ((n : ℕ) (h : HandshakeFuture S T M E)
            → n < fuel
            → IsWaiting n h
            → Ends (await ssl fuel cx h))
        → bound < suc fuel
        → Progressed bound o
        → Ends (next_poll ssl (await ssl fuel cx) o)
    unfolding next_poll
    after_poll fuel cx bound panics ih b p = absurd p
    after_poll fuel cx bound (returns (pending, h)) ih b (n, less, w) = ih n h (omega arith) w
    after_poll fuel cx bound (returns (ready r, h)) ih b p = (r, refl, ok_idle r h bound p)

    -- A handshake that can be blocked at most `bound` times ends when it is awaited, after at most
    -- `bound + 1` polls, and no poll panics: with a stream whose wrapper is idle, or with an error.
    pub await-Ends :
        (fuel cx bound : ℕ) (h : HandshakeFuture S T M E)
        → cx ≢ 0
        → bound < fuel
        → IsWaiting bound h
        → Ends (await ssl fuel cx h)
    unfolding await
    await-Ends zero cx bound h c b w = absurd (omega arith)
    await-Ends (suc fuel) cx bound h c b w =
        after_poll fuel cx bound (poll ssl cx h) (λ n h' less v. await-Ends fuel cx n h' c less v) b
          (poll-Progressed cx bound h c w).0
