-- ===== src/Retry/Timeout/Limits.antt =====
-- What a time limit makes of a future.
use future_aio.Base.{
  ℕ, ◌+◌, ◌≤◌, ◌<◌, ◌≡◌, refl, sym, ap, ◌∙◌, subst, true, ◌⊎◌, inl, inr, leb, Bool-cases, leb→le,
  leb→gt, if◌then◌else◌, none, some, Result, ok, err, arith, ltb, ltb→lt, ltb→ge,
}
use future_aio.Retry.Timeout.{
  Future, Combinators, TimeoutError, timeout_error, timeout, race_timeout, map_ok, then_err, sleep,
  Delay, sleep_wasm32, timeout_wasm32,
}

-- The documented behaviour of the combinators: the future that completes first wins; at the same
-- instant `or` prefers its first one, and `race` may take either.
pub record IsFair (futures : Combinators) : Type 1 where
  pub or_first :
      {A : Type 0} (t u : ℕ) (a b : A)
      → t ≤ u
      → futures.or (some (t, a)) (some (u, b)) ≡ some (t, a)
  pub or_second :
      {A : Type 0} (t u : ℕ) (a b : A)
      → u < t
      → futures.or (some (t, a)) (some (u, b)) ≡ some (u, b)
  pub or_never : {A : Type 0} (f : Future A) → futures.or none f ≡ f
  pub race_first :
      {A : Type 0} (t u : ℕ) (a b : A)
      → t < u
      → futures.race (some (t, a)) (some (u, b)) ≡ some (t, a)
  pub race_second :
      {A : Type 0} (t u : ℕ) (a b : A)
      → u < t
      → futures.race (some (t, a)) (some (u, b)) ≡ some (u, b)
  pub race_tie :
      {A : Type 0} (t : ℕ) (a b : A)
      → (futures.race (some (t, a)) (some (t, b)) ≡ some (t, a))
        ⊎ (futures.race (some (t, a)) (some (t, b)) ≡ some (t, b))
  pub race_never : {A : Type 0} (f : Future A) → futures.race none f ≡ f

-- The future if it completes up to the deadline, and else the error at the deadline.
abbrev pub limited : {A : Type 0} → ℕ → Future A → Future (Result A TimeoutError)
limited deadline none = some (deadline, err timeout_error)
limited deadline (some (t, a)) =
    if leb t deadline then some (t, ok a) else some (deadline, err timeout_error)

-- The race may be lost at the deadline.
abbrev pub Raced : {A : Type 0} → ℕ → Future A → Future (Result A TimeoutError) → Type 0
Raced {A} deadline f r =
    (r ≡ limited deadline f)
    ⊎ (((a : A) × (f ≡ some (deadline, a))) × (r ≡ some (deadline, err timeout_error)))

leb_self : (n : ℕ) → leb n n ≡ true
leb_self n = ground arith

module _ (futures : Combinators) (laws : IsFair futures) where
  or-limited :
      {A : Type 0} (deadline : ℕ) (f : Future A)
      → futures.or (map_ok f) (some (deadline, err timeout_error)) ≡ limited deadline f
  unfolding map_ok
  or-limited deadline none = laws.or_never (some (deadline, err timeout_error))
  or-limited deadline (some (t, a)) = elim (Bool-cases (leb t deadline)) [
    | inl early ↦
        rw early (laws.or_first t deadline (ok a) (err timeout_error) (leb→le t deadline early))
    | inr late ↦
        rw late (laws.or_second t deadline (ok a) (err timeout_error) (leb→gt t deadline late))
  ]

  pub timeout-limited :
      {A : Type 0} (now d : ℕ) (f : Future A) → timeout futures now f d ≡ limited (now + d) f
  unfolding timeout then_err sleep
  timeout-limited now d f = or-limited (now + d) f

  -- On wasm32 the limit is the instant at which the `Delay` completes, with an error as well.
  timeout_wasm32-limited :
      {A : Type 0} (delay : Delay) (now d deadline : ℕ) (u : delay.Output) (f : Future A)
      → delay.new now d ≡ some (deadline, u)
      → timeout_wasm32 futures delay now f d ≡ limited deadline f
  unfolding timeout_wasm32 sleep_wasm32 then_err
  timeout_wasm32-limited delay now d deadline u f e =
      ap (λ p. futures.or (map_ok f) (then_err timeout_error p)) e ∙ or-limited deadline f

  tie-Raced :
      {A : Type 0} (t : ℕ) (a : A)
      → Raced t (some (t, a)) (futures.race (some (t, ok a)) (some (t, err timeout_error)))
  tie-Raced t a = elim (laws.race_tie t (ok a) (err timeout_error)) [
    | inl won ↦ inl (rw (leb_self t) won)
    | inr lost ↦ inr ((a, refl), lost)
  ]

  race_timeout-Raced :
      {A : Type 0} (now d : ℕ) (f : Future A) → Raced (now + d) f (race_timeout futures now d f)
  unfolding race_timeout map_ok then_err sleep
  race_timeout-Raced now d none = inl (laws.race_never (some (now + d, err timeout_error)))
  race_timeout-Raced now d (some (t, a)) = elim (Bool-cases (leb t (now + d))) [
    | inr late ↦ inl (
        rw late (laws.race_second t (now + d) (ok a) (err timeout_error) (leb→gt t (now + d) late)))
    | inl early ↦ elim (Bool-cases (ltb t (now + d))) [
      | inl sooner ↦ inl (
          rw early
            (laws.race_first t (now + d) (ok a) (err timeout_error) (ltb→lt t (now + d) sooner)))
      | inr tie ↦
          let same : now + d ≡ t =
            omega (arith, leb→le t (now + d) early, ltb→ge t (now + d) tie) in
          subst
            (λ u.
              Raced u (some (t, a)) (futures.race (some (t, ok a)) (some (u, err timeout_error))))
            (sym same) (tie-Raced t a)
    ]
  ]

  -- The `timeout` of `RetryExt`, from the instant now, gives the output of the future if it
  -- completes up to the deadline now + d, at the instant when it completes, and else the error, at
  -- the deadline; on wasm32 the deadline is the instant at which the `Delay` for d completes, with
  -- whatever output. So does the `timeout` of src/future.rs on a native target, but that where the
  -- future completes just at the deadline it may give the error all the same.
  pub timeouts-Raced :
      {A : Type 0} (delay : Delay) (now d due : ℕ) (u : delay.Output) (f : Future A)
      → delay.new now d ≡ some (due, u)
      → (timeout futures now f d ≡ limited (now + d) f)
        × (timeout_wasm32 futures delay now f d ≡ limited due f)
        × Raced (now + d) f (race_timeout futures now d f)
  timeouts-Raced delay now d due u f e = (
    timeout-limited now d f,
    timeout_wasm32-limited delay now d due u f e,
    race_timeout-Raced now d f,
  )
