-- ===== src/Retry/Timeout/Tests.antt =====
-- A time limit at an example.
use future_aio.Base.{
  ℕ, ◌+◌, ◌≤◌, ◌≡◌, refl, inl, Bool, true, false, leb, if◌then◌else◌, none, some, [], ◌∷◌, Result,
  err, arith, gt→leb,
}
use future_aio.Retry.Timeout.{
  Future, Combinators, TimeoutError, timeout_error, timeout, race_timeout, Delay, timeout_wasm32,
}
use future_aio.Retry.Timeout.Limits.{IsFair, Raced, timeout-limited, timeouts-Raced}
use future_aio.Retry.Timeout.Retried.{retry_if-timeout}
use future_aio.Retry.Attempts.{retry_if}
use future_aio.Retry.Attempts.Elapsed.{ReturnsBy}
use future_aio.Retry.Fixed
use future_aio.Retry.Fixed.{take_next}

abbrev first : {A : Type 0} → Future A → Future A → Future A
first none g = g
first (some f) none = some f
first (some (t, a)) (some (u, b)) = if leb t u then some (t, a) else some (u, b)

abbrev futures : Combinators
futures = record { or = first; race = first }

le→leb : (t u : ℕ) → t ≤ u → leb t u ≡ true
le→leb t u h = ground arith

futures-IsFair : IsFair futures
futures-IsFair = record {
  or_first = λ t u a b h. rw (le→leb t u h) refl;
  or_second = λ t u a b h. rw (gt→leb t u h) refl;
  or_never = λ f. refl;
  race_first = λ t u a b h. rw (le→leb t u (omega arith)) refl;
  race_second = λ t u a b h. rw (gt→leb t u h) refl;
  race_tie = λ t a b. inl (rw (le→leb t t (omega arith)) refl);
  race_never = λ f. refl;
}

abbrev slow : Future ℕ
slow = some (10, 7)

-- A `Delay` that comes two seconds late, and fails.
abbrev late : Delay
late = record { Output = Bool; new = λ now d. some (now + d + 2, false) }

-- A future that takes ten seconds, with one second given.
timeouts-Raced_example :
    (timeout futures 0 slow 1 ≡ some (1, err timeout_error))
    × (timeout_wasm32 futures late 0 slow 1 ≡ some (3, err timeout_error))
    × Raced 1 slow (race_timeout futures 0 1 slow)
timeouts-Raced_example = timeouts-Raced futures futures-IsFair late 0 1 3 false slow refl

-- An operation that never completes, given one second; the world is the clock.
abbrev hang : ℕ → Result ℕ TimeoutError × ℕ
hang w = (err timeout_error, w + 1)

abbrev wait : ℕ → ℕ → ℕ
wait delay w = w + delay

-- Two retries with five seconds before each.
retry_if-timeout_example :
    ReturnsBy
      (λ w. w)
      (take_next Fixed.next)
      hang
      wait
      (λ _. true)
      1
      (100 + 13)
      (retry_if (take_next Fixed.next) hang wait (λ _. true) 3 (2, Fixed.new 5) 100)
unfolding take_next Fixed.next Fixed.new
retry_if-timeout_example =
    retry_if-timeout futures futures-IsFair (λ w. w) (take_next Fixed.next) hang wait (λ _. true)
      (λ w. none) 1 (5 ∷ 5 ∷ []) 3 (2, Fixed.new 5) 100
      (λ w. timeout-limited futures futures-IsFair w 1 none) (λ delay w. refl) (refl, (refl, refl))
      (omega arith)
