-- ===== src/Retry/Timeout.antt =====
-- `RetryExt::timeout` of src/retry.rs, and `timeout` of src/future.rs with `sleep` of src/timer.rs.
-- A future that is awaited is the instant at which it completes with its value, or it never
-- completes.
pub mod Retried
pub mod Limits
mod Tests
use future_aio.Base.{ℕ, ◌+◌, Option, none, some, Result, ok, err}

abbrev pub Future : Type 0 → Type 0
Future A = Option (ℕ × A)

-- `FutureExt::or` and `future::race` of `futures_lite`.
pub record Combinators : Type 1 where
  pub or : {A : Type 0} → Future A → Future A → Future A
  pub race : {A : Type 0} → Future A → Future A → Future A

pub data TimeoutError : Type 0 where
  timeout_error : TimeoutError

-- `sleep`, begun at the instant `now`: a timer for the duration, with the output `()`.
pub sleep : ℕ → ℕ → Future (Unit {0})
sleep now duration = some (now + duration, tt)

-- `Delay::new` of fluvio_wasm_timer, begun at an instant, with whatever output it has.
pub record Delay : Type 1 where
  pub Output : Type 0
  pub new : ℕ → ℕ → Future Output

-- `sleep` on wasm32.
pub sleep_wasm32 : (delay : Delay) → ℕ → ℕ → Future delay.Output
sleep_wasm32 delay now duration = delay.new now duration

-- The future with its output in `Ok`, and an `async` block that awaits one and gives an error.
pub map_ok : {A E : Type 0} → Future A → Future (Result A E)
map_ok none = none
map_ok (some (t, a)) = some (t, ok a)

pub then_err : {A E U : Type 0} → E → Future U → Future (Result A E)
then_err e none = none
then_err e (some (t, u)) = some (t, err e)

module _ (futures : Combinators) where
  -- `RetryExt::timeout`, awaited from the instant `now` on.
  pub timeout : {A : Type 0} → ℕ → Future A → ℕ → Future (Result A TimeoutError)
  unfolding map_ok then_err sleep
  timeout now f d = futures.or (map_ok f) (then_err timeout_error (sleep now d))

  -- On wasm32 the output of the timer is dropped, an error too.
  pub timeout_wasm32 : {A : Type 0} → Delay → ℕ → Future A → ℕ → Future (Result A TimeoutError)
  unfolding map_ok then_err sleep_wasm32
  timeout_wasm32 delay now f d =
      futures.or (map_ok f) (then_err timeout_error (sleep_wasm32 delay now d))

  -- `timeout` of src/future.rs; the text of its error is left out.
  pub race_timeout : {A : Type 0} → ℕ → ℕ → Future A → Future (Result A TimeoutError)
  unfolding map_ok then_err sleep
  race_timeout now duration f =
      futures.race (map_ok f) (then_err timeout_error (sleep now duration))
