-- ===== src/Retry/Tests.antt =====
-- The unit tests of src/retry.rs on the model, and its theorems at examples.
use future_aio.Base.{
  ℕ, zero, suc, ◌*◌, ◌^◌, ◌≡◌, refl, Bool, none, some, [], ◌∷◌, Result, ok, err, arith, ◌==◌, min,
  u64_max,
}
use future_aio.Duration.{nth, millis, secs, duration_max}
use future_aio.Retry.Fibonacci
use future_aio.Retry.Fibonacci.Series.{fib, nth-new, nth-max_delay-new}
use future_aio.Retry.Exponential
use future_aio.Retry.Exponential.Powers.{nth-from_millis, nth-max_delay-from_millis}
use future_aio.Retry.Fixed
use future_aio.Retry.Fixed.{take_next}
use future_aio.Retry.Attempts.{retry, retry_if}
use future_aio.Retry.Attempts.Trace.{
  start, attempt, pause, attempts, scripted, sleep, Attempted, retry_if-Attempted,
}
use future_aio.Retry.Attempts.Finite.{
  tabulate, retry_if-fibonacci, retry_if-exponential, retry-fixed,
}

-- test_fibonacci_series_starting_at_10 and test_fibonacci_stops_increasing_at_max_delay
fibonacci_at_10 : nth Fibonacci.next 5 (Fibonacci.new (millis 10)) ≡ some (millis 80)
unfolding nth Fibonacci.next Fibonacci.new
fibonacci_at_10 = refl

fibonacci_at_max :
    nth Fibonacci.next 5 (Fibonacci.max_delay (Fibonacci.new (millis 10)) (millis 50))
    ≡ some (millis 50)
unfolding nth Fibonacci.next Fibonacci.new Fibonacci.max_delay
fibonacci_at_max = refl

-- test_exponential_some_exponential_base_10 and test_exponential_saturates_at_maximum_value
exponential_base_10 : nth Exponential.next 2 (Exponential.from_millis 10) ≡ some (millis 1000)
unfolding nth Exponential.next Exponential.from_millis
exponential_base_10 = refl

exponential_saturates :
    nth Exponential.next 2 (Exponential.from_millis 18446744073709551614)
    ≡ some (millis 18446744073709551615)
unfolding nth Exponential.next Exponential.from_millis
exponential_saturates = refl

fifth_delay : nth Fibonacci.next 4 (Fibonacci.new 10) ≡ some 50
unfolding fib
fifth_delay = nth-new 10 4 (omega arith)

held_delay : nth Fibonacci.next 5 (Fibonacci.max_delay (Fibonacci.new 10) 60) ≡ some 60
unfolding fib
held_delay = nth-max_delay-new 10 60 5 (omega arith)

third_power : nth Exponential.next 2 (Exponential.from_millis 10) ≡ some (millis 1000)
third_power = nth-from_millis 10 2 (omega arith)

held_power :
    nth Exponential.next 4 (Exponential.max_delay (Exponential.from_millis 10) (secs 3))
    ≡ some (secs 3)
held_power = nth-max_delay-from_millis 10 (secs 3) 4 (omega arith)

-- Two failures that may be retried, and a success.
abbrev flaky : ℕ → Result ℕ ℕ
flaky zero = err 1
flaky (suc zero) = err 1
flaky _ = ok 7

abbrev retryable : ℕ → Bool
retryable e = e == 1

fixed_test :
    retry_if (take_next Fixed.next) (scripted flaky) sleep retryable 5 (4, Fixed.new 100) start
    ≡ some (
      ok 7,
      record { calls = 3; log = attempt 0 ∷ pause 100 ∷ attempt 1 ∷ pause 100 ∷ attempt 2 ∷ [] },
    )
unfolding retry_if take_next Fixed.next Fixed.new
fixed_test = refl

retry_if-Attempted_example : Attempted retryable flaky (5 ∷ 6 ∷ []) (
    retry_if
      (take_next Fibonacci.next)
      (scripted flaky)
      sleep
      retryable
      3
      (2, record { current = 5; next = 6; max_delay = none })
      start)
unfolding take_next Fibonacci.next
retry_if-Attempted_example =
    retry_if-Attempted retryable (take_next Fibonacci.next) flaky (5 ∷ 6 ∷ []) 3
      (2, record { current = 5; next = 6; max_delay = none }) (refl, (refl, refl)) (omega arith)

retry_if-fibonacci_example :
    Attempted retryable flaky (tabulate 4 (λ i. min 60 (min (fib i * 10) duration_max))) (
      retry_if
        (take_next Fibonacci.next)
        (scripted flaky)
        sleep
        retryable
        5
        (4, Fibonacci.max_delay (Fibonacci.new 10) 60)
        start)
retry_if-fibonacci_example = retry_if-fibonacci retryable flaky 10 60 4 (omega arith)

retry_if-exponential_example :
    Attempted retryable flaky (tabulate 4 (λ i. min 60 (millis (min (2 ^ suc i) u64_max)))) (
      retry_if
        (take_next Exponential.next)
        (scripted flaky)
        sleep
        retryable
        5
        (4, Exponential.max_delay (Exponential.from_millis 2) 60)
        start)
retry_if-exponential_example = retry_if-exponential retryable flaky 2 60 4 (omega arith)

abbrev broken : ℕ → Result ℕ ℕ
broken i = err i

two_retries :
    retry (take_next Fixed.next) (scripted broken) sleep 3 (2, Fixed.new 100) start
    ≡ some (err 2, record { calls = 3; log = attempts 2 (100 ∷ 100 ∷ []) })
two_retries = retry-fixed broken 100 2 (λ i b. (i, refl))
