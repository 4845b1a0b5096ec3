-- ===== src/Retry/Fibonacci.antt =====
-- `FibonacciBackoff` of src/retry.rs: delays that grow as the Fibonacci numbers.
pub mod Series
use future_aio.Base.{ℕ, Option, none, some, ltb, if◌then◌else◌}
use future_aio.Duration.{duration_max, millis, secs, checked_add}

pub record FibonacciBackoff : Type 0 where
  pub current : ℕ
  pub next : ℕ
  pub max_delay : Option ℕ

unfoldable pub new : ℕ → FibonacciBackoff
new initial_delay = record { current = initial_delay; next = initial_delay; max_delay = none }

pub from_millis : ℕ → FibonacciBackoff
unfolding new
from_millis n = new (millis n)

pub from_secs : ℕ → FibonacciBackoff
unfolding new
from_secs n = new (secs n)

unfoldable pub max_delay : FibonacciBackoff → ℕ → FibonacciBackoff
max_delay b limit = record b { max_delay = some limit }

-- The part of `next` after the test of the maximum.
advance : FibonacciBackoff → Option ℕ × FibonacciBackoff
advance b = elim (checked_add b.current b.next) [
  | some next_next ↦ (some b.current, record b { current = b.next; next = next_next })
  | none ↦ (some b.current, record b { current = b.next; next = duration_max })
]

-- The test of the maximum: past it the iterator yields the maximum and stays.
limited : Option ℕ → FibonacciBackoff → Option ℕ × FibonacciBackoff
unfolding advance
limited none b = advance b
limited (some limit) b = if ltb limit b.current then (some limit, b) else advance b

unfoldable pub next : FibonacciBackoff → Option ℕ × FibonacciBackoff
unfolding limited
next b = limited b.max_delay b
