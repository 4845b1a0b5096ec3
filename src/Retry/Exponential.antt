-- ===== src/Retry/Exponential.antt =====
-- `ExponentialBackoff` of src/retry.rs: delays that grow as the powers of a number of milliseconds.
pub mod Powers
use future_aio.Base.{ℕ, ◌*◌, Option, none, some, ltb, leb, if◌then◌else◌, u64_max}
use future_aio.Duration.{millis}

pub record ExponentialBackoff : Type 0 where
  pub base_millis : ℕ
  pub current_millis : ℕ
  pub max_delay : Option ℕ

unfoldable pub from_millis : ℕ → ExponentialBackoff
from_millis n = record { base_millis = n; current_millis = n; max_delay = none }

unfoldable pub max_delay : ExponentialBackoff → ℕ → ExponentialBackoff
max_delay b limit = record b { max_delay = some limit }

-- `u64::checked_mul`.
abbrev checked_mul : ℕ → ℕ → Option ℕ
checked_mul a b = if leb (a * b) u64_max then some (a * b) else none

-- The part of `next` after the test of the maximum.
advance : ExponentialBackoff → Option ℕ × ExponentialBackoff
advance b = elim (checked_mul b.current_millis b.base_millis) [
  | some following ↦ (some (millis b.current_millis), record b { current_millis = following })
  | none ↦ (some (millis b.current_millis), record b { current_millis = u64_max })
]

-- The test of the maximum: past it the iterator yields the maximum and stays.
limited : Option ℕ → ExponentialBackoff → Option ℕ × ExponentialBackoff
unfolding advance
limited none b = advance b
limited (some limit) b = if ltb limit (millis b.current_millis) then (some limit, b) else advance b

unfoldable pub next : ExponentialBackoff → Option ℕ × ExponentialBackoff
unfolding limited
next b = limited b.max_delay b
