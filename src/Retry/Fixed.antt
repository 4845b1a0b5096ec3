-- ===== src/Retry/Fixed.antt =====
-- `FixedDelay` of src/retry.rs, and the adapter `Iterator::take` by which callers bound a strategy.
use future_aio.Base.{ℕ, zero, suc, Option, none, some}
use future_aio.Duration.{millis, secs}

pub record FixedDelay : Type 0 where
  pub delay : ℕ

unfoldable pub new : ℕ → FixedDelay
new delay = record { delay = delay }

pub from_millis : ℕ → FixedDelay
unfolding new
from_millis n = new (millis n)

pub from_secs : ℕ → FixedDelay
unfolding new
from_secs n = new (secs n)

unfoldable pub next : FixedDelay → Option ℕ × FixedDelay
next f = (some f.delay, f)

-- `Take<I>`: the draws left and the iterator below.
abbrev pub Take : Type 0 → Type 0
Take S = ℕ × S

unfoldable pub take_next : {S : Type 0} → (S → Option ℕ × S) → Take S → Option ℕ × Take S
take_next next (zero, s) = (none, (zero, s))
take_next next (suc n, s) = let (item, s') = next s in (item, (n, s'))
