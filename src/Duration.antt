-- ===== src/Duration.antt =====
-- `std::time::Duration`, as a whole number of nanoseconds, and the iterators of the retry module.
-- A duration holds u64 seconds and less than a second of nanoseconds, so the largest is
-- `duration_max`.
use future_aio.Base.{
  ℕ, zero, suc, ◌+◌, ◌-◌, ◌*◌, ◌^◌, Option, none, some, leb, if◌then◌else◌, min, ◌≡◌, refl, sym,
  subst,
}

abbrev pub duration_max : ℕ
duration_max = 2 ^ 64 * 1_000_000_000 - 1

-- `Duration::from_millis` and `Duration::from_secs`, of a u64.
abbrev pub millis : ℕ → ℕ
millis n = n * 1_000_000

abbrev pub secs : ℕ → ℕ
secs n = n * 1_000_000_000

-- `Duration::checked_add`.
abbrev pub checked_add : ℕ → ℕ → Option ℕ
checked_add a b = if leb (a + b) duration_max then some (a + b) else none

-- A delay held to an optional maximum.
abbrev pub cap : Option ℕ → ℕ → ℕ
cap none x = x
cap (some m) x = min m x

-- `Iterator::nth` for an iterator of durations given by its `next`.
module _ {S : Type 0} (next : S → Option ℕ × S) where
  pub advance_by : ℕ → S → S
  advance_by zero s = s
  advance_by (suc n) s = advance_by n (next s).1

  unfoldable pub nth : ℕ → S → Option ℕ
  unfolding advance_by
  nth n s = (next (advance_by n s)).0

  -- An iterator whose state has come to rest repeats its item.
  pub nth_at_rest : (n : ℕ) (s : S) → (next s).1 ≡ s → nth n s ≡ (next s).0
  unfolding nth
  nth_at_rest zero s rest = refl
  nth_at_rest (suc n) s rest = subst (λ t. nth n t ≡ (next s).0) (sym rest) (nth_at_rest n s rest)
