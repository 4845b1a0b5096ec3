-- ===== src/Retry/Timeout/Retried.antt =====
-- `retry_if` of src/retry.rs over attempts that its `timeout` limits.
use future_aio.Base.{
  ℕ, suc, ◌+◌, ◌*◌, ◌≤◌, ◌<◌, ◌≡◌, sym, subst, ◌∙◌, Bool, inl, inr, Bool-cases, leb, leb→le, Option,
  none, some, List, length, Result, ok, err, arith,
}
use future_aio.Retry.Attempts.{retry_if}
use future_aio.Retry.Attempts.Elapsed.{total, allowed-total, ReturnsBy, retry_if-ReturnsBy}
use future_aio.Retry.Attempts.Trace.{Drains}
use future_aio.Retry.Timeout.{Future, Combinators, TimeoutError, timeout_error, timeout}
use future_aio.Retry.Timeout.Limits.{IsFair, limited, timeout-limited}

-- Every limited future completes up to its deadline.
limited_by :
    {A : Type 0} (deadline t : ℕ) (f : Future A) (r : Result A TimeoutError)
    → limited deadline f ≡ some (t, r)
    → t ≤ deadline
limited_by {A} deadline t none r h = let at : t ≡ deadline = cc in omega arith
limited_by {A} deadline t (some (u, a)) r h = elim (Bool-cases (leb u deadline)) [
  | inl early ↦
      let e : ◌≡◌ {A = Future (Result A TimeoutError)} (some (u, ok a)) (some (t, r)) =
        rw early at h in
      let at : t ≡ u = cc in omega (arith, leb→le u deadline early)
  | inr late ↦
      let e : ◌≡◌ {A = Future (Result A TimeoutError)} (some (deadline, err timeout_error))
          (some (t, r)) =
        rw late at h in
      let at : t ≡ deadline = cc in omega arith
]

-- Over a strategy that yields the delays ds and ends, where each attempt awaits an operation that is
-- limited to d by `timeout`, and with fuel beyond the number of delays: `retry_if` returns, whether
-- the operations ever complete or not, and at the latest after the time d for each of the attempts,
-- of which there is one more than delays, and the sum of the delays.
pub retry_if-timeout :
    {W A S : Type 0} (futures : Combinators) (laws : IsFair futures) (now : W → ℕ)
    (next : S → Option ℕ × S) (factory : W → Result A TimeoutError × W) (sleep : ℕ → W → W)
    (condition : TimeoutError → Bool) (operation : W → Future A) (d : ℕ) (ds : List ℕ) (fuel : ℕ)
    (s : S) (w : W)
    → ((v : W) → timeout futures (now v) (operation v) d ≡ some (now (factory v).1, (factory v).0))
    → ((delay : ℕ) (v : W) → now (sleep delay v) ≡ now v + delay)
    → Drains next s ds
    → length ds < fuel
    → ReturnsBy now next factory sleep condition d
        (now w + (suc (length ds) * d + total ds))
        (retry_if next factory sleep condition fuel s w)
retry_if-timeout futures laws now next factory sleep condition operation d ds fuel s w awaits sleeps
      dr f =
    let quick = λ (v : _).
      limited_by (now v + d) (now (factory v).1) (operation v) (factory v).0
        (sym (timeout-limited futures laws (now v) d (operation v)) ∙ awaits v) in
    subst
      (λ t.
        ReturnsBy now next factory sleep condition d (now w + t)
          (retry_if next factory sleep condition fuel s w))
      (allowed-total d ds)
      (retry_if-ReturnsBy now next factory sleep condition d quick sleeps ds fuel s w dr f)
