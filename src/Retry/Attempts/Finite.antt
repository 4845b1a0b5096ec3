-- ===== src/Retry/Attempts/Finite.antt =====
-- `retry` and `retry_if` over the strategies of the module, bounded by `take`.
use future_aio.Base.{
  ℕ, zero, suc, ◌*◌, ◌^◌, ◌≤◌, ◌≡◌, refl, sym, ap, ◌∙◌, Bool, true, Option, some, inl, inr, List,
  [], ◌∷◌, length, replicate, Result, err, arith, min, u64_max,
}
use future_aio.Duration.{nth, nth_at_rest, duration_max, millis}
use future_aio.Retry.Fixed
use future_aio.Retry.Fixed.{Take, take_next}
use future_aio.Retry.Fibonacci
use future_aio.Retry.Fibonacci.Series.{fib, nth-max_delay-new}
use future_aio.Retry.Exponential
use future_aio.Retry.Exponential.Powers.{nth-max_delay-from_millis}
use future_aio.Retry.Attempts.{retry_if, retry}
use future_aio.Retry.Attempts.Trace.{
  Trace, start, scripted, sleep, attempts, Drains, settles, Attempted, retry_if-Attempted,
}

-- The first n values of a function.
abbrev pub tabulate : ℕ → (ℕ → ℕ) → List ℕ
tabulate zero f = []
tabulate (suc n) f = f 0 ∷ tabulate n (λ i. f (suc i))

length-tabulate : (n : ℕ) (f : ℕ → ℕ) → length (tabulate n f) ≡ n
length-tabulate zero f = refl
length-tabulate (suc n) f = ap suc (length-tabulate n (λ i. f (suc i)))

take_next-Drains :
    {S : Type 0} (next : S → Option ℕ × S) (n : ℕ) (s : S) (f : ℕ → ℕ)
    → ((i : ℕ) → nth next i s ≡ some (f i))
    → Drains (take_next next) (n, s) (tabulate n f)
unfolding take_next nth
take_next-Drains next zero s f h = refl
take_next-Drains next (suc n) s f h =
    (h 0, take_next-Drains next n (next s).1 (λ i. f (suc i)) (λ i. h (suc i)))

module _ {O E : Type 0} (condition : E → Bool) (results : ℕ → Result O E) where
  -- `retry_if` over a bounded strategy whose draw number i is f i.
  bounded-Attempted :
      {S : Type 0} (next : S → Option ℕ × S) (n : ℕ) (s : S) (f : ℕ → ℕ)
      → ((i : ℕ) → nth next i s ≡ some (f i))
      → Attempted condition results
          (tabulate n f)
          (retry_if (take_next next) (scripted results) sleep condition (suc n) (n, s) start)
  bounded-Attempted next n s f h =
      retry_if-Attempted condition (take_next next) results (tabulate n f) (suc n) (n, s)
        (take_next-Drains next n s f h) (omega (arith, length-tabulate n f))

  -- `retry_if` over a `FibonacciBackoff` with the first delay d, a duration, and the maximum m, of
  -- which n draws are taken, returns; it makes its attempts with the delays that are the lesser of
  -- m and the Fibonacci multiples of d held to the largest duration, and stops at the first that
  -- settles the call, or after n + 1.
  pub retry_if-fibonacci :
      (d m n : ℕ)
      → d ≤ duration_max
      → Attempted condition results (tabulate n (λ i. min m (min (fib i * d) duration_max))) (
          retry_if
            (take_next Fibonacci.next)
            (scripted results)
            sleep
            condition
            (suc n)
            (n, Fibonacci.max_delay (Fibonacci.new d) m)
            start)
  retry_if-fibonacci d m n h =
      bounded-Attempted Fibonacci.next n _ _ (λ i. nth-max_delay-new d m i h)

  -- `retry_if` over an `ExponentialBackoff` of b milliseconds, a u64, with the maximum m, of which
  -- n draws are taken, returns; delay number i of its attempts is the lesser of m and b to the
  -- power i + 1 milliseconds, held to the largest u64, and it stops at the first attempt that
  -- settles the call, or after n + 1.
  pub retry_if-exponential :
      (b m n : ℕ)
      → b ≤ u64_max
      → Attempted condition results (tabulate n (λ i. min m (millis (min (b ^ suc i) u64_max)))) (
          retry_if
            (take_next Exponential.next)
            (scripted results)
            sleep
            condition
            (suc n)
            (n, Exponential.max_delay (Exponential.from_millis b) m)
            start)
  retry_if-exponential b m n h =
      bounded-Attempted Exponential.next n _ _ (λ i. nth-max_delay-from_millis b m i h)

module _ {O E : Type 0} (results : ℕ → Result O E) where
  nth-fixed : (d i : ℕ) → nth Fixed.next i (Fixed.new d) ≡ some d
  unfolding Fixed.next Fixed.new
  nth-fixed d i = nth_at_rest Fixed.next i (Fixed.new d) refl

  tabulate-replicate : (n d : ℕ) → tabulate n (λ _. d) ≡ replicate n d
  tabulate-replicate zero d = refl
  tabulate-replicate (suc n) d = ap (◌∷◌ d) (tabulate-replicate n d)

  unsettled : (r : Result O E) (e : E) → r ≡ err e → ¬ (settles {E = E} (λ _. true) r ≡ true)
  unsettled r e h v = cc (sym (ap (settles {E = E} (λ _. true)) h) ∙ v)

  used_up :
      (ds : List ℕ) (run : Option (Result O E × Trace))
      → ((i : ℕ) → i ≤ length ds → (e : E) × (results i ≡ err e))
      → Attempted (λ _. true) results ds run
      → run
        ≡ some
            (results (length ds), record { calls = suc (length ds); log = attempts (length ds) ds })
  used_up ds run fails (k, b, eq, before, inl v) =
      absurd (unsettled (results k) (fails k b).0 (fails k b).1 v)
  used_up ds run fails (k, b, eq, before, inr h) =
      eq ∙ ap (λ j. some (results j, record { calls = suc j; log = attempts j ds })) h

  -- `retry` over `FixedDelay::new(d).take(n)`, where the attempts 0 to n all fail, makes all these
  -- n + 1 attempts, sleeps the delay d between each two, n times in all, and returns the last error.
  pub retry-fixed :
      (d n : ℕ)
      → ((i : ℕ) → i ≤ n → (e : E) × (results i ≡ err e))
      → retry (take_next Fixed.next) (scripted results) sleep (suc n) (n, Fixed.new d) start
        ≡ some (results n, record { calls = suc n; log = attempts n (replicate n d) })
  unfolding retry
  retry-fixed d n fails =
      used_up (tabulate n (λ _. d)) _ (λ i b. fails i (omega (arith, length-tabulate n (λ _. d))))
        (bounded-Attempted (λ _. true) results Fixed.next n (Fixed.new d) (λ _. d) (nth-fixed d))
      ∙ ap (λ j. some (results j, record { calls = suc j; log = attempts j (tabulate n (λ _. d)) }))
          (length-tabulate n (λ _. d))
      ∙ ap (λ xs. some (results n, record { calls = suc n; log = attempts n xs }))
          (tabulate-replicate n d)
