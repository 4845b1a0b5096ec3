-- ===== src/Retry/Fibonacci/Series.antt =====
-- `FibonacciBackoff` yields the Fibonacci multiples of its first delay, held to the largest
-- duration and to its maximum.
use future_aio.Base.{
  ap, sym, ◌∙◌, tests, ltb→lt, ◌⊎◌, ℕ, zero, suc, ◌+◌, ◌*◌, ◌≤◌, ◌<◌, ◌≡◌, refl, Option, none, some,
  arith, min, Bool-cases, inl, inr, ltb,
}
use future_aio.Duration.{duration_max, cap, nth, nth_at_rest}
use future_aio.Retry.Fibonacci.{FibonacciBackoff, new, next, advance, limited, max_delay}
use Prim.Native.Nat.add
use native.Mathlib.Nat.{mul-le-mul_right, add-zero}

-- 1, 1, 2, 3, 5, …
unfoldable pub fib : ℕ → ℕ
fib zero = 1
fib (suc zero) = 1
fib (suc (suc n)) = fib n + fib (suc n)

fib_growth : (n : ℕ) → (fib n ≤ fib (suc n)) × (fib (suc n) ≤ 2 * fib n)
unfolding fib
fib_growth zero = omega arith
fib_growth (suc n) = omega (arith, fib_growth n)

fib_mono : (k n : ℕ) → fib k ≤ fib (n + k)
fib_mono k zero = rw add.zero (omega arith)
fib_mono k (suc n) = rw add.suc (omega (arith, fib_mono k n, fib_growth (n + k)))

-- A delay held to the largest duration.
abbrev sat : ℕ → ℕ
sat x = min x duration_max

-- The state before the draw number `k`.
record Reached (d k : ℕ) (b : FibonacciBackoff) : Type 0 where
  current_is : b.current ≡ sat (fib k * d)
  next_is : b.next ≡ sat (fib (suc k) * d)

-- The overflow branch saturates exactly where the exact sum would pass the largest duration.
sat-add :
    (x y : ℕ)
    → x ≤ y
    → y ≤ 2 * x
    → (sat x + sat y ≤ duration_max → sat (x + y) ≡ sat x + sat y)
      × (duration_max < sat x + sat y → sat (x + y) ≡ duration_max)
sat-add x y h k = omega arith

fib_mul :
    (d k : ℕ)
    → (fib k * d ≤ fib (suc k) * d)
      × (fib (suc k) * d ≤ 2 * (fib k * d))
      × (fib (suc (suc k)) * d ≡ fib k * d + fib (suc k) * d)
unfolding fib
fib_mul d k = (
  mul-le-mul_right d (fib_growth k).0,
  omega (arith, mul-le-mul_right d (fib_growth k).1),
  omega arith,
)

advance-Reached : (d k : ℕ) (b : FibonacciBackoff) → Reached d k b → Reached d (suc k) (advance b).1
unfolding advance
advance-Reached d k b r = ground (arith, fib_mul d k, sat-add (fib k * d) (fib (suc k) * d))

advance-current :
    (b : FibonacciBackoff)
    → ((advance b).0 ≡ some b.current) × ((advance b).1.max_delay ≡ b.max_delay)
unfolding advance
advance-current b = ground arith

-- A draw either finds the delay past the maximum, and leaves the state, or goes on.
abbrev Draw : FibonacciBackoff → Type 0
Draw b =
    ((m : ℕ) × (b.max_delay ≡ some m) × (m < b.current) × (next b ≡ (some m, b)))
    ⊎ ((cap b.max_delay b.current ≡ b.current) × (next b ≡ advance b))

limited-Draw :
    (o : Option ℕ) (b : FibonacciBackoff)
    → ((m : ℕ) × (o ≡ some m) × (m < b.current) × (limited o b ≡ (some m, b)))
      ⊎ ((cap o b.current ≡ b.current) × (limited o b ≡ advance b))
unfolding limited
limited-Draw none b = inr (refl, refl)
limited-Draw (some m) b = elim (Bool-cases (ltb m b.current)) [
  | inl h ↦ inl (m, refl, ltb→lt _ _ h, rw h)
  | inr h ↦ inr (omega tests, rw h)
]

next-Draw : (b : FibonacciBackoff) → Draw b
unfolding next
next-Draw b = limited-Draw b.max_delay b

delay-frozen :
    (d k n : ℕ) (b : FibonacciBackoff) (m : ℕ)
    → Reached d k b
    → m < b.current
    → min m (sat (fib (n + k) * d)) ≡ m
delay-frozen d k n b m r h = omega (arith, mul-le-mul_right d (fib_mono k n))

-- What the draw number `n` from `b` yields, once `k` draws are made.
abbrev Yields : ℕ → ℕ → ℕ → FibonacciBackoff → Type 0
Yields d n k b = nth next n b ≡ some (cap b.max_delay (sat (fib (n + k) * d)))

frozen-Yields :
    (d n k : ℕ) (b : FibonacciBackoff) (m : ℕ)
    → Reached d k b
    → m < b.current
    → b.max_delay ≡ some m
    → next b ≡ (some m, b)
    → Yields d n k b
frozen-Yields d n k b m r h e q =
    nth_at_rest next n b (ap (λ t. t.1) q)
    ∙ ap (λ t. t.0) q
    ∙ ap some (sym (ap (λ o. cap o (sat (fib (n + k) * d))) e ∙ delay-frozen d k n b m r h))

zero-Yields :
    (d k : ℕ) (b : FibonacciBackoff)
    → Reached d k b
    → cap b.max_delay b.current ≡ b.current
    → next b ≡ advance b
    → Yields d 0 k b
unfolding nth
zero-Yields d k b r e q =
    ap (λ t. t.0) q
    ∙ (advance-current b).0
    ∙ ap some (sym e ∙ ap (cap b.max_delay) (rw add.zero r.current_is))

suc-Yields :
    (d n k : ℕ) (b : FibonacciBackoff)
    → next b ≡ advance b
    → Yields d n (suc k) (advance b).1
    → Yields d (suc n) k b
unfolding nth
suc-Yields d n k b q ih =
    ap (λ t. nth next n t.1) q
    ∙ ih
    ∙ ap some (
        ap (λ o. cap o (sat (fib (n + suc k) * d))) (advance-current b).1
        ∙ ap (λ j. cap b.max_delay (sat (fib j * d))) (omega arith))

delays : (d n k : ℕ) (b : FibonacciBackoff) → Reached d k b → Yields d n k b
delays d zero k b r = elim (next-Draw b) [
  | inl (m, e, h, q) ↦ frozen-Yields d 0 k b m r h e q
  | inr (e, q) ↦ zero-Yields d k b r e q
]
delays d (suc n) k b r = elim (next-Draw b) [
  | inl (m, e, h, q) ↦ frozen-Yields d (suc n) k b m r h e q
  | inr (e, q) ↦ suc-Yields d n k b q (delays d n (suc k) _ (advance-Reached d k b r))
]

start-Reached :
    (d : ℕ) (b : FibonacciBackoff) → d ≤ duration_max → b.current ≡ d → b.next ≡ d → Reached d 0 b
unfolding fib
start-Reached d b h c e = record { current_is = omega arith; next_is = omega arith }

-- Draw number n of a `FibonacciBackoff` made with the first delay d, a duration, yields the n-th
-- Fibonacci multiple of d, held to the largest duration.
pub nth-new :
    (d n : ℕ) → d ≤ duration_max → nth next n (new d) ≡ some (min (fib n * d) duration_max)
unfolding new
nth-new d n h =
    delays d n 0 (new d) (start-Reached d (new d) h refl refl)
    ∙ ap (λ j. some (sat (fib j * d))) (add-zero n)

-- With a maximum m set, draw number n yields the lesser of m and that Fibonacci multiple.
pub nth-max_delay-new :
    (d m n : ℕ)
    → d ≤ duration_max
    → nth next n (max_delay (new d) m) ≡ some (min m (min (fib n * d) duration_max))
unfolding new max_delay
nth-max_delay-new d m n h =
    delays d n 0 (max_delay (new d) m) (start-Reached d (max_delay (new d) m) h refl refl)
    ∙ ap (λ j. some (min m (sat (fib j * d)))) (add-zero n)
