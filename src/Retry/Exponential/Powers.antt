-- ===== src/Retry/Exponential/Powers.antt =====
-- `ExponentialBackoff` yields the powers of its base, held to the largest u64 and to its maximum.
use native.Mathlib.Nat.{
  mul-le-mul_left, add-zero, pow-suc, pow-zero, pow-le-pow_right, pow-le-pow_left,
}
use Prim.Native.Nat.add
use native.Mathlib.Decide.{dec_lt}
use future_aio.Base.{
  ℕ, zero, suc, ◌+◌, ◌*◌, ◌^◌, ◌≤◌, ◌<◌, ◌≡◌, refl, sym, ap, ◌∙◌, Option, none, some, arith, tests,
  min, Bool-cases, ◌⊎◌, inl, inr, ltb, ltb→lt, u64_max,
}
use future_aio.Duration.{cap, nth, nth_at_rest, millis}
use future_aio.Retry.Exponential.{
  ExponentialBackoff, from_millis, max_delay, next, advance, limited,
}

abbrev sat : ℕ → ℕ
sat x = min x u64_max

record Reached (b₀ k : ℕ) (b : ExponentialBackoff) : Type 0 where
  base_is : b.base_millis ≡ b₀
  current_is : b.current_millis ≡ sat (b₀ ^ suc k)

pow-one : (k : ℕ) → 1 ^ k ≡ 1
pow-one zero = pow-zero 1
pow-one (suc k) = omega (arith, pow-suc 1 k, pow-one k)

small_pow : (b k : ℕ) → u64_max < b ^ k → 2 ≤ b
small_pow zero k h =
    absurd (omega (arith, pow-le-pow_left {n = 0} {m = 1} (omega arith) k, pow-one k))
small_pow (suc zero) k h = absurd (omega (arith, pow-one k))
small_pow (suc (suc b)) k h = omega arith

sat_below :
    (p b : ℕ)
    → p ≤ u64_max
    → (sat p * b ≤ u64_max → sat (p * b) ≡ sat p * b)
      × (u64_max < sat p * b → sat (p * b) ≡ u64_max)
sat_below p b h = let e : sat p ≡ p = omega arith in rw e (omega arith)

sat_above :
    (p b : ℕ)
    → u64_max < p
    → 2 ≤ b
    → (sat p * b ≤ u64_max → sat (p * b) ≡ sat p * b)
      × (u64_max < sat p * b → sat (p * b) ≡ u64_max)
sat_above p b h k =
    let e : sat p ≡ u64_max = omega arith in rw e (omega (arith, mul-le-mul_left p k))

-- The overflow branch saturates exactly where the exact product would pass the largest u64.
sat-mul :
    (p b : ℕ)
    → (u64_max < p → 2 ≤ b)
    → (sat p * b ≤ u64_max → sat (p * b) ≡ sat p * b)
      × (u64_max < sat p * b → sat (p * b) ≡ u64_max)
sat-mul p b h = elim (dec_lt u64_max p) [
  | yes q ↦ sat_above p b q (h q)
  | no q ↦ sat_below p b (omega arith)
]

advance-Reached :
    (b₀ k : ℕ) (b : ExponentialBackoff) → Reached b₀ k b → Reached b₀ (suc k) (advance b).1
unfolding advance
advance-Reached b₀ k b r =
    let e : b.current_millis * b.base_millis ≡ sat (b₀ ^ suc k) * b₀ = cc in
    ground (arith, e, pow-suc b₀ (suc k), sat-mul (b₀ ^ suc k) b₀ (small_pow b₀ (suc k)))

advance-current :
    (b : ExponentialBackoff)
    → ((advance b).0 ≡ some (millis b.current_millis)) × ((advance b).1.max_delay ≡ b.max_delay)
unfolding advance
advance-current b = ground arith

-- A draw either finds the delay past the maximum, and leaves the state, or goes on.
abbrev Draw : Option ℕ → ExponentialBackoff → Option ℕ × ExponentialBackoff → Type 0
Draw o b r =
    ((m : ℕ) × (o ≡ some m) × (m < millis b.current_millis) × (r ≡ (some m, b)))
    ⊎ ((cap o (millis b.current_millis) ≡ millis b.current_millis) × (r ≡ advance b))

limited-Draw : (o : Option ℕ) (b : ExponentialBackoff) → Draw o b (limited o b)
unfolding limited
limited-Draw none b = inr (refl, refl)
limited-Draw (some m) b = elim (Bool-cases (ltb m (millis b.current_millis))) [
  | inl h ↦ inl (m, refl, ltb→lt _ _ h, rw h)
  | inr h ↦ inr (omega tests, rw h)
]

next-Draw : (b : ExponentialBackoff) → Draw b.max_delay b (next b)
unfolding next
next-Draw b = limited-Draw b.max_delay b

pow_mono : (b k n : ℕ) → 0 < sat (b ^ suc k) → b ^ suc k ≤ b ^ suc (n + k)
pow_mono zero k n h = absurd (omega (arith, pow-suc 0 k))
pow_mono (suc b) k n h = pow-le-pow_right {n = suc b} (omega arith) (omega arith)

delay-frozen :
    (b₀ k n : ℕ) (b : ExponentialBackoff) (m : ℕ)
    → Reached b₀ k b
    → m < millis b.current_millis
    → min m (millis (sat (b₀ ^ suc (n + k)))) ≡ m
delay-frozen b₀ k n b m r h = omega (arith, pow_mono b₀ k n (omega arith))

-- What the draw number `n` from `b` yields, once `k` draws are made.
abbrev Yields : ℕ → ℕ → ℕ → ExponentialBackoff → Type 0
Yields b₀ n k b = nth next n b ≡ some (cap b.max_delay (millis (sat (b₀ ^ suc (n + k)))))

frozen-Yields :
    (b₀ n k : ℕ) (b : ExponentialBackoff) (m : ℕ)
    → Reached b₀ k b
    → m < millis b.current_millis
    → b.max_delay ≡ some m
    → next b ≡ (some m, b)
    → Yields b₀ n k b
frozen-Yields b₀ n k b m r h e q =
    nth_at_rest next n b (ap (λ t. t.1) q)
    ∙ ap (λ t. t.0) q
    ∙ ap some
        (sym (ap (λ o. cap o (millis (sat (b₀ ^ suc (n + k))))) e ∙ delay-frozen b₀ k n b m r h))

zero-Yields :
    (b₀ k : ℕ) (b : ExponentialBackoff)
    → Reached b₀ k b
    → cap b.max_delay (millis b.current_millis) ≡ millis b.current_millis
    → next b ≡ advance b
    → Yields b₀ 0 k b
unfolding nth
zero-Yields b₀ k b r e q =
    ap (λ t. t.0) q
    ∙ (advance-current b).0
    ∙ ap some (sym e ∙ ap (λ c. cap b.max_delay (millis c)) (rw add.zero r.current_is))

suc-Yields :
    (b₀ n k : ℕ) (b : ExponentialBackoff)
    → next b ≡ advance b
    → Yields b₀ n (suc k) (advance b).1
    → Yields b₀ (suc n) k b
unfolding nth
suc-Yields b₀ n k b q ih =
    ap (λ t. nth next n t.1) q
    ∙ ih
    ∙ ap some (
        ap (λ o. cap o (millis (sat (b₀ ^ suc (n + suc k))))) (advance-current b).1
        ∙ ap (λ j. cap b.max_delay (millis (sat (b₀ ^ suc j)))) (omega arith))

delays : (b₀ n k : ℕ) (b : ExponentialBackoff) → Reached b₀ k b → Yields b₀ n k b
delays b₀ zero k b r = elim (next-Draw b) [
  | inl (m, e, h, q) ↦ frozen-Yields b₀ 0 k b m r h e q
  | inr (e, q) ↦ zero-Yields b₀ k b r e q
]
delays b₀ (suc n) k b r = elim (next-Draw b) [
  | inl (m, e, h, q) ↦ frozen-Yields b₀ (suc n) k b m r h e q
  | inr (e, q) ↦ suc-Yields b₀ n k b q (delays b₀ n (suc k) _ (advance-Reached b₀ k b r))
]

start-Reached :
    (m : ℕ) (b : ExponentialBackoff)
    → m ≤ u64_max
    → b.base_millis ≡ m
    → b.current_millis ≡ m
    → Reached m 0 b
start-Reached m b h p c = record {
  base_is = p;
  current_is = omega (arith, pow-suc m 0, ap (λ t. t * m) (pow-zero m));
}

-- Draw number n of an `ExponentialBackoff` made with m milliseconds, a u64, yields m to the power
-- n + 1 milliseconds, held to the largest u64.
pub nth-from_millis :
    (m n : ℕ) → m ≤ u64_max → nth next n (from_millis m) ≡ some (millis (min (m ^ suc n) u64_max))
unfolding from_millis
nth-from_millis m n h =
    delays m n 0 (from_millis m) (start-Reached m (from_millis m) h refl refl)
    ∙ ap (λ j. some (millis (sat (m ^ suc j)))) (add-zero n)

-- With a maximum set, draw number n yields the lesser of that maximum and this power.
pub nth-max_delay-from_millis :
    (m limit n : ℕ)
    → m ≤ u64_max
    → nth next n (max_delay (from_millis m) limit)
      ≡ some (min limit (millis (min (m ^ suc n) u64_max)))
unfolding from_millis max_delay
nth-max_delay-from_millis m limit n h =
    delays m n 0 _ (start-Reached m (max_delay (from_millis m) limit) h refl refl)
    ∙ ap (λ j. some (min limit (millis (sat (m ^ suc j))))) (add-zero n)
