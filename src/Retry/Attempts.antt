-- ===== src/Retry/Attempts.antt =====
-- `retry_if` and `retry` of src/retry.rs, over a world of type `W` that holds the state of the
-- factory's closure and of the clock.
pub mod Elapsed
pub mod Finite
pub mod Trace
pub mod Wasm32
use future_aio.Base.{
  ℕ, zero, suc, Bool, true, Option, none, some, ◌⊎◌, inl, inr, Result, ok, err, if◌then◌else◌,
}

-- `poll_err!`: the left side leaves the function, the right side is the error to retry on.
unfoldable pub poll_err : {O E : Type 0} → (E → Bool) → Result O E → Result O E ⊎ E
poll_err condition (ok output) = inl (ok output)
poll_err condition (err e) = if condition e then inr e else inl (err e)

module _ {W O E S : Type 0} (next : S → Option ℕ × S) (factory : W → Result O E × W)
    (sleep : ℕ → W → W) (condition : E → Bool) where
  -- The `for` loop, on fuel: `last` is the error of the attempt before, and no answer means that
  -- the fuel ran out.
  retry_loop : ℕ → S → E → W → Option (Result O E × W)
  retry_loop zero s last w = none
  retry_loop (suc fuel) s last w =
      let (item, s') = next s in
      elim item [
        | none ↦ some (err last, w)
        | some delay ↦
            let (result, w') = factory (sleep delay w) in
            elim (poll_err condition result) [
              | inl leave ↦ some (leave, w')
              | inr e ↦ retry_loop fuel s' e w'
            ]
      ]

  unfoldable pub retry_if : ℕ → S → W → Option (Result O E × W)
  unfolding retry_loop poll_err
  retry_if fuel s w =
      let (result, w') = factory w in
      elim (poll_err condition result) [
        | inl leave ↦ some (leave, w')
        | inr e ↦ retry_loop fuel s e w'
      ]

module _ {W O E S : Type 0} (next : S → Option ℕ × S) (factory : W → Result O E × W)
    (sleep : ℕ → W → W) where
  pub retry : ℕ → S → W → Option (Result O E × W)
  retry fuel s w = retry_if next factory sleep (λ _. true) fuel s w
