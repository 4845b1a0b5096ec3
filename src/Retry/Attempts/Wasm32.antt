-- ===== src/Retry/Attempts/Wasm32.antt =====
-- `retry_if` of src/retry.rs on wasm32, where the timer may fail and its answer is unwrapped.
use future_aio.Base.{
  ℕ, zero, suc, ◌≡◌, refl, Bool, true, inl, inr, Option, none, some, Result, ok, err, Outcome,
  returns, panics, arith,
}
use future_aio.Retry.Attempts.{poll_err, retry_loop, retry_if}

-- The outcome of a run that does not unwind.
abbrev pub returned : {A W : Type 0} → Option (A × W) → Option (Outcome A × W)
returned none = none
returned (some (a, w)) = some (returns a, w)

module _ {W O E S F : Type 0} (next : S → Option ℕ × S) (factory : W → Result O E × W)
    (sleep : ℕ → W → Result (Unit {0}) F × W) (condition : E → Bool) where
  -- After `sleep(...).await.unwrap()`: the next attempt, and the rest of the loop on the error of one
  -- that may be repeated.
  woken :
      (E → W → Option (Outcome (Result O E) × W))
      → Result (Unit {0}) F × W
      → Option (Outcome (Result O E) × W)
  woken rest (err f, w) = some (panics, w)
  woken rest (ok u, w) =
      let (result, w') = factory w in
      elim (poll_err condition result) [ inl leave ↦ some (returns leave, w') | inr e ↦ rest e w' ]

  -- The `for` loop, on fuel.
  retry_loop_wasm32 : ℕ → S → E → W → Option (Outcome (Result O E) × W)
  unfolding woken
  retry_loop_wasm32 zero s last w = none
  retry_loop_wasm32 (suc fuel) s last w =
      let (item, s') = next s in
      elim item [
        | none ↦ some (returns (err last), w)
        | some delay ↦ woken (λ e v. retry_loop_wasm32 fuel s' e v) (sleep delay w)
      ]

  pub retry_if_wasm32 : ℕ → S → W → Option (Outcome (Result O E) × W)
  unfolding retry_loop_wasm32
  retry_if_wasm32 fuel s w =
      let (result, w') = factory w in
      elim (poll_err condition result) [
        | inl leave ↦ some (returns leave, w')
        | inr e ↦ retry_loop_wasm32 fuel s e w'
      ]

  module _ (nap : ℕ → W → W) (sound : (d : ℕ) (w : W) → sleep d w ≡ (ok tt, nap d w)) where
    retry_loop-wasm32 :
        (fuel : ℕ) (s : S) (last : E) (w : W)
        → retry_loop_wasm32 fuel s last w
          ≡ returned (retry_loop next factory nap condition fuel s last w)
    unfolding retry_loop_wasm32 retry_loop woken
    retry_loop-wasm32 zero s last w = refl
    retry_loop-wasm32 (suc fuel) s last w = grind (arith, sound, returned, retry_loop-wasm32 fuel)

    -- With a timer that does not fail, `retry_if` is that of a native target.
    retry_if-wasm32 :
        (fuel : ℕ) (s : S) (w : W)
        → retry_if_wasm32 fuel s w ≡ returned (retry_if next factory nap condition fuel s w)
    unfolding retry_if_wasm32 retry_if
    retry_if-wasm32 fuel s w = grind (arith, returned, retry_loop-wasm32 fuel)

  -- A timer that fails before the second attempt makes it panic, and that attempt is not made.
  retry_if-wasm32_panics :
      (fuel d : ℕ) (s s' : S) (e : E) (f : F) (w v u : W)
      → factory w ≡ (err e, v)
      → condition e ≡ true
      → next s ≡ (some d, s')
      → sleep d v ≡ (err f, u)
      → retry_if_wasm32 (suc fuel) s w ≡ some (panics, u)
  unfolding retry_if_wasm32 retry_loop_wasm32 woken poll_err
  retry_if-wasm32_panics fuel d s s' e f w v u tried again drawn failed = ground arith
