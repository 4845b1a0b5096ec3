-- ===== src/Retry/Attempts/Elapsed.antt =====
-- How long `retry_if` of src/retry.rs takes over attempts that are limited in time.
use future_aio.Base.{
  ℕ, zero, suc, ◌+◌, ◌-◌, ◌*◌, ◌≤◌, ◌<◌, ◌≡◌, refl, ◌∙◌, Bool, ◌⊎◌, inl, inr, Bool-cases, Option,
  some, List, [], ◌∷◌, length, Result, ok, err, arith,
}
use future_aio.Retry.Attempts.{poll_err, retry_loop, retry_if}
use future_aio.Retry.Attempts.Trace.{Drains}

abbrev pub total : List ℕ → ℕ
total [] = 0
total (d ∷ ds) = d + total ds

-- The time that attempts with the given delays between them may take: the limit for each, of which
-- there is one more than delays, and the delays.
abbrev pub allowed : ℕ → List ℕ → ℕ
allowed limit [] = limit
allowed limit (d ∷ ds) = limit + d + allowed limit ds

pub allowed-total :
    (limit : ℕ) (ds : List ℕ) → allowed limit ds ≡ suc (length ds) * limit + total ds
allowed-total limit [] = omega arith
allowed-total limit (d ∷ ds) = omega (arith, allowed-total limit ds)

module _ {W O E S : Type 0} (now : W → ℕ) (next : S → Option ℕ × S) (factory : W → Result O E × W)
    (sleep : ℕ → W → W) (condition : E → Bool) (limit : ℕ) where
  -- The call returns before the instant.
  abbrev pub ReturnsBy : ℕ → Option (Result O E × W) → Type 0
  ReturnsBy deadline run = (r : Result O E) × (w : W) × (run ≡ some (r, w)) × (now w ≤ deadline)

  module _ (quick : (w : W) → now (factory w).1 ≤ now w + limit)
      (sleeps : (d : ℕ) (w : W) → now (sleep d w) ≡ now w + d) where
    abbrev run_loop : ℕ → S → E → W → Option (Result O E × W)
    run_loop fuel s last w = retry_loop next factory sleep condition fuel s last w

    poll_err_cases :
        (r : Result O E)
        → ((l : Result O E) × (poll_err condition r ≡ inl l))
          ⊎ ((e : E) × (poll_err condition r ≡ inr e))
    unfolding poll_err
    poll_err_cases (ok o) = inl (ok o, refl)
    poll_err_cases (err e) = elim (Bool-cases (condition e)) [
      | inl h ↦ inr (e, rw h refl)
      | inr h ↦ inl (err e, rw h refl)
    ]

    -- A run that starts later, and may last as much less.
    later-ReturnsBy :
        (a b : ℕ) (run run' : Option (Result O E × W))
        → a ≤ b
        → run' ≡ run
        → ReturnsBy a run
        → ReturnsBy b run'
    later-ReturnsBy a b run run' le e (r, w, eq, by) = (r, w, e ∙ eq, omega arith)

    loop-ReturnsBy :
        (ds : List ℕ) (fuel : ℕ) (s : S) (last : E) (w : W)
        → Drains next s ds
        → length ds < fuel
        → ReturnsBy (now w + (allowed limit ds - limit)) (run_loop fuel s last w)
    unfolding retry_loop
    loop-ReturnsBy [] zero s last w dr f = absurd (omega arith)
    loop-ReturnsBy [] (suc fuel) s last w dr f =
        (err last, w, rw (dr, retry_loop) refl, omega arith)
    loop-ReturnsBy (d ∷ ds) zero s last w dr f = absurd (omega arith)
    loop-ReturnsBy (d ∷ ds) (suc fuel) s last w dr f =
        let w' = (factory (sleep d w)).1 in
        let at = allowed-total limit ds in
        elim (poll_err_cases (factory (sleep d w)).0) [
          | inl (l, p) ↦ (
            l,
            w',
            rw (dr.0, retry_loop) (rw (p, retry_loop) refl),
            omega (arith, quick (sleep d w), sleeps d w, at),
          )
          | inr (e, p) ↦
              later-ReturnsBy (now w' + (allowed limit ds - limit)) _
                (run_loop fuel (next s).1 e w') _ (omega (arith, quick (sleep d w), sleeps d w, at))
                (rw (dr.0, retry_loop) (rw (p, retry_loop) refl))
                (loop-ReturnsBy ds fuel (next s).1 e w' dr.1 (omega arith))
        ]

    -- The first attempt, and the loop.
    pub retry_if-ReturnsBy :
        (ds : List ℕ) (fuel : ℕ) (s : S) (w : W)
        → Drains next s ds
        → length ds < fuel
        → ReturnsBy (now w + allowed limit ds) (retry_if next factory sleep condition fuel s w)
    unfolding retry_if
    retry_if-ReturnsBy ds fuel s w dr f =
        let at = allowed-total limit ds in
        elim (poll_err_cases (factory w).0) [
          | inl (l, p) ↦ (l, (factory w).1, rw (p, retry_if) refl, omega (arith, quick w, at))
          | inr (e, p) ↦
              later-ReturnsBy (now (factory w).1 + (allowed limit ds - limit)) _
                (run_loop fuel s e (factory w).1) _ (omega (arith, quick w, at))
                (rw (p, retry_if) refl) (loop-ReturnsBy ds fuel s e (factory w).1 dr f)
        ]
