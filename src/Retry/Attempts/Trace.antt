-- ===== src/Retry/Attempts/Trace.antt =====
-- Which attempts `retry_if` makes: the calls of the factory and the sleeps are recorded, in order.
use mathlib.Core.List.{append_assoc, append-nil}
use native.Mathlib.Decide.{ℕ_discrete}
use future_aio.Base.{
  ℕ, zero, suc, ◌+◌, ◌≤◌, ◌<◌, ◌≡◌, refl, sym, subst, ap, ◌∙◌, Bool, true, false, not, Option, none,
  some, ◌⊎◌, inl, inr, List, [], ◌∷◌, ◌++◌, length, Result, ok, err, arith, Bool-cases,
}
use future_aio.Retry.Attempts.{poll_err, retry_loop, retry_if}

pub data Event : Type 0 where
  attempt pause : ℕ → Event

-- How many calls were made, and what has happened, the first event first.
pub record Trace : Type 0 where
  pub calls : ℕ
  pub log : List Event

abbrev pub start : Trace
start = record { calls = 0; log = [] }

-- The factory whose call number i gives the result number i.
abbrev pub scripted : {R : Type 0} → (ℕ → R) → Trace → R × Trace
scripted results t =
    (results t.calls, record { calls = suc t.calls; log = t.log ++ attempt t.calls ∷ [] })

abbrev pub sleep : ℕ → Trace → Trace
sleep d t = record t { log = t.log ++ pause d ∷ [] }

-- The next k attempts after attempt number c, each behind one of the delays.
abbrev pub retried : ℕ → ℕ → List ℕ → List Event
retried c zero ds = []
retried c (suc k) [] = []
retried c (suc k) (d ∷ ds) = pause d ∷ attempt (suc c) ∷ retried (suc c) k ds

-- The attempts 0 to k, with the first k delays between them.
abbrev pub attempts : ℕ → List ℕ → List Event
attempts k ds = attempt 0 ∷ retried 0 k ds

-- The iterator yields the delays of the list, and then ends.
abbrev pub Drains : {S : Type 0} → (S → Option ℕ × S) → S → List ℕ → Type 0
Drains next s [] = (next s).0 ≡ none
Drains next s (d ∷ ds) = ((next s).0 ≡ some d) × Drains next (next s).1 ds

-- An attempt settles the call if it succeeds or its error is not to be retried.
abbrev pub settles : {O E : Type 0} → (E → Bool) → Result O E → Bool
settles condition (ok o) = true
settles condition (err e) = not (condition e)

module _ {O E : Type 0} (condition : E → Bool) where
  poll_err_cases :
      (r : Result O E)
      → ((settles condition r ≡ true) × (poll_err condition r ≡ inl r))
        ⊎ ((e : E) × (settles condition r ≡ false) × (r ≡ err e) × (poll_err condition r ≡ inr e))
  unfolding poll_err
  poll_err_cases (ok o) = inl (refl, refl)
  poll_err_cases (err e) = elim (Bool-cases (condition e)) [
    | inl h ↦ inr (e, rw h, refl, rw h)
    | inr h ↦ inl (rw h, rw h)
  ]

  -- The attempts 0 to k were made, with the first k delays of `ds` between them, and the result
  -- is that of attempt k. None before it settles the call; it does, or the delays are used up.
  abbrev pub Attempted : (ℕ → Result O E) → List ℕ → Option (Result O E × Trace) → Type 0
  Attempted results ds run =
      (k : ℕ) × (k ≤ length ds)
      × (run ≡ some (results k, record { calls = suc k; log = attempts k ds }))
      × ((i : ℕ) → i < k → settles condition (results i) ≡ false)
      × ((settles condition (results k) ≡ true) ⊎ (k ≡ length ds))

  module _ {S : Type 0} (next : S → Option ℕ × S) (results : ℕ → Result O E) where
    -- The attempts from number c on: the last is number j, after the first k delays.
    abbrev Made : ℕ → List Event → List ℕ → Option (Result O E × Trace) → Type 0
    Made c before ds run =
        (k : ℕ) × (j : ℕ) × (c + k ≡ j)
        × (k ≤ length ds)
        × (run ≡ some (results j, record { calls = suc j; log = before ++ retried c k ds }))
        × ((i : ℕ) → c < i → i < j → settles condition (results i) ≡ false)
        × ((settles condition (results j) ≡ true) ⊎ (k ≡ length ds))

    abbrev run_loop : ℕ → S → E → Trace → Option (Result O E × Trace)
    run_loop = retry_loop next (scripted results) sleep condition

    -- A delay and an attempt are added to what has happened.
    abbrev later : ℕ → ℕ → List Event → List Event
    later d c before = before ++ pause d ∷ attempt (suc c) ∷ []

    abbrev after_delay : ℕ → ℕ → List Event → Trace
    after_delay d c before = record { calls = suc (suc c); log = later d c before }

    added :
        (d c : ℕ) (before : List Event)
        → (before ++ pause d ∷ []) ++ attempt (suc c) ∷ [] ≡ later d c before
    added d c before = append_assoc before (pause d ∷ []) (attempt (suc c) ∷ [])

    -- The three ways through one round of the loop.
    round_ends :
        (fuel : ℕ) (s : S) (last : E) (w : Trace)
        → (next s).0 ≡ none
        → run_loop (suc fuel) s last w ≡ some (err last, w)
    unfolding retry_loop
    round_ends fuel s last w h = rw (h, retry_loop) refl

    round_leaves :
        (fuel : ℕ) (s : S) (last : E) (c d : ℕ) (before : List Event)
        → (next s).0 ≡ some d
        → poll_err condition (results (suc c)) ≡ inl (results (suc c))
        → run_loop (suc fuel) s last (record { calls = suc c; log = before })
          ≡ some (results (suc c), after_delay d c before)
    unfolding retry_loop
    round_leaves fuel s last c d before h p =
        rw (h, retry_loop) (rw (p, retry_loop) refl)
        ∙ ap (λ es. some (results (suc c), record { calls = suc (suc c); log = es }))
            (added d c before)

    round_goes_on :
        (fuel : ℕ) (s : S) (last : E) (c d : ℕ) (before : List Event) (e : E)
        → (next s).0 ≡ some d
        → poll_err condition (results (suc c)) ≡ inr e
        → run_loop (suc fuel) s last (record { calls = suc c; log = before })
          ≡ run_loop fuel (next s).1 e (after_delay d c before)
    unfolding retry_loop
    round_goes_on fuel s last c d before e h p =
        rw (h, retry_loop) (rw (p, retry_loop) refl)
        ∙ ap (λ es. run_loop fuel (next s).1 e (record { calls = suc (suc c); log = es }))
            (added d c before)

    one_more :
        (c d : ℕ) (before : List Event) (ds : List ℕ) (run : Option (Result O E × Trace))
        → settles condition (results (suc c)) ≡ false
        → Made (suc c) (later d c before) ds run
        → Made c before (d ∷ ds) run
    one_more c d before ds run u (k, j, e, b, eq, un, last) = (
      suc k,
      j,
      omega arith,
      omega arith,
      eq
          ∙ ap (λ xs. some (results j, record { calls = suc j; log = xs }))
              (append_assoc before (pause d ∷ attempt (suc c) ∷ []) (retried (suc c) k ds)),
      λ i p q. elim (ℕ_discrete i (suc c)) [
        | yes at ↦ ap (λ n. settles condition (results n)) at ∙ u
        | no past ↦ un i (omega arith) q
      ],
      elim last [ inl v ↦ inl v | inr v ↦ inr (ap suc v) ],
    )

    loop-Made :
        (ds : List ℕ) (fuel : ℕ) (s : S) (c : ℕ) (last : E) (before : List Event)
        → Drains next s ds
        → length ds < fuel
        → results c ≡ err last
        → Made c before ds (run_loop fuel s last (record { calls = suc c; log = before }))
    loop-Made [] zero s c last before dr h e = elim h [ ]
    loop-Made [] (suc fuel) s c last before dr h e = (
      0,
      c,
      omega arith,
      omega arith,
      round_ends fuel s last _ dr
          ∙ ap (λ r. some (r, record { calls = suc c; log = before })) (sym e)
          ∙ ap (λ xs. some (results c, record { calls = suc c; log = xs }))
              (sym (append-nil before)),
      λ i p q. absurd (omega arith),
      inr refl,
    )
    loop-Made (d ∷ ds) zero s c last before dr h e = elim h [ ]
    loop-Made (d ∷ ds) (suc fuel) s c last before dr h e = elim (poll_err_cases (results (suc c))) [
      | inl (v, p) ↦ (
        1,
        suc c,
        omega arith,
        omega arith,
        round_leaves fuel s last c d before dr.0 p,
        λ i p q. absurd (omega arith),
        inl v,
      )
      | inr (e', v, q, p) ↦ one_more c d before ds _ v (
          subst (Made (suc c) (later d c before) ds)
            (sym (round_goes_on fuel s last c d before e' dr.0 p))
            (loop-Made ds fuel (next s).1 (suc c) e' (later d c before) dr.1 (omega arith) q))
    ]

    Made-Attempted :
        (ds : List ℕ) (run : Option (Result O E × Trace))
        → settles condition (results 0) ≡ false
        → Made 0 (attempt 0 ∷ []) ds run
        → Attempted results ds run
    Made-Attempted ds run v (k, j, sum, b, eq, un, last) =
        let e : k ≡ j = omega arith in
        (
          j,
          omega arith,
          eq ∙ ap (λ n. some (results j, record { calls = suc j; log = attempts n ds })) e,
          λ i q. elim (ℕ_discrete i 0) [
            | yes at ↦ ap (λ n. settles condition (results n)) at ∙ v
            | no past ↦ un i (omega arith) q
          ],
          elim last [ inl w ↦ inl w | inr w ↦ inr (sym e ∙ w) ],
        )

    -- For an iterator that yields the delays ds and ends, and fuel beyond their number, `retry_if`
    -- returns. It makes the attempts 0 to k, in this order, and between two of them it sleeps, the
    -- first k delays of ds one after another; it returns what attempt k gave. No attempt before k succeeded or failed with an error that the
    -- condition refuses; attempt k did, or k is the number of delays.
    pub retry_if-Attempted :
        (ds : List ℕ) (fuel : ℕ) (s : S)
        → Drains next s ds
        → length ds < fuel
        → Attempted results ds (retry_if next (scripted results) sleep condition fuel s start)
    unfolding retry_if
    retry_if-Attempted ds fuel s dr h = elim (poll_err_cases (results 0)) [
      | inl (v, p) ↦ (0, omega arith, rw (p, retry_if) refl, λ i q. absurd (omega arith), inl v)
      | inr (e, v, q, p) ↦
          Made-Attempted ds _ v (rw (p, retry_if) (loop-Made ds fuel s 0 e (attempt 0 ∷ []) dr h q))
    ]
