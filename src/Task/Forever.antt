-- ===== src/Task/Forever.antt =====
-- `main` of src/task.rs waits forever.
use future_aio.Base.{
  ℕ, zero, suc, ◌+◌, ◌≡◌, refl, subst, inl, inr, leb, Bool-cases, gt→leb, Option, none, some,
  Option-cases, Poll, pending, ready, arith,
}
use future_aio.Duration.{secs}
use future_aio.Task.{
  Polls, Executor, MainState, awaiting, sleeping, naps, poll_main, poll_sleeper, main, run,
}

-- Some polls in a row, the last of which gives the value.
pub data Completes {S A : Type 0} (polls : Polls S A) : S → A → Type 0 where
  at_once : (now : ℕ) (s s' : S) (a : A) → polls now s ≡ some (ready a, s') → Completes polls s a
  later :
      (now : ℕ) (s s' : S) (a : A)
      → polls now s ≡ some (pending, s')
      → Completes polls s' a
      → Completes polls s a

-- What is relied on of `block_on`: it returns only what a poll of the future has given.
pub record OnlyPolls (executor : Executor) : Type 1 where
  pub polled :
      {S A : Type 0} (polls : Polls S A) (s : S) (a : A)
      → executor.block_on polls s ≡ some a
      → Completes polls s a

module _ {S : Type 0} (closure : Polls S (Unit {0})) where
  -- A poll waits, if it comes to an end.
  abbrev Waits : Option (Poll (Unit {0}) × MainState S) → Type 0
  Waits none = Unit {0}
  Waits (some (pending, s)) = Unit {0}
  Waits (some (ready u, s)) = ⊥

  naps-Waits : (fuel now due : ℕ) → Waits (naps closure fuel now due)
  unfolding naps poll_sleeper
  naps-Waits zero now due = tt
  naps-Waits (suc fuel) now due = elim (Bool-cases (leb due now)) [
    | inl over ↦ rw (over, naps) (naps-Waits fuel now (now + secs 3600))
    | inr early ↦ rw (early, naps) tt
  ]

  after_closure-Waits :
      (fuel now : ℕ) (s : S) (r : Option (Poll (Unit {0}) × S))
      → closure now s ≡ r
      → Waits (poll_main closure fuel now (awaiting s))
  unfolding poll_main
  after_closure-Waits fuel now s none e = rw (e, poll_main) tt
  after_closure-Waits fuel now s (some (pending, s')) e = rw (e, poll_main) tt
  after_closure-Waits fuel now s (some (ready u, s')) e =
      rw (e, poll_main) (naps-Waits fuel now (now + secs 3600))

  poll_main-Waits : (fuel now : ℕ) (m : MainState S) → Waits (poll_main closure fuel now m)
  unfolding poll_main
  poll_main-Waits fuel now (awaiting s) = after_closure-Waits fuel now s (closure now s) refl
  poll_main-Waits fuel now (sleeping due) = naps-Waits fuel now due

  never-Completes :
      (fuel : ℕ) {m : MainState S} {u : Unit {0}} → ¬ Completes (poll_main closure fuel) m u
  never-Completes fuel (at_once now m m' u e) = subst Waits e (poll_main-Waits fuel now m)
  never-Completes fuel (later now m m' u e rest) = never-Completes fuel rest

  -- Two rounds are enough: a new timer is not due at once.
  naps_end :
      (fuel now due : ℕ)
      → (m : MainState S) × (naps closure (suc (suc fuel)) now due ≡ some (pending, m))
  unfolding naps poll_sleeper
  naps_end fuel now due = elim (Bool-cases (leb due now)) [
    | inl over ↦
        let fresh = gt→leb (now + secs 3600) now (omega arith) in
        (sleeping (now + secs 3600), rw (over, naps) (rw (fresh, naps) refl))
    | inr early ↦ (sleeping due, rw (early, naps) refl)
  ]

  abbrev Pends : ℕ → ℕ → MainState S → Type 0
  Pends fuel now m =
      (m' : MainState S) × (poll_main closure (suc (suc fuel)) now m ≡ some (pending, m'))

  after_closure-Pends :
      (fuel now : ℕ) (s : S) (r : Poll (Unit {0}) × S)
      → closure now s ≡ some r
      → Pends fuel now (awaiting s)
  unfolding poll_main
  after_closure-Pends fuel now s (pending, s') e = (awaiting s', rw (e, poll_main) refl)
  after_closure-Pends fuel now s (ready u, s') e =
      let (m, eq) = naps_end fuel now (now + secs 3600) in (m, rw (e, poll_main) eq)

  poll_main-Pends :
      (fuel now : ℕ) (m : MainState S)
      → ((t : ℕ) (s : S) → (r : Poll (Unit {0}) × S) × (closure t s ≡ some r))
      → Pends fuel now m
  unfolding poll_main
  poll_main-Pends fuel now (awaiting s) ends =
      after_closure-Pends fuel now s (ends now s).0 (ends now s).1
  poll_main-Pends fuel now (sleeping due) ends = naps_end fuel now due

-- On a native target, for an executor whose `block_on` returns only what a poll has given, and a
-- future whose polls come to an end: each poll of what `main` runs comes to an end too and waits, and
-- `main` never returns, not even when its future has completed.
pub main_never_returns :
    {S : Type 0} (executor : Executor) (laws : OnlyPolls executor) (fuel : ℕ)
    (closure : Polls S (Unit {0})) (s : S) (now : ℕ) (m : MainState S)
    → ((t : ℕ) (s : S) → (r : Poll (Unit {0}) × S) × (closure t s ≡ some r))
    → (main executor (suc (suc fuel)) closure s ≡ none)
      × ((m' : MainState S) × (poll_main closure (suc (suc fuel)) now m ≡ some (pending, m')))
unfolding main run
main_never_returns executor laws fuel closure s now m ends =
    let polls = poll_main closure (suc (suc fuel)) in
    let never : executor.block_on polls (awaiting s) ≡ none =
      elim (Option-cases (executor.block_on polls (awaiting s))) [
        | inl e ↦ e
        | inr (u, e) ↦
            absurd (never-Completes closure (suc (suc fuel)) (laws.polled polls (awaiting s) u e))
      ] in
    (never, poll_main-Pends closure fuel now m ends)
