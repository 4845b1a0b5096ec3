-- ===== src/Task/Tests.antt =====
-- An executor that polls at the instants 0 to 2, and `main` on it.
use future_aio.Base.{
  ℕ, zero, suc, ◌+◌, ◌≡◌, refl, ap, ◌∙◌, Option, none, some, Poll, pending, ready,
}
use future_aio.Task.{Polls, Executor, MainState, awaiting, poll_main, main, run_block_on}
use future_aio.Task.Forever.{Completes, at_once, later, OnlyPolls, main_never_returns}

poll_from : {S A : Type 0} → ℕ → ℕ → Polls S A → S → Option A
poll_from zero now polls s = none
poll_from (suc n) now polls s = elim (polls now s) [
  | none ↦ none
  | some (p, s') ↦ elim p [ pending ↦ poll_from n (now + 1) polls s' | ready a ↦ some a ]
]

abbrev three_polls : Executor
three_polls = record { block_on = λ polls s. poll_from 3 0 polls s }

poll_from-Completes :
    {S A : Type 0} (n now : ℕ) (polls : Polls S A) (s : S) (a : A) (r : Option (Poll A × S))
    → polls now s ≡ r
    → poll_from (suc n) now polls s ≡ some a
    → ((s' : S) → poll_from n (now + 1) polls s' ≡ some a → Completes polls s' a)
    → Completes polls s a
unfolding poll_from
poll_from-Completes n now polls s a none e h rest = let k = rw (e, poll_from) at h in cc
poll_from-Completes n now polls s a (some (pending, s')) e h rest =
    later now s s' a e (rest s' (rw (e, poll_from) at h))
poll_from-Completes n now polls s a (some (ready b, s')) e h rest =
    let k = rw (e, poll_from) at h in
    let same : b ≡ a = cc in at_once now s s' a (e ∙ ap (λ c. some (ready c, s')) same)

all-Completes :
    {S A : Type 0} (n now : ℕ) (polls : Polls S A) (s : S) (a : A)
    → poll_from n now polls s ≡ some a
    → Completes polls s a
unfolding poll_from
all-Completes zero now polls s a h = cc
all-Completes (suc n) now polls s a h =
    poll_from-Completes n now polls s a (polls now s) refl h
      (λ s' k. all-Completes n (now + 1) polls s' a k)

three_polls-OnlyPolls : OnlyPolls three_polls
three_polls-OnlyPolls = record { polled = λ polls s a h. all-Completes 3 0 polls s a h }

-- A future that completes at the second poll.
abbrev twice : Polls ℕ (Unit {0})
twice now zero = some (pending, 1)
twice now (suc n) = some (ready tt, n)

twice_ends : (t s : ℕ) → (r : Poll (Unit {0}) × ℕ) × (twice t s ≡ some r)
twice_ends t zero = (_, refl)
twice_ends t (suc n) = (_, refl)

completes : run_block_on three_polls twice 0 ≡ some tt
unfolding run_block_on poll_from
completes = refl

main_never_returns_example :
    (main three_polls 2 twice 0 ≡ none)
    × ((m : MainState ℕ) × (poll_main twice 2 7 (awaiting 1) ≡ some (pending, m)))
main_never_returns_example =
    main_never_returns three_polls three_polls-OnlyPolls 0 twice 0 7 (awaiting 1) twice_ends
