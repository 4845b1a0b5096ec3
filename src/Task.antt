-- ===== src/Task.antt =====
-- src/task.rs: `run`, `main` and `run_block_on` on a native target, and the spawning of tasks. A
-- future is a state and its poll at an instant; a poll gives no answer if it does not come to an end.
pub mod Forever
mod Tests
use future_aio.Base.{
  ℕ, zero, suc, ◌+◌, ◌*◌, leb, if◌then◌else◌, Option, none, some, Poll, pending, ready,
}
use future_aio.Duration.{secs}

abbrev pub Polls : Type 0 → Type 0 → Type 0
Polls S A = ℕ → S → Option (Poll A × S)

-- `block_on` of async-global-executor; no answer means that it never returns.
pub record Executor : Type 1 where
  pub block_on : {S A : Type 0} → Polls S A → S → Option A

-- The `Sleeper` of src/timer.rs that is due at an instant, polled at another one.
pub poll_sleeper : ℕ → ℕ → Poll (Unit {0})
poll_sleeper due now = if leb due now then ready tt else pending

-- The async block of `main` awaits the closure's future, or a timer.
pub data MainState (S : Type 0) : Type 0 where
  awaiting : S → MainState S
  sleeping : ℕ → MainState S

module _ {S : Type 0} (closure : Polls S (Unit {0})) where
  -- The loop of `main` from a timer on, on fuel, up to a timer that is not yet due.
  naps : ℕ → ℕ → ℕ → Option (Poll (Unit {0}) × MainState S)
  unfolding poll_sleeper
  naps zero now due = none
  naps (suc fuel) now due =
      let rest = naps fuel now (now + secs 3600) in
      elim (poll_sleeper due now) [ pending ↦ some (pending, sleeping due) | ready u ↦ rest ]

  -- A poll of the async block of `main`.
  pub poll_main : ℕ → Polls (MainState S) (Unit {0})
  unfolding naps
  poll_main fuel now (awaiting s) = elim (closure now s) [
    | none ↦ none
    | some (p, s') ↦ elim p [
      | pending ↦ some (pending, awaiting s')
      | ready u ↦ naps fuel now (now + secs 3600)
    ]
  ]
  poll_main fuel now (sleeping due) = naps fuel now due

module _ (executor : Executor) where
  unfoldable pub run : {S : Type 0} → Polls S (Unit {0}) → S → Option (Unit {0})
  run closure s = executor.block_on closure s

  unfoldable pub run_block_on : {S A : Type 0} → Polls S A → S → Option A
  run_block_on f s = executor.block_on f s

  -- The fuel is that of a poll.
  unfoldable pub main : {S : Type 0} → ℕ → Polls S (Unit {0}) → S → Option (Unit {0})
  unfolding run poll_main
  main fuel closure s = run (poll_main closure fuel) (awaiting s)

-- The spawning of async-global-executor, and that of wasm-bindgen-futures, over a world of type `W`
-- that holds the tasks.
pub record Spawner (W : Type 0) : Type 1 where
  pub Task : Type 0 → Type 0
  pub spawn : {S A : Type 0} → Polls S A → S → W → Task A × W
  pub detach : {A : Type 0} → Task A → W → W
  pub spawn_local : {S : Type 0} → Polls S (Unit {0}) → S → W → W

dropped : {S A : Type 0} → Option (Poll A × S) → Option (Poll (Unit {0}) × S)
dropped none = none
dropped (some (pending, s)) = some (pending, s)
dropped (some (ready a, s)) = some (ready tt, s)

-- `async move { let _ = future.await; }`.
without_output : {S A : Type 0} → Polls S A → Polls S (Unit {0})
unfolding dropped
without_output future now s = dropped (future now s)

module _ {W : Type 0} (spawner : Spawner W) where
  pub spawn_task : {S A : Type 0} → Polls S A → S → W → spawner.Task A × W
  spawn_task future s w = spawner.spawn future s w

  pub spawn : {S A : Type 0} → Polls S A → S → W → W
  spawn future s w = let (task, w') = spawner.spawn future s w in spawner.detach task w'

  -- `spawn` and `run_block_on` of wasm32 are the same.
  pub spawn_wasm32 : {S A : Type 0} → Polls S A → S → W → W
  unfolding without_output
  spawn_wasm32 future s w = spawner.spawn_local (without_output future) s w
