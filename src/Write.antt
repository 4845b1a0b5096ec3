-- ===== src/Write.antt =====
-- `WriteBufAll` of src/write.rs: a future that writes a whole buffer.
pub mod Polls
mod Tests
use future_aio.Base.{
  ℕ, zero, suc, Bool, ltb, ◌==◌, if◌then◌else◌, List, [], ◌∷◌, length, drop, Option, none, some,
  Result, ok, err, Poll, pending, ready, IoError, write_zero, Outcome, returns, panics,
}

-- The writer's `poll_write`, over the state of the writer.
abbrev pub PollWrite : Type 0 → Type 0
PollWrite W = W → List ℕ → Poll (Result ℕ IoError) × W

-- What one turn of the `while` loop does: it returns, it panics, or it goes on with the rest.
pub data Turn : Type 0 where
  return : Poll (Result (Unit {0}) IoError) → Turn
  panic : Turn
  go_on : List ℕ → Turn

module _ {W : Type 0} (poll_write : PollWrite W) where
  -- After `ready!` and `?`; `split_at` panics past the end of the buffer.
  written : List ℕ → Poll (Result ℕ IoError) → Turn
  written buf pending = return pending
  written buf (ready (err e)) = return (ready (err e))
  written buf (ready (ok n)) =
      if ltb (length buf) n
      then panic
      else if n == 0
      then return (ready (err write_zero))
      else go_on (drop n buf)

  turn : List ℕ → W → Turn × W
  unfolding written
  turn [] w = (return (ready (ok tt)), w)
  turn (b ∷ bs) w = let (answer, w') = poll_write w (b ∷ bs) in (written (b ∷ bs) answer, w')

  then_loop :
      (List ℕ → W → Option (Outcome (Poll (Result (Unit {0}) IoError)) × W))
      → Turn × W
      → Option (Outcome (Poll (Result (Unit {0}) IoError)) × W)
  then_loop next (return r, w) = some (returns r, w)
  then_loop next (panic, w) = some (panics, w)
  then_loop next (go_on rest, w) = next rest w

  -- The `while` loop, on fuel: `none` means that the fuel ran out.
  write_loop : ℕ → List ℕ → W → Option (Outcome (Poll (Result (Unit {0}) IoError)) × W)
  unfolding turn then_loop
  write_loop zero buf w = none
  write_loop (suc fuel) buf w = then_loop (λ rest v. write_loop fuel rest v) (turn buf w)

pub record WriteBufAll (W : Type 0) : Type 0 where
  pub writer : W
  pub buf : List ℕ

pub new : {W : Type 0} → W → List ℕ → WriteBufAll W
new writer buf = record { writer = writer; buf = buf }

-- `AsyncWrite2::write_buf_all`.
pub write_buf_all : {W : Type 0} → W → List ℕ → WriteBufAll W
unfolding new
write_buf_all self buf = new self buf

-- `poll` walks a copy of the buffer: the future keeps the buffer whole. A turn that goes on makes the
-- rest shorter, so the fuel is one more than the length.
pub poll :
    {W : Type 0}
    → PollWrite W
    → WriteBufAll W
    → Option (Outcome (Poll (Result (Unit {0}) IoError)) × WriteBufAll W)
unfolding write_loop
poll poll_write self = elim (write_loop poll_write (suc (length self.buf)) self.buf self.writer) [
  | none ↦ none
  | some (r, w) ↦ some (r, record self { writer = w })
]
