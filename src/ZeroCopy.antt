-- ===== src/ZeroCopy.antt =====
-- `ZeroCopy` of src/zero_copy.rs on Linux: a slice of a file is sent to a descriptor.
pub mod Sendfile
pub mod Progress
pub mod Transfer
pub mod Macos
pub mod Serve
mod Tests
use future_aio.Base.{
  ℕ, zero, suc, ◌+◌, Bool, ltb, ◌==◌, if◌then◌else◌, Option, none, some, Result, ok, err, Outcome,
  returns, panics, ◌>>=◌, Build, add_u64, sub_u64,
}
use future_aio.FileSlice.{AsyncFileSlice}

-- `nix::errno::Errno`: the code that asks to try again, and any other.
pub data Errno : Type 0 where
  eagain : Errno
  other : ℕ → Errno

pub data SendFileError : Type 0 where
  nix_error : Errno → SendFileError

pub record ZeroCopy : Type 0 where
  pub raw_fd : ℕ

pub raw : ℕ → ZeroCopy
raw fd = record { raw_fd = fd }

-- What the loop uses of the system, over a world of type `W`. `sendfile target source offset count`
-- gives the number of bytes sent or an error, and the offset that it leaves; `nap` is the sleep of
-- ten milliseconds.
pub record System (W : Type 0) : Type 0 where
  pub sendfile : ℕ → ℕ → ℕ → ℕ → W → Result ℕ Errno × ℕ × W
  pub nap : W → W

-- A round of the loop leaves it, or goes on with a total and an offset.
pub data Round : Type 0 where
  leave : Outcome (Result ℕ SendFileError) → Round
  again : ℕ → ℕ → Round

-- What is done once the total is known.
tallied : ℕ → ℕ → ℕ → Outcome ℕ → Round
tallied size bytes_transferred current_offset panics = leave panics
tallied size bytes_transferred current_offset (returns total) =
    if bytes_transferred == 0
    then leave (returns (ok total))
    else if ltb total size
    then again total current_offset
    else leave (returns (ok total))

module _ {W : Type 0} (system : System W) (build : Build) (size : ℕ) where
  answered : ℕ → Result ℕ Errno × ℕ × W → Round × W
  answered total (ok bytes_transferred, offset, w) =
      (tallied size bytes_transferred offset (add_u64 build total bytes_transferred), w)
  answered total (err eagain, offset, w) = (again total offset, system.nap w)
  answered total (err (other code), offset, w) = (leave (returns (err (nix_error (other code)))), w)

  -- The `size as usize - total_transferred` of the round may panic.
  asked : ℕ → ℕ → ℕ → ℕ → W → Outcome ℕ → Round × W
  asked target source total offset w panics = (leave panics, w)
  asked target source total offset w (returns to_be_transfer) =
      answered total (system.sendfile target source offset to_be_transfer w)

  round : ℕ → ℕ → ℕ → ℕ → W → Round × W
  unfolding asked answered tallied
  round target source total offset w = asked target source total offset w (sub_u64 build size total)

  -- Leave the loop, or take another turn.
  turn :
      (ℕ → ℕ → W → Option (Outcome (Result ℕ SendFileError) × W))
      → Round × W
      → Option (Outcome (Result ℕ SendFileError) × W)
  turn next (leave result, w) = some (result, w)
  turn next (again total offset, w) = next total offset w

  -- The `loop`, on fuel: `none` means that the fuel ran out.
  copy_loop : ℕ → ℕ → ℕ → ℕ → ℕ → W → Option (Outcome (Result ℕ SendFileError) × W)
  unfolding turn
  copy_loop zero target source total offset w = none
  copy_loop (suc fuel) target source total offset w =
      turn (λ t o v. copy_loop fuel target source t o v) (round target source total offset w)

-- The Linux block of `copy_slice`. On a 64-bit target `as usize` and, below 2 ^ 63, `as off_t`
-- leave the number.
pub copy_slice :
    {W : Type 0}
    → System W
    → Build
    → ℕ
    → ZeroCopy
    → AsyncFileSlice
    → W
    → Option (Outcome (Result ℕ SendFileError) × W)
copy_slice system build fuel z source w =
    copy_loop system build source.len fuel z.raw_fd source.fd 0 source.position w
