-- ===== src/ZeroCopy/Macos.antt =====
-- The macOS block of `copy_slice` in src/zero_copy.rs.
pub mod Overrun
mod Tests
pub mod Sendfile
pub mod Transfer
use future_aio.Base.{
  ℕ, zero, suc, ◌+◌, Bool, ltb, ◌==◌, if◌then◌else◌, Option, none, some, Result, ok, err, Outcome,
  returns, panics, Build, add_u64, sub_u64, ◌-◌, ◌^◌, ◌<◌, ◌≡◌, refl, lt→ltb,
}
use future_aio.Fs.Util.{ℤ, pos, negsuc}
use future_aio.FileSlice.{AsyncFileSlice}
use future_aio.ZeroCopy.{
  Errno, eagain, other, SendFileError, nix_error, ZeroCopy, Round, leave, again,
}

-- `as i64` of a u64: from 2 ^ 63 on the number less 2 ^ 64.
pub as_i64 : ℕ → ℤ
as_i64 n = if ltb n (2 ^ 63) then pos n else negsuc (2 ^ 64 - 1 - n)

pub as_i64-pos : (n : ℕ) → n < 2 ^ 63 → as_i64 n ≡ pos n
unfolding as_i64
as_i64-pos n h = rw (lt→ltb n (2 ^ 63) h) refl

-- What the loop uses of macOS. `sendfile source target offset count` gives a result and, whatever
-- that is, the number of bytes sent.
pub record Macos (W : Type 0) : Type 0 where
  pub sendfile : ℕ → ℕ → ℤ → ℤ → W → Result (Unit {0}) Errno × ℕ × W
  pub nap : W → W

module _ {W : Type 0} (system : Macos W) (build : Build) (size : ℕ) where
  -- The `match` on the result, with the new total and offset.
  matched : Result (Unit {0}) Errno → ℕ → ℕ → ℕ → W → Round × W
  matched (ok u) bytes_transferred total offset w =
      if bytes_transferred == 0
      then (leave (returns (ok total)), w)
      else if ltb total size
      then (again total offset, w)
      else (leave (returns (ok total)), w)
  matched (err eagain) bytes_transferred total offset w = (again total offset, system.nap w)
  matched (err (other code)) bytes_transferred total offset w =
      (leave (returns (err (nix_error (other code)))), w)

  -- The two sums on u64, which may panic.
  summed : Result (Unit {0}) Errno → ℕ → Outcome ℕ → Outcome ℕ → W → Round × W
  unfolding matched
  summed res bytes_transferred panics offset w = (leave panics, w)
  summed res bytes_transferred (returns total) panics w = (leave panics, w)
  summed res bytes_transferred (returns total) (returns offset) w =
      matched res bytes_transferred total offset w

  tallied : ℕ → ℕ → Result (Unit {0}) Errno × ℕ × W → Round × W
  unfolding summed
  tallied total offset (res, bytes_transferred, w) =
      summed res bytes_transferred (add_u64 build total bytes_transferred)
        (add_u64 build offset bytes_transferred) w

  -- `to_be_transfer` is known, unless `size - total_transferred` has panicked.
  asked : ℕ → ℕ → ℕ → ℕ → W → Outcome ℕ → Round × W
  unfolding tallied
  asked target source total offset w panics = (leave panics, w)
  asked target source total offset w (returns to_be_transfer) =
      tallied total offset (system.sendfile source target (as_i64 offset) (as_i64 to_be_transfer) w)

  turn :
      (ℕ → ℕ → W → Option (Outcome (Result ℕ SendFileError) × W))
      → Round × W
      → Option (Outcome (Result ℕ SendFileError) × W)
  turn next (leave result, w) = some (result, w)
  turn next (again total offset, w) = next total offset w

  -- The `loop`, on fuel: `none` means that the fuel ran out.
  copy_loop : ℕ → ℕ → ℕ → ℕ → ℕ → W → Option (Outcome (Result ℕ SendFileError) × W)
  unfolding turn asked
  copy_loop zero target source total offset w = none
  copy_loop (suc fuel) target source total offset w =
      turn (λ t o v. copy_loop fuel target source t o v)
        (asked target source total offset w (sub_u64 build size total))

unfoldable pub copy_slice :
    {W : Type 0}
    → Macos W
    → Build
    → ℕ
    → ZeroCopy
    → AsyncFileSlice
    → W
    → Option (Outcome (Result ℕ SendFileError) × W)
unfolding copy_loop
copy_slice system build fuel z source w =
    copy_loop system build source.len fuel z.raw_fd source.fd 0 source.position w
