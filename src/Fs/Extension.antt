-- ===== src/Fs/Extension.antt =====
-- `AsyncFileExtension` of src/fs/extension.rs. A file is its descriptor and what the system answers
-- when it is asked for the file's length.
pub mod Slices
use future_aio.Base.{
  ℕ, Option, none, some, leb, if◌then◌else◌, Result, ok, err, IoError, unexpected_eof, Outcome,
  returns, panics, ◌>>=◌, Build, add_u64, sub_u64,
}
use future_aio.FileSlice.{AsyncFileSlice, new}
use future_aio.Fs.Util.{SeekFrom, start}

pub record File : Type 0 where
  pub raw_fd : ℕ
  pub metadata_len : Result ℕ IoError

-- No check is made.
unfoldable pub raw_slice : File → ℕ → ℕ → AsyncFileSlice
unfolding new
raw_slice file position len = new file.raw_fd position len

-- The length of the slice, of a file of length `len` whose position is already checked.
slice_len : Build → ℕ → ℕ → Option ℕ → Outcome (Result ℕ IoError)
slice_len build len position (some desired_len) = do
  end ← add_u64 build position desired_len
  if leb len end then returns (err unexpected_eof) else returns (ok desired_len)
slice_len build len position none = do rest ← sub_u64 build len position; returns (ok rest)

unfoldable pub as_slice : Build → File → ℕ → Option ℕ → Outcome (Result AsyncFileSlice IoError)
unfolding raw_slice slice_len
as_slice build file position desired_len_opt = elim file.metadata_len [
  | err e ↦ returns (err e)
  | ok len ↦
      if leb len position
      then returns (err unexpected_eof)
      else (slice_len build len position desired_len_opt >>= λ r. elim r [
        | err e ↦ returns (err e)
        | ok slice_len ↦ returns (ok (raw_slice file position slice_len))
      ])
]

-- `Result::map(|_| ())`.
unit_of : {A : Type 0} → Result A IoError → Result (Unit {0}) IoError
unit_of (ok a) = ok tt
unit_of (err e) = err e

-- `seek` stands for the file's own.
unfoldable pub reset_to_beginning :
    {F : Type 0} → (F → SeekFrom → Result ℕ IoError × F) → F → Result (Unit {0}) IoError × F
unfolding unit_of
reset_to_beginning seek f = let (r, f') = seek f (start 0) in (unit_of r, f')
