-- ===== src/Fs/Bounded.antt =====
-- `BoundedFileSink` of src/fs/bounded.rs: a file sink that counts what it has written.
pub mod Length
pub mod Limit
pub mod Logged
pub mod Memory
mod Tests
use future_aio.Base.{
  ℕ, ◌+◌, String, Bool, true, false, leb, Option, none, some, List, Result, ok, err, Poll, pending,
  ready, IoError, Outcome, returns, panics, ◌>>=◌, Build, add_u64,
}
use future_aio.FileSlice.{AsyncFileSlice}
use future_aio.FileSlice
use future_aio.Fs.Util.{FileSystem, open_read_append}

pub data BoundedFileSinkError : Type 0 where
  io_error : IoError → BoundedFileSinkError
  max_len_reached : BoundedFileSinkError

-- `Display`, with that of an IO error.
pub display : (IoError → String) → BoundedFileSinkError → String
display show (io_error e) = show e
display show max_len_reached = "max len reached"

-- `From<io::Error>`.
pub from_io : IoError → BoundedFileSinkError
from_io e = io_error e

pub record BoundedFileOption : Type 0 where
  pub max_len : Option ℕ

-- The match of `can_be_appended`; the addition is on u64.
fits : Build → Option ℕ → ℕ → ℕ → Outcome Bool
fits build (some max_len) current_len buf_len = do
  end ← add_u64 build current_len buf_len
  returns (leb end max_len)
fits build none current_len buf_len = returns true

module _ (fs : FileSystem) where
  open fs use {File, create_file, open_file, metadata_len, raw_fd}

  pub record BoundedFileSink : Type 0 where
    pub option : BoundedFileOption
    pub current_len : ℕ
    pub writer : File
    pub path : ℕ

  of_created : ℕ → BoundedFileOption → Result File IoError → Result BoundedFileSink IoError
  of_created path option (err e) = err e
  of_created path option (ok writer) =
      ok (record { option = option; current_len = 0; writer = writer; path = path })

  unfoldable pub create : ℕ → BoundedFileOption → Result BoundedFileSink IoError
  unfolding of_created
  create path option = of_created path option (create_file path)

  -- The sink over an open file, with the length that the system tells.
  of_metadata : ℕ → BoundedFileOption → File → Result ℕ IoError → Result BoundedFileSink IoError
  of_metadata path option writer (err e) = err e
  of_metadata path option writer (ok len) =
      ok (record { option = option; current_len = len; writer = writer; path = path })

  of_opened : ℕ → BoundedFileOption → Result File IoError → Result BoundedFileSink IoError
  of_opened path option (err e) = err e
  of_opened path option (ok writer) = of_metadata path option writer (metadata_len writer)

  pub open_write : ℕ → BoundedFileOption → Result BoundedFileSink IoError
  unfolding of_opened of_metadata
  open_write path option = of_opened path option (open_file path)

  unfoldable pub open_append : ℕ → BoundedFileOption → Result BoundedFileSink IoError
  unfolding of_opened of_metadata
  open_append path option = of_opened path option (open_read_append fs path)

  unfoldable pub get_current_len : BoundedFileSink → ℕ
  get_current_len s = s.current_len

  pub get_path : BoundedFileSink → ℕ
  get_path s = s.path

  -- Whether `buf_len` more bytes stay within the maximum.
  unfoldable pub can_be_appended : Build → BoundedFileSink → ℕ → Outcome Bool
  unfolding fits
  can_be_appended build s buf_len = fits build s.option.max_len s.current_len buf_len

  pub inner : BoundedFileSink → File
  inner s = s.writer

  -- The file that is borrowed, and the sink once the borrower has left the file in a state.
  unfoldable pub mut_inner : BoundedFileSink → File × (File → BoundedFileSink)
  mut_inner s = (s.writer, λ f. record s { writer = f })

  unfoldable pub slice_from : BoundedFileSink → ℕ → ℕ → Result AsyncFileSlice IoError
  unfolding FileSlice.new
  slice_from s position len = ok (FileSlice.new (raw_fd s.writer) position len)

  -- What `poll_write` does with the answer of the file.
  counted :
      Build
      → BoundedFileSink
      → Poll (Result ℕ IoError) × File
      → Outcome (Poll (Result ℕ IoError) × BoundedFileSink)
  counted build s (pending, f) = returns (pending, record s { writer = f })
  counted build s (ready (ok size), f) = do
    current_len ← add_u64 build s.current_len size
    returns (ready (ok size), record s { writer = f; current_len = current_len })
  counted build s (ready (err e), f) = returns (ready (err e), record s { writer = f })

  unfoldable pub poll_write :
      Build → BoundedFileSink → List ℕ → Outcome (Poll (Result ℕ IoError) × BoundedFileSink)
  unfolding counted
  poll_write build s buf = counted build s (fs.poll_write s.writer buf)

  unfoldable pub poll_flush : BoundedFileSink → Poll (Result (Unit {0}) IoError) × BoundedFileSink
  poll_flush s = let (r, f) = fs.poll_flush s.writer in (r, record s { writer = f })

  pub poll_close : BoundedFileSink → Poll (Result (Unit {0}) IoError) × BoundedFileSink
  poll_close s = let (r, f) = fs.poll_close s.writer in (r, record s { writer = f })
