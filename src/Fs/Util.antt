-- ===== src/Fs/Util.antt =====
-- `util` of src/fs/mod.rs, and what the source uses of the file system: `FileSystem` stands for
-- `async_fs::File` and `async_fs::OpenOptions`.
use future_aio.Base.{ℕ, Bool, true, false, List, Result, Poll, IoError}

-- `std::io::SeekFrom`. The offsets of 64 bits with a sign.
pub data ℤ : Type 0 where
  pos negsuc : ℕ → ℤ

pub data SeekFrom : Type 0 where
  start : ℕ → SeekFrom
  end current : ℤ → SeekFrom

pub record OpenOptions : Type 0 where
  pub read : Bool
  pub write : Bool
  pub create : Bool
  pub append : Bool

-- `OpenOptions::new()`: nothing is set.
abbrev pub no_options : OpenOptions
no_options = record { read = false; write = false; create = false; append = false }

-- Paths are numbers, and a write takes the bytes of the buffer.
pub record FileSystem : Type 1 where
  pub File : Type 0
  pub create_file : ℕ → Result File IoError
  pub open_file : ℕ → Result File IoError
  pub open_with : OpenOptions → ℕ → Result File IoError
  pub raw_fd : File → ℕ
  pub metadata_len : File → Result ℕ IoError
  pub poll_write : File → List ℕ → Poll (Result ℕ IoError) × File
  pub poll_flush : File → Poll (Result (Unit {0}) IoError) × File
  pub poll_close : File → Poll (Result (Unit {0}) IoError) × File

module _ (fs : FileSystem) where
  open fs use {File, create_file, open_file, open_with}

  pub create : ℕ → Result File IoError
  create path = create_file path

  pub open_read : ℕ → Result File IoError
  open_read path = open_file path

  pub open_read_write : ℕ → Result File IoError
  open_read_write path =
      open_with (record no_options { read = true; write = true; create = true; append = false })
        path

  unfoldable pub open_read_append : ℕ → Result File IoError
  open_read_append path =
      open_with (record no_options { read = true; create = true; append = true }) path
