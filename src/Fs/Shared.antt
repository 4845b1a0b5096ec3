-- ===== src/Fs/Shared.antt =====
-- `SharedAsyncFile` of src/fs/shared_file.rs: clones of a handle, and the futures made from it, share
-- one file behind a lock.
pub mod Polls
pub mod Reads
pub mod Poisoned
mod Tests
use future_aio.Base.{
  ℕ, ◌+◌, ◌==◌, if◌then◌else◌, Bool, true, false, List, Result, Poll, IoError, Outcome, returns,
  panics,
}
use future_aio.Fs.Util.{SeekFrom}

-- What is used of `AsyncFile`. A call returns or unwinds, and leaves a file; a read leaves the
-- buffer that it was given. `poll_seek` is the first poll of a new `seek` future.
pub record Files : Type 1 where
  pub AsyncFile : Type 0
  pub poll_read : AsyncFile → List ℕ → Outcome (Poll (Result ℕ IoError)) × List ℕ × AsyncFile
  pub poll_seek : AsyncFile → SeekFrom → Outcome (Poll (Result ℕ IoError)) × AsyncFile

module _ (files : Files) where
  open files use {AsyncFile}

  -- `RwLock<AsyncFile>`: a panic of the holder poisons it.
  pub record Lock : Type 0 where
    pub file : AsyncFile
    pub poisoned : Bool

  -- The allocated locks: an `Arc` is an address, and the addresses from `next` on are free.
  pub record Heap : Type 0 where
    pub next : ℕ
    pub cell : ℕ → Lock

  abbrev put : ℕ → Lock → Heap → Heap
  put a l h = record h { cell = λ b. if a == b then l else h.cell b }

  -- A handle, and the two futures, hold the `Arc`; to clone a handle copies it.
  pub record SharedAsyncFile : Type 0 where
    pub inner : ℕ

  pub record SharedSeekFuture : Type 0 where
    pub inner : ℕ
    pub seek : SeekFrom

  pub record SharedAsyncFileRead : Type 0 where
    pub inner : ℕ
    pub buf : List ℕ

  -- `SharedAsyncFile::new`; `From<AsyncFile>` is the same.
  unfoldable pub new : AsyncFile → Heap → SharedAsyncFile × Heap
  new file h = (
    record { inner = h.next },
    record (put h.next (record { file = file; poisoned = false }) h) { next = h.next + 1 },
  )

  pub from : AsyncFile → Heap → SharedAsyncFile × Heap
  from file h = new file h

  unfoldable pub read : SharedAsyncFile → List ℕ → SharedAsyncFileRead
  read f buf = record { inner = f.inner; buf = buf }

  -- `SharedSeekFuture::new`.
  seek_of : ℕ → SeekFrom → SharedSeekFuture
  seek_of inner to = record { inner = inner; seek = to }

  unfoldable pub seek : SharedAsyncFile → SeekFrom → SharedSeekFuture
  unfolding seek_of
  seek f to = seek_of f.inner to

  -- The lock after its holder has returned or unwound.
  released : {A : Type 0} → Outcome A → AsyncFile → Lock
  released (returns a) file = record { file = file; poisoned = false }
  released panics file = record { file = file; poisoned = true }

  -- `inner.write().unwrap()` and the read that follows.
  read_locked : ℕ → List ℕ → Heap → Outcome (Poll (Result ℕ IoError)) × List ℕ × Heap
  unfolding released
  read_locked a buf h =
      if (h.cell a).poisoned
      then (panics, buf, h)
      else let (r, buf', file) = files.poll_read (h.cell a).file buf in
        (r, buf', put a (released r file) h)

  seek_locked : ℕ → SeekFrom → Heap → Outcome (Poll (Result ℕ IoError)) × Heap
  unfolding released
  seek_locked a to h =
      if (h.cell a).poisoned
      then (panics, h)
      else let (r, file) = files.poll_seek (h.cell a).file to in (r, put a (released r file) h)

  -- `AsyncRead` of a handle.
  unfoldable pub poll_read :
      SharedAsyncFile → List ℕ → Heap → Outcome (Poll (Result ℕ IoError)) × List ℕ × Heap
  unfolding read_locked
  poll_read f buf h = read_locked f.inner buf h

  -- `Future` of a read, and of a seek, which is made anew at each poll.
  unfoldable pub poll_read_future :
      SharedAsyncFileRead → Heap → Outcome (Poll (Result ℕ IoError)) × SharedAsyncFileRead × Heap
  unfolding read_locked
  poll_read_future f h =
      let (r, buf, h') = read_locked f.inner f.buf h in (r, record f { buf = buf }, h')

  unfoldable pub poll_seek_future :
      SharedSeekFuture → Heap → Outcome (Poll (Result ℕ IoError)) × SharedSeekFuture × Heap
  unfolding seek_locked
  poll_seek_future f h = let (r, h') = seek_locked f.inner f.seek h in (r, f, h')
