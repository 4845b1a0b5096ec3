-- ===== src/Fs/Shared/Polls.antt =====
-- Polls of the reads of a shared file of src/fs/shared_file.rs, and what is relied on of the file.
use future_aio.Base.{
  ℕ, ◌+◌, ◌-◌, ◌≤◌, ◌≡◌, ◌==◌, if◌then◌else◌, List, [], ◌∷◌, ◌++◌, length, take, drop, Result, ok,
  err, Poll, pending, ready, IoError, Outcome, returns, panics,
}
use future_aio.Fs.Shared.{Files, Heap, SharedAsyncFileRead, poll_read_future}

module _ {F : Type 0} (Sound : F → Type 0) (content : F → List ℕ) (position : F → ℕ) where
  -- The file is as it was, but for its position.
  abbrev pub Moved : ℕ → F → F → Type 0
  Moved n f f' = Sound f' × (content f' ≡ content f) × (position f' ≡ position f + n)

  -- What a read of a file may answer: on success at most as many bytes as the buffer and the rest
  -- of the file have, put at the front of the buffer.
  abbrev pub ReadAnswer : F → List ℕ → Outcome (Poll (Result ℕ IoError)) × List ℕ × F → Type 0
  ReadAnswer f buf (panics, buf', f') = ⊥
  ReadAnswer f buf (returns pending, buf', f') = (buf' ≡ buf) × Moved 0 f f'
  ReadAnswer f buf (returns (ready (err e)), buf', f') = (buf' ≡ buf) × Moved 0 f f'
  ReadAnswer f buf (returns (ready (ok n)), buf', f') =
      (n ≤ length buf)
      × (n ≤ length (content f) - position f)
      × (buf' ≡ take n (drop (position f) (content f)) ++ drop n buf)
      × Moved n f f'

-- What is relied on of a sound file.
pub record ReadsOn (files : Files) : Type 1 where
  pub Sound : files.AsyncFile → Type 0
  pub content : files.AsyncFile → List ℕ
  pub position : files.AsyncFile → ℕ
  pub reads :
      (f : files.AsyncFile) (buf : List ℕ)
      → Sound f
      → ReadAnswer Sound content position f buf (files.poll_read f buf)

-- The bytes that a poll has read.
abbrev pub bytes_of : Outcome (Poll (Result ℕ IoError)) → List ℕ → List ℕ
bytes_of (returns (ready (ok n))) buf = take n buf
bytes_of r buf = []

-- Futures polled one after the other, whatever the answers; what those on the file at `a` read.
unfoldable pub poll_each :
    (files : Files) → ℕ → List (SharedAsyncFileRead files) → Heap files → List ℕ × Heap files
poll_each files a [] h = ([], h)
poll_each files a (f ∷ fs) h =
    let (r, f', h') = poll_read_future files f h in
    let (rest, h'') = poll_each files a fs h' in
    (if f.inner == a then bytes_of r f'.buf ++ rest else rest, h'')
