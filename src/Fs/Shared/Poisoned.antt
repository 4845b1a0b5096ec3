-- ===== src/Fs/Shared/Poisoned.antt =====
-- A panic under the lock of a shared file.
use future_aio.Base.{ℕ, ◌≡◌, refl, ◌==◌, true, inl, inr, Bool-cases, List, panics, arith}
use future_aio.Fs.Shared.{
  Files, Heap, SharedAsyncFile, SharedAsyncFileRead, SharedSeekFuture, read_locked, seek_locked,
  released, poll_read, poll_read_future, poll_seek_future,
}

module _ (files : Files) where
  abbrev IsPoisoned : ℕ → Heap files → Type 0
  IsPoisoned a h = (h.cell a).poisoned ≡ true

  -- A poll that unwinds, because the file did or because the lock was poisoned, leaves the lock
  -- poisoned.
  read-IsPoisoned :
      (f : SharedAsyncFileRead files) (h : Heap files)
      → (poll_read_future files f h).0 ≡ panics
      → IsPoisoned f.inner (poll_read_future files f h).2
  unfolding poll_read_future read_locked released
  read-IsPoisoned f h p = elim (Bool-cases ((h.cell f.inner).poisoned)) [
    | inl e ↦ rw e e
    | inr e ↦
        let same : (f.inner == f.inner) ≡ true = ground arith in
        let unwound : (files.poll_read (h.cell f.inner).file f.buf).0 ≡ panics = rw e at p in
        rw (e, same, unwound) refl
  ]

  seek-IsPoisoned :
      (s : SharedSeekFuture files) (h : Heap files)
      → (poll_seek_future files s h).0 ≡ panics
      → IsPoisoned s.inner (poll_seek_future files s h).2
  unfolding poll_seek_future seek_locked released
  seek-IsPoisoned s h p = elim (Bool-cases ((h.cell s.inner).poisoned)) [
    | inl e ↦ rw e e
    | inr e ↦
        let same : (s.inner == s.inner) ≡ true = ground arith in
        let unwound : (files.poll_seek (h.cell s.inner).file s.seek).0 ≡ panics = rw e at p in
        rw (e, same, unwound) refl
  ]

  -- A poll of a read or of a seek on the file at the address has panicked.
  pub data PollPanicked (h : Heap files) : ℕ → Heap files → Type 0 where
    by_read :
        (f : SharedAsyncFileRead files)
        → (poll_read_future files f h).0 ≡ panics
        → PollPanicked h f.inner (poll_read_future files f h).2
    by_seek :
        (s : SharedSeekFuture files)
        → (poll_seek_future files s h).0 ≡ panics
        → PollPanicked h s.inner (poll_seek_future files s h).2

  PollPanicked-IsPoisoned :
      {h : Heap files} {a : ℕ} {h' : Heap files} → PollPanicked h a h' → IsPoisoned a h'
  PollPanicked-IsPoisoned {h} (by_read f p) = read-IsPoisoned f h p
  PollPanicked-IsPoisoned {h} (by_seek s p) = seek-IsPoisoned s h p

  -- Once the poll of a read or of a seek has panicked, the file is never touched again: a read
  -- through a clone of the handle, a poll of a read and a poll of a seek all panic, and leave the
  -- buffer, the future and the heap.
  pub panicked_panics :
      {h h' : Heap files} {a : ℕ} (f : SharedAsyncFile files) (buf : List ℕ)
      (r : SharedAsyncFileRead files) (s : SharedSeekFuture files)
      → PollPanicked h a h'
      → f.inner ≡ a
      → r.inner ≡ a
      → s.inner ≡ a
      → (poll_read files f buf h' ≡ (panics, buf, h'))
        × (poll_read_future files r h' ≡ (panics, r, h'))
        × (poll_seek_future files s h' ≡ (panics, s, h'))
  unfolding poll_read poll_read_future poll_seek_future read_locked seek_locked
  panicked_panics f buf r s k ef er es =
      let p = PollPanicked-IsPoisoned k in (rw (ef, p) refl, rw (er, p) refl, rw (es, p) refl)
