-- ===== src/Fs/Bounded/Length.antt =====
-- The counter of a sink is the length of its file.
use future_aio.Base.{
  ℕ, ◌+◌, ◌≤◌, ◌<◌, ◌≡◌, refl, sym, ap, ◌∙◌, subst, ◌⊎◌, ok-injective, add_u64-returns, List, [],
  ◌∷◌, length, Result, ok, err, Poll, pending, ready, IoError, Outcome, returns, ◌>>=◌, Build,
  u64_mod, arith, inl, inr,
}
use future_aio.Fs.Util.{FileSystem, open_read_append}
use future_aio.Fs.Bounded.{
  BoundedFileOption, BoundedFileSink, create, open_append, poll_write, counted, of_created,
  of_metadata, of_opened,
}

-- What a write of `buf` to the end of a file does to its size.
abbrev pub Wrote : {F : Type 0} → (F → ℕ) → List ℕ → F → Poll (Result ℕ IoError) × F → Type 0
Wrote size buf f (pending, f') = size f' ≡ size f
Wrote size buf f (ready (ok n), f') = (n ≤ length buf) × (size f' ≡ size f + n)
Wrote size buf f (ready (err e), f') = size f' ≡ size f

-- What is relied on of files that are written at their end: `AtEnd` holds of a file that is newly
-- created or opened to append, a write of n bytes of the buffer makes it longer by n, and a write
-- that waits or fails leaves the length.
pub record WritesAtEnd (fs : FileSystem) : Type 1 where
  pub AtEnd : fs.File → Type 0
  pub size : fs.File → ℕ
  pub created : (path : ℕ) (f : fs.File) → fs.create_file path ≡ ok f → AtEnd f × (size f ≡ 0)
  pub appended : (path : ℕ) (f : fs.File) → open_read_append fs path ≡ ok f → AtEnd f
  pub told : (f : fs.File) (n : ℕ) → fs.metadata_len f ≡ ok n → size f ≡ n
  pub at_end : (f : fs.File) (buf : List ℕ) → AtEnd f → AtEnd (fs.poll_write f buf).1
  pub wrote : (f : fs.File) (buf : List ℕ) → AtEnd f → Wrote size buf f (fs.poll_write f buf)

-- How the counter of a sink moves with the answer of a write.
abbrev pub Counted :
    {fs : FileSystem} → BoundedFileSink fs → Poll (Result ℕ IoError) → BoundedFileSink fs → Type 0
Counted s (ready (ok n)) t = t.current_len ≡ s.current_len + n
Counted s r t = t.current_len ≡ s.current_len

module _ (fs : FileSystem) (laws : WritesAtEnd fs) where
  -- The sink writes at the end of its file, and its counter is the file's length.
  pub record Tracks (s : BoundedFileSink fs) : Type 0 where
    pub writes_at_end : laws.AtEnd s.writer
    pub counts : s.current_len ≡ laws.size s.writer

  of_created-Tracks :
      (path : ℕ) (o : BoundedFileOption) (r : Result fs.File IoError) (s : BoundedFileSink fs)
      → fs.create_file path ≡ r
      → of_created fs path o r ≡ ok s
      → Tracks s
  unfolding of_created
  of_created-Tracks path o (err e) s c h = cc
  of_created-Tracks path o (ok f) s c h =
      let (at, zero_size) = laws.created path f c in
      subst Tracks (ok-injective h) (record { writes_at_end = at; counts = sym zero_size })

  of_metadata-Tracks :
      (path : ℕ) (o : BoundedFileOption) (f : fs.File) (m : Result ℕ IoError)
      (s : BoundedFileSink fs)
      → laws.AtEnd f
      → fs.metadata_len f ≡ m
      → of_metadata fs path o f m ≡ ok s
      → Tracks s
  unfolding of_metadata
  of_metadata-Tracks path o f (err e) s at t h = cc
  of_metadata-Tracks path o f (ok n) s at t h =
      subst Tracks (ok-injective h) (record { writes_at_end = at; counts = sym (laws.told f n t) })

  of_opened-Tracks :
      (path : ℕ) (o : BoundedFileOption) (r : Result fs.File IoError) (s : BoundedFileSink fs)
      → open_read_append fs path ≡ r
      → of_opened fs path o r ≡ ok s
      → Tracks s
  unfolding of_opened
  of_opened-Tracks path o (err e) s c h = cc
  of_opened-Tracks path o (ok f) s c h =
      of_metadata-Tracks path o f (fs.metadata_len f) s (laws.appended path f c) refl h

  -- A sink that `create` or `open_append` gives counts the length of its file.
  pub opened-Tracks :
      (path : ℕ) (o : BoundedFileOption) (s : BoundedFileSink fs)
      → (create fs path o ≡ ok s) ⊎ (open_append fs path o ≡ ok s)
      → Tracks s
  unfolding create open_append
  opened-Tracks path o s (inl h) = of_created-Tracks path o (fs.create_file path) s refl h
  opened-Tracks path o s (inr h) = of_opened-Tracks path o (open_read_append fs path) s refl h

  -- One write, where the counter does not overflow: it returns, and the counter follows the file.
  counted-Tracks :
      (build : Build) (s : BoundedFileSink fs) (buf : List ℕ)
      (a : Poll (Result ℕ IoError) × fs.File)
      → Tracks s
      → s.current_len + length buf < u64_mod
      → Wrote laws.size buf s.writer a
      → laws.AtEnd a.1
      → (t : BoundedFileSink fs) × (counted fs build s a ≡ returns (a.0, t))
        × Tracks t
        × Counted s a.0 t
        × (t.current_len ≤ s.current_len + length buf)
        × (t.option ≡ s.option)
  unfolding counted
  counted-Tracks build s buf (pending, f) k b w at =
      (_, refl, record { writes_at_end = at; counts = omega arith }, refl, omega arith, refl)
  counted-Tracks build s buf (ready (ok n), f) k b w at = (
    record s { writer = f; current_len = s.current_len + n },
    rw (add_u64-returns build s.current_len n (omega arith)) refl,
    record { writes_at_end = at; counts = omega arith },
    refl,
    omega arith,
    refl,
  )
  counted-Tracks build s buf (ready (err e), f) k b w at =
      (_, refl, record { writes_at_end = at; counts = omega arith }, refl, omega arith, refl)

  -- On a sink that counts the length of its file, and where the counter cannot overflow, a write
  -- returns what the file answers; the counter goes up by the bytes written, or stays if the write
  -- waits or fails; it is again the length of the file, and the option stays.
  pub poll_write-Tracks :
      (build : Build) (s : BoundedFileSink fs) (buf : List ℕ)
      → Tracks s
      → s.current_len + length buf < u64_mod
      → (t : BoundedFileSink fs) × (poll_write fs build s buf
          ≡ returns ((fs.poll_write s.writer buf).0, t))
        × Tracks t
        × Counted s (fs.poll_write s.writer buf).0 t
        × (t.current_len ≤ s.current_len + length buf)
        × (t.option ≡ s.option)
  unfolding poll_write
  poll_write-Tracks build s buf k b =
      counted-Tracks build s buf (fs.poll_write s.writer buf) k b
        (laws.wrote s.writer buf k.writes_at_end) (laws.at_end s.writer buf k.writes_at_end)

-- A client that polls one buffer after the other, whatever the answers.
pub poll_all :
    (fs : FileSystem) → Build → BoundedFileSink fs → List (List ℕ) → Outcome (BoundedFileSink fs)
poll_all fs build s [] = returns s
poll_all fs build s (buf ∷ bufs) = poll_write fs build s buf >>= λ r. poll_all fs build r.1 bufs

abbrev pub total_length : List (List ℕ) → ℕ
total_length [] = 0
total_length (buf ∷ bufs) = length buf + total_length bufs

-- Any number of writes to a sink that counts the length of its file, of buffers whose lengths
-- together cannot overflow the counter, returns, in both builds, a sink that does so.
pub poll_all-Tracks :
    (fs : FileSystem) (laws : WritesAtEnd fs) (build : Build) (bufs : List (List ℕ))
    (s : BoundedFileSink fs)
    → Tracks fs laws s
    → s.current_len + total_length bufs < u64_mod
    → (t : BoundedFileSink fs) × (poll_all fs build s bufs ≡ returns t) × Tracks fs laws t
unfolding poll_all
poll_all-Tracks fs laws build [] s k b = (s, refl, k)
poll_all-Tracks fs laws build (buf ∷ bufs) s k b =
    let (t, run, kt, _, le, _) = poll_write-Tracks fs laws build s buf k (omega arith) in
    let (u, rest, ku) = poll_all-Tracks fs laws build bufs t kt (omega arith) in
    (u, ap (λ m. m >>= λ r. poll_all fs build r.1 bufs) run ∙ rest, ku)
