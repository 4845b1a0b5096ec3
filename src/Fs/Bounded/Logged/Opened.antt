-- ===== src/Fs/Bounded/Logged/Opened.antt =====
-- A sink of src/fs/bounded.rs that is opened represents a log.
use future_aio.Base.{
  ℕ, ◌<◌, ◌≡◌, refl, sym, ap, subst, ok-injective, List, [], length, length-append, length-take,
  take, Result, ok, err, IoError, ready, arith,
}
use future_aio.Fs.Util.{FileSystem, open_read_append}
use future_aio.Fs.Bounded.{
  BoundedFileOption, BoundedFileSink, create, open_append, of_created, of_metadata, of_opened,
  mut_inner,
}
use future_aio.Fs.Bounded.Logged.{Appended, Appends, Log}

module _ (fs : FileSystem) (laws : Appends fs) where
  -- The sink writes at the end of a file that holds what the log holds, counts its bytes, and has
  -- the maximum of the log.
  pub record Represents (s : BoundedFileSink fs) (log : Log) : Type 0 where
    pub writes_at_end : laws.AtEnd s.writer
    pub holds : laws.content s.writer ≡ log.content
    pub counts : s.current_len ≡ length log.content
    pub limited : s.option.max_len ≡ log.capacity

  -- The log of a file.
  abbrev pub log_of : List ℕ → BoundedFileOption → Log
  log_of content o = record { content = content; capacity = o.max_len }

  of_created-Represents :
      (path : ℕ) (o : BoundedFileOption) (r : Result fs.File IoError) (s : BoundedFileSink fs)
      → fs.create_file path ≡ r
      → of_created fs path o r ≡ ok s
      → Represents s (log_of [] o)
  unfolding of_created
  of_created-Represents path o (err e) s c h = cc
  of_created-Represents path o (ok f) s c h =
      let (at, empty) = laws.created path f c in
      subst (λ t. Represents t (log_of [] o)) (ok-injective h)
        (record { writes_at_end = at; holds = empty; counts = refl; limited = refl })

  of_metadata-Represents :
      (path : ℕ) (o : BoundedFileOption) (f : fs.File) (m : Result ℕ IoError)
      (s : BoundedFileSink fs)
      → open_read_append fs path ≡ ok f
      → fs.metadata_len f ≡ m
      → of_metadata fs path o f m ≡ ok s
      → Represents s (log_of (laws.content s.writer) o)
  unfolding of_metadata
  of_metadata-Represents path o f (err e) s c t h = cc
  of_metadata-Represents path o f (ok n) s c t h =
      subst (λ t. Represents t (log_of (laws.content t.writer) o)) (ok-injective h)
        (record {
          writes_at_end = laws.appended path f c;
          holds = refl;
          counts = sym (laws.told path f n c t);
          limited = refl;
        })

  of_opened-Represents :
      (path : ℕ) (o : BoundedFileOption) (r : Result fs.File IoError) (s : BoundedFileSink fs)
      → open_read_append fs path ≡ r
      → of_opened fs path o r ≡ ok s
      → Represents s (log_of (laws.content s.writer) o)
  unfolding of_opened
  of_opened-Represents path o (err e) s c h = cc
  of_opened-Represents path o (ok f) s c h =
      of_metadata-Represents path o f (fs.metadata_len f) s c refl h

  -- A sink that `create` gives is the empty log, one that `open_append` gives the log of what its
  -- file holds, both with the maximum of the option.
  pub opened-Represents :
      (path : ℕ) (o : BoundedFileOption) (s t : BoundedFileSink fs)
      → create fs path o ≡ ok s
      → open_append fs path o ≡ ok t
      → Represents s (log_of [] o) × Represents t (log_of (laws.content t.writer) o)
  unfolding create open_append
  opened-Represents path o s t h k = (
    of_created-Represents path o (fs.create_file path) s refl h,
    of_opened-Represents path o (open_read_append fs path) t refl k,
  )

  -- What is written through `mut_inner` is not counted: the sink represents no log any more.
  mut_inner-not_Represents :
      (s : BoundedFileSink fs) (log log' : Log) (buf : List ℕ) (n : ℕ) (f : fs.File)
      → Represents s log
      → fs.poll_write (mut_inner fs s).0 buf ≡ (ready (ok n), f)
      → 0 < n
      → ¬ Represents ((mut_inner fs s).1 f) log'
  unfolding mut_inner
  mut_inner-not_Represents s log log' buf n f v e some_written v' =
      let (few, grown) =
        subst (Appended laws.content buf s.writer) e (laws.wrote s.writer buf v.writes_at_end) in
      omega (
        arith,
        v.counts,
        v'.counts,
        ap length v.holds,
        ap length v'.holds,
        ap length grown,
        length-append (laws.content s.writer) (take n buf),
        length-take n buf,
      )
