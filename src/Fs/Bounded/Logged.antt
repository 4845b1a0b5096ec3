-- ===== src/Fs/Bounded/Logged.antt =====
-- `BoundedFileSink` of src/fs/bounded.rs as a log: what a client may rely on, whatever the order of
-- its calls.
pub mod Opened
pub mod Refines
use future_aio.Base.{
  ℕ, ◌+◌, ◌≤◌, ◌<◌, ◌≡◌, refl, sym, ap, ◌∙◌, subst, ◌⊎◌, inl, inr, ok-injective, add_u64-returns,
  Bool, true, leb, Option, none, some, List, [], ◌∷◌, ◌++◌, append-nil, length, length-append,
  length-take, take, Result, ok, err, Poll, pending, ready, IoError, Outcome, returns, ◌>>=◌, Build,
  u64_mod, arith,
}
use future_aio.Fs.Util.{FileSystem, open_read_append}
use future_aio.Fs.Bounded.{
  BoundedFileOption, BoundedFileSink, create, open_append, poll_write, poll_flush, poll_close,
  can_be_appended, get_current_len, counted, fits, of_created, of_metadata, of_opened,
}

-- What a write of `buf` to the end of a file does to what it holds.
abbrev pub Appended :
    {F : Type 0} → (F → List ℕ) → List ℕ → F → Poll (Result ℕ IoError) × F → Type 0
Appended content buf f (pending, f') = content f' ≡ content f
Appended content buf f (ready (ok n), f') =
    (n ≤ length buf) × (content f' ≡ content f ++ take n buf)
Appended content buf f (ready (err e), f') = content f' ≡ content f

-- What is relied on of files that are written at their end: `AtEnd` holds of a file that is newly
-- created or opened to append, a write of n bytes puts the first n bytes of the buffer behind what
-- the file holds, be it on the disk or not yet, and a write that waits or fails, a flush and a close
-- leave what it holds. The length that the system tells is that of a file that is newly opened.
pub record Appends (fs : FileSystem) : Type 1 where
  pub AtEnd : fs.File → Type 0
  pub content : fs.File → List ℕ
  pub created : (path : ℕ) (f : fs.File) → fs.create_file path ≡ ok f → AtEnd f × (content f ≡ [])
  pub appended : (path : ℕ) (f : fs.File) → open_read_append fs path ≡ ok f → AtEnd f
  pub told :
      (path : ℕ) (f : fs.File) (n : ℕ)
      → open_read_append fs path ≡ ok f
      → fs.metadata_len f ≡ ok n
      → length (content f) ≡ n
  pub at_end : (f : fs.File) (buf : List ℕ) → AtEnd f → AtEnd (fs.poll_write f buf).1
  pub wrote : (f : fs.File) (buf : List ℕ) → AtEnd f → Appended content buf f (fs.poll_write f buf)
  pub flushed :
      (f : fs.File)
      → AtEnd f
      → AtEnd (fs.poll_flush f).1 × (content (fs.poll_flush f).1 ≡ content f)
  pub closed :
      (f : fs.File)
      → AtEnd f
      → AtEnd (fs.poll_close f).1 × (content (fs.poll_close f).1 ≡ content f)

-- The specification: bytes that are only added to, and a maximum.
pub record Log : Type 0 where
  pub content : List ℕ
  pub capacity : Option ℕ

pub data Request : Type 0 where
  write : List ℕ → Request
  ask : ℕ → Request
  tell flush close : Request

pub data Reply : Type 0 where
  wrote : Poll (Result ℕ IoError) → Reply
  answer : Bool → Reply
  length_is : ℕ → Reply
  done : Poll (Result (Unit {0}) IoError) → Reply

-- Whether a log may have `len` bytes.
abbrev pub room : Option ℕ → ℕ → Bool
room none len = true
room (some max) len = leb len max

-- What the specification allows as the reply to a request, and the log after it.
pub data Step (log : Log) : Request → Reply → Log → Type 0 where
  appends :
      (buf : List ℕ) (n : ℕ)
      → n ≤ length buf
      → Step log
          (write buf)
          (wrote (ready (ok n)))
          (record log { content = log.content ++ take n buf })
  waits : (buf : List ℕ) → Step log (write buf) (wrote pending) log
  fails : (buf : List ℕ) (e : IoError) → Step log (write buf) (wrote (ready (err e))) log
  asks : (n : ℕ) → Step log (ask n) (answer (room log.capacity (length log.content + n))) log
  tells : Step log tell (length_is (length log.content)) log
  flushes : (r : Poll (Result (Unit {0}) IoError)) → Step log flush (done r) log
  closes : (r : Poll (Result (Unit {0}) IoError)) → Step log close (done r) log

pub data Steps : Log → List Request → List Reply → Log → Type 0 where
  stop : {log : Log} → Steps log [] [] log
  step :
      {q : Request} {qs : List Request} {a : Reply} {replies : List Reply} {log mid last : Log}
      → Step log q a mid
      → Steps mid qs replies last
      → Steps log (q ∷ qs) (a ∷ replies) last

-- The requests stay within the 64 bits of the counter, from a log of at most `len` bytes.
abbrev pub Countable : ℕ → List Request → Type 0
Countable len [] = Unit {0}
Countable len (write buf ∷ qs) = (len + length buf < u64_mod) × Countable (len + length buf) qs
Countable len (ask n ∷ qs) = (len + n < u64_mod) × Countable len qs
Countable len (q ∷ qs) = Countable len qs

module _ (fs : FileSystem) (build : Build) where
  -- The sink's operations as one function of the request.
  unfoldable pub serve : BoundedFileSink fs → Request → Outcome (Reply × BoundedFileSink fs)
  serve s (write buf) = do (r, t) ← poll_write fs build s buf; returns (wrote r, t)
  serve s (ask n) = do b ← can_be_appended fs build s n; returns (answer b, s)
  serve s tell = returns (length_is (get_current_len fs s), s)
  serve s flush = let (r, t) = poll_flush fs s in returns (done r, t)
  serve s close = let (r, t) = poll_close fs s in returns (done r, t)

  unfoldable pub serve_all :
      BoundedFileSink fs → List Request → Outcome (List Reply × BoundedFileSink fs)
  serve_all s [] = returns ([], s)
  serve_all s (q ∷ qs) = do (a, t) ← serve s q; (rest, u) ← serve_all t qs; returns (a ∷ rest, u)
