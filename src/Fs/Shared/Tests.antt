-- ===== src/Fs/Shared/Tests.antt =====
-- Shared files at examples: a file is what it holds and its position, and reads one byte at a time.
use future_aio.Base.{
  ℕ, zero, suc, ◌+◌, ◌==◌, if◌then◌else◌, ◌≡◌, refl, ap, false, List, [], ◌∷◌, ◌++◌, length, take,
  drop, length-take, length-drop, Result, ok, Poll, ready, IoError, Outcome, returns, panics, min,
  arith,
}
use future_aio.Fs.Util.{SeekFrom, start}
use future_aio.Fs.Shared.{
  Files, Heap, Lock, SharedAsyncFile, SharedAsyncFileRead, SharedSeekFuture, new, read, seek,
  poll_read, poll_read_future, poll_seek_future,
}
use future_aio.Fs.Shared.Polls.{ReadsOn, ReadAnswer, poll_each}
use future_aio.Fs.Shared.Reads.{HasRead, poll_each-HasRead}
use future_aio.Fs.Shared.Poisoned.{by_read, panicked_panics}

record Cursor : Type 0 where
  bytes : List ℕ
  at_byte : ℕ
  broken : ℕ

abbrev one_byte : Cursor → List ℕ → List ℕ
one_byte c buf = take (min 1 (length buf)) (drop c.at_byte c.bytes)

abbrev read_byte : ℕ → Cursor → List ℕ → Outcome (Poll (Result ℕ IoError)) × List ℕ × Cursor
read_byte (suc k) c buf = (panics, buf, c)
read_byte zero c buf = (
  returns (ready (ok (length (one_byte c buf)))),
  one_byte c buf ++ drop (length (one_byte c buf)) buf,
  record c { at_byte = c.at_byte + length (one_byte c buf) },
)

abbrev seek_byte : ℕ → Cursor → SeekFrom → Outcome (Poll (Result ℕ IoError)) × Cursor
seek_byte (suc k) c to = (panics, c)
seek_byte zero c (start n) = (returns (ready (ok n)), record c { at_byte = n })
seek_byte zero c to = (returns (ready (ok c.at_byte)), c)

abbrev cursors : Files
cursors = record {
  AsyncFile = Cursor;
  poll_read = λ c buf. read_byte c.broken c buf;
  poll_seek = λ c to. seek_byte c.broken c to;
}

take-part : (n : ℕ) (xs : List ℕ) → take n xs ≡ take (length (take n xs)) xs
take-part zero xs = refl
take-part (suc n) [] = refl
take-part (suc n) (x ∷ xs) = ap (◌∷◌ x) (take-part n xs)

read_byte-ReadAnswer :
    (broken : ℕ) (c : Cursor) (buf : List ℕ)
    → broken ≡ 0
    → c.broken ≡ 0
    → ReadAnswer (λ d. d.broken ≡ 0) (λ d. d.bytes) (λ d. d.at_byte) c buf (read_byte broken c buf)
read_byte-ReadAnswer (suc k) c buf z s = absurd (omega arith)
read_byte-ReadAnswer zero c buf z s =
    let l = length-take (min 1 (length buf)) (drop c.at_byte c.bytes) in
    let d = length-drop c.at_byte c.bytes in
    (
      omega (arith, l),
      omega (arith, l, d),
      ap (λ xs. xs ++ drop (length (one_byte c buf)) buf)
          (take-part (min 1 (length buf)) (drop c.at_byte c.bytes)),
      (s, refl, refl),
    )

abbrev cursor_reads : ReadsOn cursors
cursor_reads = record {
  Sound = λ c. c.broken ≡ 0;
  content = λ c. c.bytes;
  position = λ c. c.at_byte;
  reads = λ c buf s. read_byte-ReadAnswer c.broken c buf s s;
}

abbrev lock_on : ℕ → Lock cursors
lock_on broken = record {
  file = record { bytes = 1 ∷ 2 ∷ 3 ∷ []; at_byte = 0; broken = broken };
  poisoned = false;
}

-- The file at 0 is sound, the one at 1 unwinds.
abbrev heap : Heap cursors
heap = record { next = 2; cell = λ a. if a == 0 then lock_on 0 else lock_on 1 }

abbrev read_at : ℕ → SharedAsyncFileRead cursors
read_at a = record { inner = a; buf = 0 ∷ 0 ∷ [] }

poll_each-HasRead_example :
    let (got, h) = poll_each cursors 0 (read_at 0 ∷ read_at 1 ∷ read_at 0 ∷ []) heap in
    HasRead cursors cursor_reads 0 heap got h
poll_each-HasRead_example =
    poll_each-HasRead cursors cursor_reads 0 (read_at 0 ∷ read_at 1 ∷ read_at 0 ∷ []) heap
      (record { sound = refl; unpoisoned = refl })

abbrev seek_at : ℕ → SharedSeekFuture cursors
seek_at a = record { inner = a; seek = start 0 }

-- The heap after the file at 1 has unwound.
abbrev spoilt : Heap cursors
spoilt = (poll_read_future cursors (read_at 1) heap).2

panicked_panics_example :
    (poll_read cursors (record { inner = 1 }) [] spoilt ≡ (panics, [], spoilt))
    × (poll_read_future cursors (read_at 1) spoilt ≡ (panics, read_at 1, spoilt))
    × (poll_seek_future cursors (seek_at 1) spoilt ≡ (panics, seek_at 1, spoilt))
unfolding poll_read_future
panicked_panics_example =
    panicked_panics cursors {h = heap} (record { inner = 1 }) [] (read_at 1) (seek_at 1)
      (by_read (read_at 1) refl) refl refl refl

-- test_shared_read: a new handle reads, its clone goes back, and reads again.
abbrev fresh : SharedAsyncFile cursors × Heap cursors
fresh = new cursors (lock_on 0).file heap

abbrev after_read : Heap cursors
after_read = (poll_read_future cursors (read cursors fresh.0 (0 ∷ [])) fresh.1).2

abbrev after_seek : Heap cursors
after_seek = (poll_seek_future cursors (seek cursors fresh.0 (start 0)) after_read).2

reads_again : (poll_read cursors fresh.0 (0 ∷ []) after_seek).1 ≡ 1 ∷ []
unfolding new read seek poll_read poll_read_future poll_seek_future
reads_again = refl
