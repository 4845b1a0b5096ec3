-- ===== src/Fs/Bounded/Tests.antt =====
-- The theorems on sinks at examples, over a file system that holds files in memory.
use future_aio.Base.{
  ℕ, ◌+◌, ◌≤◌, ◌≡◌, ◌↔◌, refl, true, false, some, List, [], ◌∷◌, length, take, length-take,
  length-append, Result, ok, ready, IoError, returns, panics, debug, release, arith, inl,
}
use future_aio.FileSlice.{AsyncFileSlice}
use future_aio.Fs.Util.{open_read_append}
use future_aio.Fs.Extension.{as_slice}
use future_aio.Fs.Extension.Slices.{sized}
use future_aio.Fs.Overflow.{unchecked_sums}
use future_aio.Fs.Bounded.{
  BoundedFileOption, BoundedFileSink, create, open_append, can_be_appended, poll_write,
}
use future_aio.Fs.Bounded.Logged.{Log, Request, ask, tell, flush, write, Reply, Steps, serve_all}
use future_aio.Fs.Bounded.Logged.Opened.{Represents, log_of, opened-Represents}
use future_aio.Fs.Bounded.Logged.Refines.{serve_all_refines}
use future_aio.Fs.Bounded.Length.{
  WritesAtEnd, Tracks, opened-Tracks, poll_write-Tracks, poll_all, poll_all-Tracks,
}
use future_aio.Fs.Bounded.Memory.{memory, memory_appends, told_length}
use future_aio.Fs.Bounded.Limit.{
  GuardedWrite, GuardedWrites, here, next, can_be_appended_iff, can_be_appended_overflow,
  guarded_writes_limited,
}

abbrev slice : ℕ → ℕ → AsyncFileSlice
slice position len = record { fd = 3; position = position; len = len }

created_empty :
    (path : ℕ) (f : List ℕ)
    → ◌≡◌ {A = Result (List ℕ) IoError} (ok []) (ok f)
    → Unit {0} × (length f ≡ 0)
created_empty path [] h = (tt, refl)
created_empty path (x ∷ xs) h = cc

abbrev memory_writes : WritesAtEnd memory
memory_writes = record {
  AtEnd = λ f. Unit {0};
  size = λ f. length f;
  created = created_empty;
  appended = λ path f h. tt;
  told = told_length;
  at_end = λ f buf a. tt;
  wrote = λ f buf a. (omega (arith, length-take 2 buf), length-append f (take 2 buf));
}

abbrev sink : List ℕ → BoundedFileSink memory
sink f = record {
  option = record { max_len = some 10 };
  current_len = length f;
  writer = f;
  path = 1;
}

sink-Tracks : (f : List ℕ) → Tracks memory memory_writes (sink f)
sink-Tracks f = record { writes_at_end = tt; counts = refl }

new_sink : Tracks memory memory_writes (sink [])
unfolding create
new_sink = opened-Tracks memory memory_writes 1 (record { max_len = some 10 }) (sink []) (inl refl)

tracked_write :
    (t : BoundedFileSink memory) × (poll_write memory debug (sink (9 ∷ [])) (1 ∷ 2 ∷ 3 ∷ [])
      ≡ returns (ready (ok 2), t))
    × Tracks memory memory_writes t
    × (t.current_len ≡ 1 + 2)
    × (t.current_len ≤ 4)
    × (t.option ≡ record { max_len = some 10 })
tracked_write =
    poll_write-Tracks memory memory_writes debug (sink (9 ∷ [])) (1 ∷ 2 ∷ 3 ∷ [])
      (sink-Tracks (9 ∷ [])) (omega arith)

tracked_writes :
    (t : BoundedFileSink memory) × (poll_all memory release (sink []) ((1 ∷ 2 ∷ []) ∷ (3 ∷ []) ∷ [])
      ≡ returns t)
    × Tracks memory memory_writes t
tracked_writes =
    poll_all-Tracks memory memory_writes release ((1 ∷ 2 ∷ []) ∷ (3 ∷ []) ∷ []) (sink [])
      (sink-Tracks []) (omega arith)

-- test_sink_file_max_reached
max_reached :
    can_be_appended memory debug (sink (1 ∷ 1 ∷ 1 ∷ 1 ∷ 1 ∷ 1 ∷ 1 ∷ 1 ∷ [])) 20 ≡ returns false
unfolding can_be_appended
max_reached = refl

fits_exactly : (can_be_appended memory debug (sink (9 ∷ [])) 9 ≡ returns true) ↔ (10 ≤ 10)
fits_exactly = can_be_appended_iff memory 10 debug (sink (9 ∷ [])) 9 refl (omega arith)

append_overflow :
    (can_be_appended memory release (sink (9 ∷ [])) 18446744073709551615 ≡ returns true)
    × (can_be_appended memory debug (sink (9 ∷ [])) 18446744073709551615 ≡ panics)
append_overflow =
    can_be_appended_overflow memory 10 (sink (9 ∷ [])) 18446744073709551615 refl (omega arith)
      (omega arith) (omega arith) (omega arith)

unchecked_sums_example :
    (as_slice release (sized 3 30) 10 (some 18446744073709551615)
      ≡ returns (ok (slice 10 18446744073709551615)))
    × (as_slice debug (sized 3 30) 10 (some 18446744073709551615) ≡ panics)
    × (can_be_appended memory release (sink (9 ∷ [])) 18446744073709551615 ≡ returns true)
    × (can_be_appended memory debug (sink (9 ∷ [])) 18446744073709551615 ≡ panics)
unchecked_sums_example =
    unchecked_sums memory 10 (sink (9 ∷ [])) 3 30 10 18446744073709551615 (omega arith)
      (omega arith) refl (omega arith) (omega arith) (omega arith) (omega arith) (omega arith)

one_write : GuardedWrites memory debug (sink (9 ∷ [])) (sink (9 ∷ 1 ∷ 2 ∷ []))
unfolding can_be_appended poll_write
one_write = next here (GuardedWrite.write (1 ∷ 2 ∷ []) (ready (ok 2)) (omega arith) refl refl)

guarded_writes_limited_example : (3 ≤ 10) × (3 ≤ 10)
guarded_writes_limited_example =
    guarded_writes_limited memory memory_writes debug 10 (omega arith)
      (record { tracks = sink-Tracks (9 ∷ []); limited = refl; within = omega arith }) one_write

abbrev ten : BoundedFileOption
ten = record { max_len = some 10 }

new_sinks :
    Represents memory memory_appends (sink []) (log_of memory memory_appends [] ten)
    × Represents memory memory_appends (sink (9 ∷ [])) (log_of memory memory_appends (9 ∷ []) ten)
unfolding create open_append open_read_append
new_sinks = opened-Represents memory memory_appends 1 ten (sink []) (sink (9 ∷ [])) refl refl

abbrev nine : Log
nine = record { content = 9 ∷ []; capacity = some 10 }

abbrev requests : List Request
requests = write (1 ∷ 2 ∷ 3 ∷ []) ∷ flush ∷ ask 8 ∷ tell ∷ []

serve_all_refines_example :
    (replies : List Reply) × (t : BoundedFileSink memory) × (log : Log) × (serve_all memory release
        (sink (9 ∷ []))
        requests
      ≡ returns (replies, t))
    × Steps nine requests replies log
    × Represents memory memory_appends t log
serve_all_refines_example =
    serve_all_refines memory memory_appends release requests (sink (9 ∷ [])) nine
      (record { writes_at_end = tt; holds = refl; counts = refl; limited = refl }) (omega arith)
