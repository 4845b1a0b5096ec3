-- ===== src/Fs/Bounded/Logged/Refines.antt =====
-- The sink of src/fs/bounded.rs does what the log allows.
use future_aio.Base.{
  ℕ, ◌+◌, ◌≤◌, ◌<◌, ◌≡◌, refl, ap, ◌∙◌, add_u64-returns, leb, Option, none, some, List, [], ◌∷◌,
  ◌++◌, length, length-append, length-take, take, Result, ok, err, Poll, pending, ready, IoError,
  returns, ◌>>=◌, Build, u64_mod, arith,
}
use future_aio.Fs.Util.{FileSystem}
use future_aio.Fs.Bounded.{
  BoundedFileSink, poll_write, poll_flush, poll_close, can_be_appended, get_current_len, counted,
  fits,
}
use future_aio.Fs.Bounded.Logged.Opened.{Represents}
use future_aio.Fs.Bounded.Logged.{
  Appended, Appends, Log, Request, write, ask, tell, flush, close, Reply, wrote, answer, length_is,
  room, Step, appends, waits, fails, asks, tells, flushes, closes, Steps, stop, step, Countable,
  serve, serve_all,
}

Countable-le : (qs : List Request) (m n : ℕ) → m ≤ n → Countable n qs → Countable m qs
Countable-le [] m n le c = tt
Countable-le (write buf ∷ qs) m n le (now, later) =
    (omega arith, Countable-le qs (m + length buf) (n + length buf) (omega arith) later)
Countable-le (ask k ∷ qs) m n le (now, later) = (omega arith, Countable-le qs m n le later)
Countable-le (tell ∷ qs) m n le c = Countable-le qs m n le c
Countable-le (flush ∷ qs) m n le c = Countable-le qs m n le c
Countable-le (close ∷ qs) m n le c = Countable-le qs m n le c

-- The first request stays within the counter.
abbrev Now : ℕ → Request → Type 0
Now len (write buf) = len + length buf < u64_mod
Now len (ask n) = len + n < u64_mod
Now len q = Unit {0}

-- How far a request can move the length.
abbrev reach : ℕ → Request → ℕ
reach len (write buf) = len + length buf
reach len q = len

first : (len : ℕ) (q : Request) (qs : List Request) → Countable len (q ∷ qs) → Now len q
first len (write buf) qs c = c.0
first len (ask n) qs c = c.0
first len tell qs c = tt
first len flush qs c = tt
first len close qs c = tt

others :
    (len : ℕ) (q : Request) (qs : List Request)
    → Countable len (q ∷ qs)
    → Countable (reach len q) qs
others len (write buf) qs c = c.1
others len (ask n) qs c = c.1
others len tell qs c = c
others len flush qs c = c
others len close qs c = c

fits-room :
    (build : Build) (max : Option ℕ) (len n : ℕ)
    → len + n < u64_mod
    → fits build max len n ≡ returns (room max (len + n))
unfolding fits
fits-room build none len n h = refl
fits-room build (some max) len n h =
    ap (λ m. m >>= λ end. returns (leb end max)) (add_u64-returns build len n h)

module _ (fs : FileSystem) (laws : Appends fs) where
  -- A reply with a sink is one that the log allows, and the sink is the log that it leads to.
  abbrev Served : Build → BoundedFileSink fs → Log → Request → Type 0
  Served build s log q =
      (a : Reply) × (t : BoundedFileSink fs) × (log' : Log) × (serve fs build s q ≡ returns (a, t))
      × Step log q a log'
      × Represents fs laws t log'
      × (length log'.content ≤ reach (length log.content) q)

  counted-Served :
      (build : Build) (s : BoundedFileSink fs) (log : Log) (buf : List ℕ)
      (a : Poll (Result ℕ IoError) × fs.File)
      → Represents fs laws s log
      → length log.content + length buf < u64_mod
      → fs.poll_write s.writer buf ≡ a
      → Appended laws.content buf s.writer a
      → laws.AtEnd a.1
      → Served build s log (write buf)
  unfolding serve poll_write counted
  counted-Served build s log buf (pending, f) v h e w at = (
    wrote pending,
    record s { writer = f },
    log,
    rw e refl,
    waits buf,
    record { writes_at_end = at; holds = w ∙ v.holds; counts = v.counts; limited = v.limited },
    omega arith,
  )
  counted-Served build s log buf (ready (err e'), f) v h e w at = (
    wrote (ready (err e')),
    record s { writer = f },
    log,
    rw e refl,
    fails buf e',
    record { writes_at_end = at; holds = w ∙ v.holds; counts = v.counts; limited = v.limited },
    omega arith,
  )
  counted-Served build s log buf (ready (ok n), f) v h e (few, w) at =
      let more = length-append log.content (take n buf) in
      let taken = length-take n buf in
      (
        wrote (ready (ok n)),
        record s { writer = f; current_len = s.current_len + n },
        record log { content = log.content ++ take n buf },
        rw (e, add_u64-returns build s.current_len n (omega (arith, v.counts))) refl,
        appends buf n few,
        record {
          writes_at_end = at;
          holds = w ∙ ap (λ c. c ++ take n buf) v.holds;
          counts = omega (arith, v.counts, more, taken);
          limited = v.limited;
        },
        omega (arith, more, taken),
      )

  serve-Served :
      (build : Build) (s : BoundedFileSink fs) (log : Log) (q : Request)
      → Represents fs laws s log
      → Now (length log.content) q
      → Served build s log q
  unfolding serve can_be_appended get_current_len poll_flush poll_close
  serve-Served build s log (write buf) v h =
      counted-Served build s log buf (fs.poll_write s.writer buf) v h refl
        (laws.wrote s.writer buf v.writes_at_end) (laws.at_end s.writer buf v.writes_at_end)
  serve-Served build s log (ask n) v h = (
    answer (room log.capacity (length log.content + n)),
    s,
    log,
    rw (v.limited, v.counts, fits-room build log.capacity (length log.content) n h) refl,
    asks n,
    v,
    omega arith,
  )
  serve-Served build s log tell v h =
      (length_is (length log.content), s, log, rw v.counts refl, tells, v, omega arith)
  serve-Served build s log flush v h =
      let (at, same) = laws.flushed s.writer v.writes_at_end in
      (
        _,
        _,
        log,
        refl,
        flushes (fs.poll_flush s.writer).0,
        record {
          writes_at_end = at;
          holds = same ∙ v.holds;
          counts = v.counts;
          limited = v.limited;
        },
        omega arith,
      )
  serve-Served build s log close v h =
      let (at, same) = laws.closed s.writer v.writes_at_end in
      (
        _,
        _,
        log,
        refl,
        closes (fs.poll_close s.writer).0,
        record {
          writes_at_end = at;
          holds = same ∙ v.holds;
          counts = v.counts;
          limited = v.limited;
        },
        omega arith,
      )

  -- A sink that represents a log refines it: any sequence of writes, questions whether bytes fit,
  -- questions for the length, flushes and closes that stays within the 64 bits of the counter
  -- returns, its replies are ones that the log allows in this order, and the sink then represents
  -- the log that they lead to.
  pub serve_all_refines :
      (build : Build) (qs : List Request) (s : BoundedFileSink fs) (log : Log)
      → Represents fs laws s log
      → Countable (length log.content) qs
      → (replies : List Reply) × (t : BoundedFileSink fs) × (log' : Log) × (serve_all fs build s qs
          ≡ returns (replies, t))
        × Steps log qs replies log'
        × Represents fs laws t log'
  unfolding serve_all
  serve_all_refines build [] s log v c = ([], s, log, refl, stop, v)
  serve_all_refines build (q ∷ qs) s log v c =
      let (a, t, mid, now, allowed, vt, le) =
        serve-Served build s log q v (first (length log.content) q qs c) in
      let (replies, u, last, later, steps, vu) = serve_all_refines build qs t mid vt (
        Countable-le qs (length mid.content) (reach (length log.content) q) le
          (others (length log.content) q qs c)) in
      (a ∷ replies, u, last, rw (now, later) refl, step allowed steps, vu)
