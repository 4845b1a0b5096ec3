-- ===== src/ZeroCopy/Serve/Logged.antt =====
-- What a sink of src/fs/bounded.rs has acknowledged, sent to a socket by `copy_slice` of
-- src/zero_copy.rs on Linux, through a slice that the sink gives.
use future_aio.Base.{
  ℕ, ◌+◌, ◌^◌, ◌≤◌, ◌<◌, ◌≡◌, refl, sym, ap, ◌∙◌, subst, List, [], ◌∷◌, ◌++◌, append-nil,
  append_assoc, length, length-append, length-take, take, take_beyond, Result, ok, err, ready, some,
  Outcome, returns, panics, Build, arith,
}
use future_aio.FileSlice.{AsyncFileSlice}
use future_aio.FileSlice
use future_aio.Fs.Util.{FileSystem}
use future_aio.Fs.Bounded.{BoundedFileSink, poll_flush, get_current_len, slice_from}
use future_aio.Fs.Bounded.Logged.{
  Appends, Log, Request, write, Reply, wrote, Step, appends, waits, fails, asks, tells, flushes,
  closes, Steps, stop, step, Countable, serve_all,
}
use future_aio.Fs.Bounded.Logged.Opened.{Represents}
use future_aio.Fs.Bounded.Logged.Refines.{serve_all_refines}
use future_aio.ZeroCopy.{SendFileError, ZeroCopy, System, copy_slice}
use future_aio.ZeroCopy.Sendfile.{SendsFile}
use future_aio.ZeroCopy.Transfer.{Transferred, copy_slice-Transferred}

-- The bytes that a reply acknowledges.
unfoldable pub acked : Request → Reply → List ℕ
acked (write buf) (wrote (ready (ok n))) = take n buf
acked q a = []

unfoldable pub acked_all : List Request → List Reply → List ℕ
acked_all (q ∷ qs) (a ∷ replies) = acked q a ++ acked_all qs replies
acked_all qs replies = []

-- How many bytes the requests offer.
unfoldable pub offered : List Request → ℕ
offered [] = 0
offered (write buf ∷ qs) = length buf + offered qs
offered (q ∷ qs) = offered qs

Step-acked :
    {log log' : Log} {q : Request} {a : Reply}
    → Step log q a log'
    → log'.content ≡ log.content ++ acked q a
unfolding acked
Step-acked (appends buf n few) = refl
Step-acked {log} (waits buf) = sym (append-nil log.content)
Step-acked {log} (fails buf e) = sym (append-nil log.content)
Step-acked {log} (asks n) = sym (append-nil log.content)
Step-acked {log} tells = sym (append-nil log.content)
Step-acked {log} (flushes r) = sym (append-nil log.content)
Step-acked {log} (closes r) = sym (append-nil log.content)

-- The log holds what it held, and behind it what was acknowledged.
pub Steps-acked_all :
    {log log' : Log} {qs : List Request} {replies : List Reply}
    → Steps log qs replies log'
    → log'.content ≡ log.content ++ acked_all qs replies
unfolding acked_all
Steps-acked_all {log} stop = sym (append-nil log.content)
Steps-acked_all {log} (step {q} {qs} {a} {replies} st rest) =
    Steps-acked_all rest
    ∙ ap (λ c. c ++ acked_all qs replies) (Step-acked st)
    ∙ append_assoc log.content (acked q a) (acked_all qs replies)

length-acked :
    {log log' : Log} {q : Request} {a : Reply} (qs : List Request)
    → Step log q a log'
    → length (acked q a) + offered qs ≤ offered (q ∷ qs)
unfolding acked offered
length-acked qs (appends buf n few) = omega (arith, length-take n buf)
length-acked qs (waits buf) = omega arith
length-acked qs (fails buf e) = omega arith
length-acked qs (asks n) = omega arith
length-acked qs tells = omega arith
length-acked qs (flushes r) = omega arith
length-acked qs (closes r) = omega arith

length-acked_all :
    {log log' : Log} {qs : List Request} {replies : List Reply}
    → Steps log qs replies log'
    → length (acked_all qs replies) ≤ offered qs
unfolding acked_all
length-acked_all stop = omega arith
length-acked_all (step {q} {qs} {a} {replies} st rest) = omega (
  arith,
  length-append (acked q a) (acked_all qs replies),
  length-acked qs st,
  length-acked_all rest,
)

-- A success has sent all the bytes, and tells their number; a failure has sent a beginning of them.
abbrev pub Delivered : List ℕ → List ℕ → List ℕ → Outcome (Result ℕ SendFileError) → Type 0
Delivered bytes before after panics = ⊥
Delivered bytes before after (returns (ok total)) =
    (total ≡ length bytes) × (after ≡ before ++ bytes)
Delivered bytes before after (returns (err e)) =
    (total : ℕ) × (total ≤ length bytes) × (after ≡ before ++ take total bytes)

Transferred-Delivered :
    {W : Type 0} (system : System W) (build : Build) (target source : ℕ)
    (laws : SendsFile system target source) (bytes : List ℕ) (fits : 0 + length bytes < 2 ^ 63)
    (w w' : W) (r : Outcome (Result ℕ SendFileError))
    → laws.content w ≡ bytes
    → Transferred system build target source 0 (length bytes) laws fits w r w'
    → Delivered bytes (laws.arrived w) (laws.arrived w') r
Transferred-Delivered system build target source laws bytes fits w w' panics e t = t
Transferred-Delivered system build target source laws bytes fits w w' (returns (ok total)) e
      (n, a) =
    (
      omega (arith, ap length e),
      a
          ∙ ap (λ xs. laws.arrived w ++ xs)
              (ap (take (length bytes)) e ∙ take_beyond (length bytes) bytes (omega arith)),
    )
Transferred-Delivered system build target source laws bytes fits w w' (returns (err e')) e
      (total, n, a) =
    (total, omega (arith, ap length e), a ∙ ap (λ xs. laws.arrived w ++ take total xs) e)

module _ (fs : FileSystem) (laws : Appends fs) {W : Type 0} (system : System W) (z : ZeroCopy)
    (sends : (fd : ℕ) → SendsFile system z.raw_fd fd) (world : fs.File → W) where
  -- A sink that represents a log, the whole of it sent.
  sent :
      (build : Build) (fuel : ℕ) (s : BoundedFileSink fs) (log : Log)
      → Represents fs laws s log
      → (sends (fs.raw_fd s.writer)).content (world s.writer) ≡ laws.content s.writer
      → length log.content < 2 ^ 63
      → length log.content + (sends (fs.raw_fd s.writer)).stalls (world s.writer) < fuel
      → (slice : AsyncFileSlice) × (slice_from fs s 0 (get_current_len fs s) ≡ ok slice)
        × ((r : Outcome (Result ℕ SendFileError)) × (w : W) × (copy_slice system build fuel z slice
                (world s.writer)
              ≡ some (r, w))
            × Delivered log.content
                ((sends (fs.raw_fd s.writer)).arrived (world s.writer))
                ((sends (fs.raw_fd s.writer)).arrived w)
                r)
  unfolding slice_from get_current_len FileSlice.new
  sent build fuel s log v same small enough =
      let fd = fs.raw_fd s.writer in
      let slice : AsyncFileSlice = record { fd = fd; position = 0; len = length log.content } in
      let fits : 0 + length log.content < 2 ^ 63 = omega arith in
      let (r, w, run, t) =
        copy_slice-Transferred system build fuel z slice (world s.writer) (sends fd) fits enough in
      (
        slice,
        rw v.counts refl,
        (
          r,
          w,
          run,
          Transferred-Delivered system build z.raw_fd fd (sends fd) log.content fits
              (world s.writer) w r (same ∙ v.holds) t,
        ),
      )

  -- A sink that represents a log has taken any sequence of requests within the 64 bits of its
  -- counter, and then a flush has succeeded; what a file holds is seen by the system once a flush of
  -- it has succeeded. Then the sink gives a slice from 0 to its length, and where an `off_t` can hold
  -- what the log had and the requests offered, and the fuel is beyond that and the EAGAIN answers to
  -- come: `copy_slice` of this slice returns and does not panic. If it succeeds, then exactly the
  -- bytes of the log and behind them those that the replies acknowledged, in order, have arrived; if
  -- it fails, a beginning of these.
  pub acked-Delivered :
      (build : Build) (fuel : ℕ) (qs : List Request) (replies : List Reply)
      (s t u : BoundedFileSink fs) (log : Log)
      → Represents fs laws s log
      → Countable (length log.content) qs
      → serve_all fs build s qs ≡ returns (replies, t)
      → poll_flush fs t ≡ (ready (ok tt), u)
      → ((f f' : fs.File)
          → laws.AtEnd f
          → fs.poll_flush f ≡ (ready (ok tt), f')
          → (sends (fs.raw_fd f')).content (world f') ≡ laws.content f')
      → length log.content + offered qs < 2 ^ 63
      → length log.content + offered qs + (sends (fs.raw_fd u.writer)).stalls (world u.writer)
        < fuel
      → (slice : AsyncFileSlice) × (slice_from fs u 0 (get_current_len fs u) ≡ ok slice)
        × ((r : Outcome (Result ℕ SendFileError)) × (w : W) × (copy_slice system build fuel z slice
                (world u.writer)
              ≡ some (r, w))
            × Delivered
                (log.content ++ acked_all qs replies)
                ((sends (fs.raw_fd u.writer)).arrived (world u.writer))
                ((sends (fs.raw_fd u.writer)).arrived w)
                r)
  unfolding poll_flush
  acked-Delivered build fuel qs replies s t u log v counted ran flush_ok synced small enough =
      let (replies', t', last, run, steps, vt') =
        serve_all_refines fs laws build qs s log v counted in
      let same : (t' ≡ t) × (replies' ≡ replies) = (cc, cc) in
      let steps' = subst (λ rs. Steps log qs rs last) same.1 steps in
      let vt = subst (λ x. Represents fs laws x last) same.0 vt' in
      let (at, kept) = laws.flushed t.writer vt.writes_at_end in
      let flushed : Represents fs laws (poll_flush fs t).1 last = record {
        writes_at_end = at;
        holds = kept ∙ vt.holds;
        counts = vt.counts;
        limited = vt.limited;
      } in
      let vu = subst (λ x. Represents fs laws x last) (ap (λ p. p.1) flush_ok) flushed in
      let answer : fs.poll_flush t.writer ≡ (ready (ok tt), u.writer) =
        ap (λ p. (p.0, p.1.writer)) flush_ok in
      let holds = Steps-acked_all steps' in
      let within : length last.content ≤ length log.content + offered qs = omega (
        arith,
        ap length holds,
        length-append log.content (acked_all qs replies),
        length-acked_all steps',
      ) in
      let (slice, given, (r, w, sending, d)) =
        sent build fuel u last vu (synced t.writer u.writer vt.writes_at_end answer) (omega arith)
          (omega arith) in
      (
        slice,
        given,
        (
          r,
          w,
          sending,
          subst
              (λ bytes.
                Delivered bytes ((sends (fs.raw_fd u.writer)).arrived (world u.writer))
                  ((sends (fs.raw_fd u.writer)).arrived w) r)
              holds d,
        ),
      )
