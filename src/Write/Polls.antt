-- ===== src/Write/Polls.antt =====
-- What the polls of `WriteBufAll` write.
use mathlib.Core.List.{append_assoc, append-nil}
use future_aio.Base.{
  ℕ, zero, suc, ◌+◌, ◌≤◌, ◌<◌, ◌≡◌, ◌≢◌, refl, sym, ap, ◌∙◌, subst, List, [], ◌∷◌, ◌++◌, length,
  take, drop, length-drop, length-append, take-append-take, Option, none, some, Result, ok, err,
  Poll, pending, ready, IoError, Outcome, returns, panics, arith, ◌==◌, Bool-cases, inl, inr,
  ge→ltb, take-append-drop,
}
use future_aio.Write.{
  PollWrite, Turn, return, panic, go_on, WriteBufAll, poll, written, turn, then_loop, write_loop,
}

-- What is relied on of a writer: a success takes the n first bytes of the buffer, and otherwise
-- nothing is written.
abbrev pub Takes : {W : Type 0} → (W → List ℕ) → List ℕ → W → Poll (Result ℕ IoError) × W → Type 0
Takes out buf w (ready (ok n), w') = (n ≤ length buf) × (out w' ≡ out w ++ take n buf)
Takes out buf w (ready (err e), w') = out w' ≡ out w
Takes out buf w (pending, w') = out w' ≡ out w

pub record Writer {W : Type 0} (poll_write : PollWrite W) : Type 0 where
  pub out : W → List ℕ
  pub takes : (w : W) (buf : List ℕ) → Takes out buf w (poll_write w buf)

-- What a poll that starts with `buf` has written in the end: all of it if it succeeds, some
-- beginning of it if it waits or fails. It does not panic.
abbrev pub WroteAll : List ℕ → List ℕ → Outcome (Poll (Result (Unit {0}) IoError)) → List ℕ → Type 0
WroteAll before buf panics after = ⊥
WroteAll before buf (returns (ready (ok u))) after = after ≡ before ++ buf
WroteAll before buf (returns (ready (err e))) after =
    (k : ℕ) × (k ≤ length buf) × (after ≡ before ++ take k buf)
WroteAll before buf (returns pending) after =
    (k : ℕ) × (k ≤ length buf) × (after ≡ before ++ take k buf)

module _ {W : Type 0} (poll_write : PollWrite W) (writer : Writer poll_write) where
  abbrev TurnWrote : List ℕ → W → Turn × W → Type 0
  TurnWrote buf w (return r, w') = WroteAll (writer.out w) buf (returns r) (writer.out w')
  TurnWrote buf w (panic, w') = ⊥
  TurnWrote buf w (go_on rest, w') =
      (n : ℕ) × (0 < n)
      × (n ≤ length buf)
      × (rest ≡ drop n buf)
      × (writer.out w' ≡ writer.out w ++ take n buf)

  written-Wrote :
      (buf : List ℕ) (w : W) (a : Poll (Result ℕ IoError) × W)
      → Takes writer.out buf w a
      → TurnWrote buf w (written poll_write buf a.0, a.1)
  unfolding written
  written-Wrote buf w (pending, w') t = (0, omega arith, t ∙ sym (append-nil (writer.out w)))
  written-Wrote buf w (ready (err e), w') t = (0, omega arith, t ∙ sym (append-nil (writer.out w)))
  written-Wrote buf w (ready (ok n), w') (b, t) =
      rw (ge→ltb (length buf) n b) (elim (Bool-cases (n == 0)) [
        | inl z ↦ rw z (n, b, t)
        | inr nz ↦ rw nz (n, ground arith, b, refl, t)
      ])

  turn-Wrote : (buf : List ℕ) (w : W) → TurnWrote buf w (turn poll_write buf w)
  unfolding turn
  turn-Wrote [] w = sym (append-nil (writer.out w))
  turn-Wrote (b ∷ bs) w = written-Wrote (b ∷ bs) w (poll_write w (b ∷ bs)) (writer.takes w (b ∷ bs))

  joined :
      (before mid after buf : List ℕ) (n k : ℕ)
      → mid ≡ before ++ take n buf
      → after ≡ mid ++ take k (drop n buf)
      → after ≡ before ++ take (n + k) buf
  joined before mid after buf n k m h =
      h
      ∙ ap (λ b. b ++ take k (drop n buf)) m
      ∙ append_assoc before (take n buf) (take k (drop n buf))
      ∙ ap (λ b. before ++ b) (take-append-take n k buf)

  -- What is left of the buffer is written after what the turn wrote.
  WroteAll-drop :
      (before mid after buf : List ℕ) (n : ℕ) (r : Outcome (Poll (Result (Unit {0}) IoError)))
      → n ≤ length buf
      → mid ≡ before ++ take n buf
      → WroteAll mid (drop n buf) r after
      → WroteAll before buf r after
  WroteAll-drop before mid after buf n panics b m h = h
  WroteAll-drop before mid after buf n (returns (ready (ok u))) b m h =
      h
      ∙ ap (λ c. c ++ drop n buf) m
      ∙ append_assoc before (take n buf) (drop n buf)
      ∙ ap (λ c. before ++ c) (take-append-drop n buf)
  WroteAll-drop before mid after buf n (returns (ready (err e))) b m (k, c, h) =
      (n + k, omega (arith, length-drop n buf), joined before mid after buf n k m h)
  WroteAll-drop before mid after buf n (returns pending) b m (k, c, h) =
      (n + k, omega (arith, length-drop n buf), joined before mid after buf n k m h)

  abbrev run_loop : ℕ → List ℕ → W → Option (Outcome (Poll (Result (Unit {0}) IoError)) × W)
  run_loop fuel buf w = write_loop poll_write fuel buf w

  abbrev LoopWrote : List ℕ → W → Option (Outcome (Poll (Result (Unit {0}) IoError)) × W) → Type 0
  LoopWrote buf w run =
      (r : Outcome (Poll (Result (Unit {0}) IoError))) × (w' : W) × (run ≡ some (r, w'))
      × WroteAll (writer.out w) buf r (writer.out w')

  after_turn :
      (fuel : ℕ) (buf : List ℕ) (w : W) (t : Turn × W)
      → ((rest : List ℕ) (v : W) → length rest < fuel → LoopWrote rest v (run_loop fuel rest v))
      → length buf < suc fuel
      → TurnWrote buf w t
      → LoopWrote buf w (then_loop poll_write (run_loop fuel) t)
  unfolding then_loop
  after_turn fuel buf w (return r, w') ih f g = (returns r, w', refl, g)
  after_turn fuel buf w (panic, w') ih f g = absurd g
  after_turn fuel buf w (go_on rest, w') ih f (n, pos, b, e, o) =
      let (r, v, run, done) = ih rest w' (omega (arith, ap length e, length-drop n buf)) in
      (
        r,
        v,
        run,
        WroteAll-drop (writer.out w) (writer.out w') (writer.out v) buf n r b o
            (subst (λ xs. WroteAll (writer.out w') xs r (writer.out v)) e done),
      )

  write_loop-Wrote :
      (fuel : ℕ) (buf : List ℕ) (w : W) → length buf < fuel → LoopWrote buf w (run_loop fuel buf w)
  unfolding write_loop
  write_loop-Wrote zero buf w f = absurd (omega arith)
  write_loop-Wrote (suc fuel) buf w f =
      after_turn fuel buf w (turn poll_write buf w) (λ rest v. write_loop-Wrote fuel rest v) f
        (turn-Wrote buf w)

  -- A poll returns and does not panic, and the future keeps its buffer. It has written the whole
  -- buffer if it succeeds, and a beginning of the buffer if it waits or fails.
  pub poll-WroteAll :
      (self : WriteBufAll W)
      → (r : Outcome (Poll (Result (Unit {0}) IoError))) × (self' : WriteBufAll W) × (poll
            poll_write self
          ≡ some (r, self'))
        × (self'.buf ≡ self.buf)
        × WroteAll (writer.out self.writer) self.buf r (writer.out self'.writer)
  unfolding poll
  poll-WroteAll self =
      let (r, w, run, wrote) =
        write_loop-Wrote (suc (length self.buf)) self.buf self.writer (omega arith) in
      (r, record self { writer = w }, rw (run, poll) refl, refl, wrote)

  abbrev Gives :
      WriteBufAll W → Option (Outcome (Poll (Result (Unit {0}) IoError)) × WriteBufAll W) → Type 0
  Gives self none = ⊥
  Gives self (some (r, self')) =
      (self'.buf ≡ self.buf)
      × WroteAll (writer.out self.writer) self.buf r (writer.out self'.writer)

  poll-Gives :
      (self : WriteBufAll W)
      {run : Option (Outcome (Poll (Result (Unit {0}) IoError)) × WriteBufAll W)}
      → poll poll_write self ≡ run
      → Gives self run
  poll-Gives self e =
      let (r, s, run, keeps, wrote) = poll-WroteAll self in
      subst (Gives self) (sym run ∙ e) (keeps, wrote)

  eq_of_same_length : (before part buf : List ℕ) → before ++ part ++ buf ≡ before ++ buf → part ≡ []
  eq_of_same_length before [] buf e = refl
  eq_of_same_length before (b ∷ bs) buf e = absurd (
      omega (
        arith,
        ap length e,
        length-append (before ++ b ∷ bs) buf,
        length-append before (b ∷ bs),
        length-append before buf,
      ))

  -- A poll that waits after it has written something, followed by one that succeeds, writes that
  -- part twice: what comes out in the end is the part and then the whole buffer, so it is not the
  -- buffer alone.
  pub poll_again_repeats :
      (self mid last : WriteBufAll W) (u : Unit {0})
      → poll poll_write self ≡ some (returns pending, mid)
      → poll poll_write mid ≡ some (returns (ready (ok u)), last)
      → writer.out mid.writer ≢ writer.out self.writer
      → (writer.out last.writer ≡ writer.out mid.writer ++ self.buf)
        × (writer.out last.writer ≢ writer.out self.writer ++ self.buf)
  poll_again_repeats self mid last u first second some_written =
      let (keeps, (k, few, part)) = poll-Gives self first in
      let (keeps', whole) = poll-Gives mid second in
      let out_is : writer.out last.writer ≡ writer.out mid.writer ++ self.buf =
        whole ∙ ap (λ b. writer.out mid.writer ++ b) keeps in
      (
        out_is,
        λ once. some_written (
            part
            ∙ ap (λ b. writer.out self.writer ++ b)
                (eq_of_same_length (writer.out self.writer) (take k self.buf) self.buf
                  (ap (λ b. b ++ self.buf) (sym part) ∙ sym out_is ∙ once))
            ∙ append-nil (writer.out self.writer)),
      )
