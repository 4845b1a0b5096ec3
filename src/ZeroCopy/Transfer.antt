-- ===== src/ZeroCopy/Transfer.antt =====
-- What `copy_slice` transfers.
use native.Mathlib.Decide.{dec_lt}
use future_aio.Base.{
  ℕ, zero, suc, ◌+◌, ◌-◌, ◌^◌, ◌≤◌, ◌<◌, ◌≡◌, refl, ap, ◌∙◌, subst, ◌⊎◌, inl, inr, length, Option,
  some, Result, ok, err, Outcome, returns, Build, add_u64-returns, sub_u64-returns, arith,
  Bool-cases, ltb, ◌==◌, ltb→lt, ltb→ge,
}
use future_aio.FileSlice.{AsyncFileSlice}
use future_aio.ZeroCopy.{
  Errno, eagain, other, SendFileError, ZeroCopy, System, Round, leave, again, tallied, answered,
  asked, round, turn, copy_loop, copy_slice,
}
use future_aio.ZeroCopy.Progress.{
  Progress, Sent, RoundGoesWell, start-Progress, sent_more, finished,
}
use future_aio.ZeroCopy.Sendfile.{Answer, SendsFile}

module _ {W : Type 0} (system : System W) (build : Build) (target source position size : ℕ)
    (laws : SendsFile system target source) (fits : position + size < 2 ^ 63) (start : W) where
  abbrev pub Transferred : Outcome (Result ℕ SendFileError) → W → Type 0
  Transferred r w = Sent laws.content laws.arrived laws.stalls position size start r w

  abbrev Reached : ℕ → ℕ → W → Type 0
  Reached total offset w =
      Progress laws.content laws.arrived laws.stalls position size start total offset w

  abbrev GoesWell : ℕ → W → Round × W → Type 0
  GoesWell total w next =
      RoundGoesWell laws.content laws.arrived laws.stalls position size start total w next

  -- No byte was sent: all are, or the file is at its end.
  at_end :
      (total offset n : ℕ) {w : W}
      → Reached total offset w
      → n ≡ 0
      → (0 < size - total → n ≡ 0 → length (laws.content start) ≤ offset)
      → (total + n ≡ size) ⊎ (total + n ≡ length (laws.content start) - position)
  at_end total offset n p z end = elim (dec_lt 0 (size - total)) [
    | yes more ↦ let past = end more z in inr (omega (arith, p.offset_is, p.available))
    | no all ↦ inl (omega (arith, p.not_more))
  ]

  tallied-GoesWell :
      (total offset n o : ℕ) (w w' : W)
      → Reached total offset w
      → Answer laws.content laws.arrived laws.stalls offset (size - total) w (ok n, o, w')
      → GoesWell total w (tallied size n o (returns (total + n)), w')
  unfolding tallied
  tallied-GoesWell total offset n o w w' p (at, few, held, end, same, got, calm) =
      let held' : n ≤ length (laws.content start) - offset =
        subst (λ c. n ≤ length c - offset) p.unchanged held in
      let end' : 0 < size - total → n ≡ 0 → length (laws.content start) ≤ offset =
        subst (λ c. 0 < size - total → n ≡ 0 → length c ≤ offset) p.unchanged end in
      let sent' =
        sent_more laws.content laws.arrived laws.stalls position size start total offset n w w' p
          got in
      let finish = finished laws.content laws.arrived laws.stalls position size start in
      let few' : total + n ≤ size = omega (arith, p.not_more) in
      let held'' : total + n ≤ length (laws.content start) - position =
        omega (arith, p.available, p.offset_is) in
      elim (Bool-cases (n == 0)) [
        | inl z ↦
            let none_sent : n ≡ 0 = ground arith in
            rw z (finish (total + n) w' few' held'' (at_end total offset n p none_sent end') sent')
        | inr nz ↦
            let some_sent : 0 < n = ground arith in
            elim (Bool-cases (ltb (total + n) size)) [
              | inl more ↦
                  let less = ltb→lt (total + n) size more in
                  rw (nz, more)
                    (
                      record {
                        offset_is = omega (arith, p.offset_is);
                        not_more = few';
                        available = held'';
                        unchanged = same ∙ p.unchanged;
                        sent = sent';
                      },
                      omega arith,
                    )
              | inr all ↦
                  rw (nz, all)
                    (finish (total + n) w' few' held''
                      (inl (omega (arith, ltb→ge (total + n) size all))) sent')
            ]
      ]

  answered-GoesWell :
      (total offset : ℕ) (w : W) (a : Result ℕ Errno × ℕ × W)
      → Reached total offset w
      → Answer laws.content laws.arrived laws.stalls offset (size - total) w a
      → GoesWell total w (answered system build size total a)
  unfolding answered
  answered-GoesWell total offset w (ok n, o, w') p a =
      rw (add_u64-returns build total n (omega (arith, p.not_more, a.1)))
        (tallied-GoesWell total offset n o w w' p a)
  answered-GoesWell total offset w (err eagain, o, w') p (at, same, got, fewer) =
      let (n_same, n_got, n_calm) = laws.naps w' in
      (
        record {
          offset_is = at ∙ p.offset_is;
          not_more = p.not_more;
          available = p.available;
          unchanged = n_same ∙ same ∙ p.unchanged;
          sent = n_got ∙ got ∙ p.sent;
        },
        omega arith,
      )
  answered-GoesWell total offset w (err (other code), o, w') p (same, got) =
      (total, omega (arith, p.not_more, p.available), got ∙ p.sent)

  round-GoesWell :
      (total offset : ℕ) (w : W)
      → Reached total offset w
      → GoesWell total w (round system build size target source total offset w)
  unfolding round asked
  round-GoesWell total offset w p = rw (sub_u64-returns build size total p.not_more) (
      answered-GoesWell total offset w _ p
        (laws.answers offset (size - total) w (omega (arith, p.offset_is, p.not_more))))

  abbrev Completes : Option (Outcome (Result ℕ SendFileError) × W) → Type 0
  Completes run =
      (r : Outcome (Result ℕ SendFileError)) × (w : W) × (run ≡ some (r, w)) × Transferred r w

  abbrev run_loop : ℕ → ℕ → ℕ → W → Option (Outcome (Result ℕ SendFileError) × W)
  run_loop fuel total offset w = copy_loop system build size fuel target source total offset w

  abbrev WithFuel : ℕ → Type 0
  WithFuel fuel =
      (total offset : ℕ) (w : W)
      → Reached total offset w
      → size - total + laws.stalls w < fuel
      → Completes (run_loop fuel total offset w)

  after_round :
      (fuel total offset : ℕ) (w : W) (next : Round × W)
      → WithFuel fuel
      → size - total + laws.stalls w < suc fuel
      → round system build size target source total offset w ≡ next
      → GoesWell total w next
      → Completes (run_loop (suc fuel) total offset w)
  unfolding copy_loop
  after_round fuel total offset w (leave r, w') ih f e g =
      (r, w', ap (turn system build size (run_loop fuel)) e, g)
  after_round fuel total offset w (again t o, w') ih f e (p, nearer) =
      let (r, w'', run, done) = ih t o w' p (omega arith) in
      (r, w'', ap (turn system build size (run_loop fuel)) e ∙ run, done)

  copy_loop-Completes : (fuel : ℕ) → WithFuel fuel
  copy_loop-Completes zero total offset w p f = absurd (omega arith)
  copy_loop-Completes (suc fuel) total offset w p f =
      after_round fuel total offset w _ (copy_loop-Completes fuel) f refl
        (round-GoesWell total offset w p)

-- On Linux, for a slice whose end an `off_t` can hold, and fuel beyond its length and the EAGAIN
-- answers to come, `copy_slice` returns and does not panic. If it succeeds, it has sent as much of
-- the slice as the file holds, in order, and answers how many bytes that is; if it fails, what it
-- has sent is the beginning of the slice.
pub copy_slice-Transferred :
    {W : Type 0} (system : System W) (build : Build) (fuel : ℕ) (z : ZeroCopy)
    (slice : AsyncFileSlice) (w : W) (laws : SendsFile system z.raw_fd slice.fd)
    (fits : slice.position + slice.len < 2 ^ 63)
    → slice.len + laws.stalls w < fuel
    → (r : Outcome (Result ℕ SendFileError)) × (w' : W) × (copy_slice system build fuel z slice w
        ≡ some (r, w'))
      × Transferred system build z.raw_fd slice.fd slice.position slice.len laws fits w r w'
unfolding copy_slice
copy_slice-Transferred system build fuel z slice w laws fits f =
    copy_loop-Completes system build z.raw_fd slice.fd slice.position slice.len laws fits w fuel 0 _
      w (start-Progress laws.content laws.arrived laws.stalls slice.position slice.len w)
      (omega arith)
