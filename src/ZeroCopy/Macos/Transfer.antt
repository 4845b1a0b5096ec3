-- ===== src/ZeroCopy/Macos/Transfer.antt =====
-- What the macOS block of `copy_slice` in src/zero_copy.rs transfers.
use future_aio.Base.{
  ℕ, zero, suc, ◌+◌, ◌-◌, ◌^◌, ◌≤◌, ◌<◌, ◌≡◌, refl, ap, ◌∙◌, subst, inl, inr, length, Option, some,
  Result, ok, err, Outcome, Build, add_u64-returns, sub_u64-returns, arith, Bool-cases, ltb, ◌==◌,
  ltb→lt, ltb→ge, sub_u64,
}
use future_aio.FileSlice.{AsyncFileSlice}
use future_aio.ZeroCopy.{Errno, eagain, other, SendFileError, ZeroCopy, Round, leave, again}
use future_aio.ZeroCopy.Progress.{Progress, Sent, start-Progress, more-Progress, finished}
use future_aio.ZeroCopy.Macos.{
  Macos, as_i64-pos, matched, summed, tallied, asked, turn, copy_loop, copy_slice,
}
use future_aio.ZeroCopy.Macos.Sendfile.{Resulted, MacosAnswer, SendsFileMacos}

module _ {W : Type 0} (system : Macos W) (build : Build) (target source position size : ℕ)
    (laws : SendsFileMacos system target source) (fits : position + size < 2 ^ 63) (start : W) where
  abbrev pub TransferredMacos : Outcome (Result ℕ SendFileError) → W → Type 0
  TransferredMacos r w = Sent laws.content laws.arrived laws.stalls position size start r w

  abbrev Reached : ℕ → ℕ → W → Type 0
  Reached total offset w =
      Progress laws.content laws.arrived laws.stalls position size start total offset w

  -- Either the loop is left with a right result, or something is left to send and the loop has come
  -- nearer to its end.
  abbrev GoesWell : ℕ → W → Round × W → Type 0
  GoesWell total w (leave r, w') = TransferredMacos r w'
  GoesWell total w (again t o, w') =
      Reached t o w' × (t < size) × (size - t + laws.stalls w' < size - total + laws.stalls w)

  -- A successful call, with the sums done.
  success-GoesWell :
      (total offset n : ℕ) (w w' : W)
      → Reached total offset w
      → total < size
      → Reached (total + n) (offset + n) w'
      → (n ≡ 0 → length (laws.content w) ≤ offset)
      → laws.stalls w' ≤ laws.stalls w
      → GoesWell total w (matched system build size (ok tt) n (total + n) (offset + n) w')
  unfolding matched
  success-GoesWell total offset n w w' p less q end calm =
      let finish = finished laws.content laws.arrived laws.stalls position size start in
      let past : n ≡ 0 → length (laws.content start) ≤ offset =
        subst (λ c. n ≡ 0 → length c ≤ offset) p.unchanged end in
      elim (Bool-cases (n == 0)) [
        | inl z ↦
            let none_sent : n ≡ 0 = ground arith in
            let over = past none_sent in
            rw z (
              finish (total + n) w' q.not_more q.available
                (inr (omega (arith, q.available, p.offset_is))) q.sent)
        | inr nz ↦
            let some_sent : 0 < n = ground arith in
            elim (Bool-cases (ltb (total + n) size)) [
              | inl more ↦
                  let left = ltb→lt (total + n) size more in rw (nz, more) (q, left, omega arith)
              | inr all ↦
                  rw (nz, all)
                    (finish (total + n) w' q.not_more q.available
                      (inl (omega (arith, q.not_more, ltb→ge (total + n) size all))) q.sent)
            ]
      ]

  Resulted-GoesWell :
      (total offset n : ℕ) (r : Result (Unit {0}) Errno) (w w' : W)
      → Reached total offset w
      → total < size
      → Reached (total + n) (offset + n) w'
      → Resulted laws.content laws.arrived laws.stalls offset (size - total) w r n w'
      → GoesWell total w (matched system build size r n (total + n) (offset + n) w')
  unfolding matched
  Resulted-GoesWell total offset n (ok u) w w' p less q (end, calm) =
      success-GoesWell total offset n w w' p less q end calm
  Resulted-GoesWell total offset n (err eagain) w w' p less q (part, fewer) =
      let (n_same, n_got, n_calm) = laws.naps w' in
      (
        record {
          offset_is = q.offset_is;
          not_more = q.not_more;
          available = q.available;
          unchanged = n_same ∙ q.unchanged;
          sent = n_got ∙ q.sent;
        },
        omega arith,
        omega arith,
      )
  Resulted-GoesWell total offset n (err (other code)) w w' p less q u =
      (total + n, omega (arith, q.not_more, q.available), q.sent)

  tallied-GoesWell :
      (total offset : ℕ) (w : W) (a : Result (Unit {0}) Errno × ℕ × W)
      → Reached total offset w
      → total < size
      → MacosAnswer laws.content laws.arrived laws.stalls offset (size - total) w a
      → GoesWell total w (tallied system build size total offset a)
  unfolding tallied summed
  tallied-GoesWell total offset w (r, n, w') p less (few, held, same, got, res) =
      let held' : n ≤ length (laws.content start) - offset =
        subst (λ c. n ≤ length c - offset) p.unchanged held in
      let q =
        more-Progress laws.content laws.arrived laws.stalls position size start total offset
          (offset + n) n w w' p refl (omega arith) (omega (arith, p.available, p.offset_is)) same
          got in
      rw
        (
          add_u64-returns build total n (omega arith),
          add_u64-returns build offset n (omega (arith, p.offset_is)),
        )
        (Resulted-GoesWell total offset n r w w' p less q res)

  asked-GoesWell :
      (total offset : ℕ) (w : W)
      → Reached total offset w
      → total < size
      → GoesWell total w
          (asked system build size target source total offset w (sub_u64 build size total))
  unfolding asked
  asked-GoesWell total offset w p less =
      rw
        (
          sub_u64-returns build size total p.not_more,
          as_i64-pos offset (omega (arith, p.offset_is, p.not_more)),
          as_i64-pos (size - total) (omega arith),
        )
        (tallied-GoesWell total offset w _ p less (
          laws.answers offset (size - total) w (omega arith)
            (omega (arith, p.offset_is, p.not_more))))

  abbrev Completes : Option (Outcome (Result ℕ SendFileError) × W) → Type 0
  Completes run =
      (r : Outcome (Result ℕ SendFileError)) × (w : W) × (run ≡ some (r, w)) × TransferredMacos r w

  abbrev run_loop : ℕ → ℕ → ℕ → W → Option (Outcome (Result ℕ SendFileError) × W)
  run_loop fuel total offset w = copy_loop system build size fuel target source total offset w

  abbrev WithFuel : ℕ → Type 0
  WithFuel fuel =
      (total offset : ℕ) (w : W)
      → Reached total offset w
      → total < size
      → size - total + laws.stalls w < fuel
      → Completes (run_loop fuel total offset w)

  after_round :
      (fuel total offset : ℕ) (w : W) (next : Round × W)
      → WithFuel fuel
      → size - total + laws.stalls w < suc fuel
      → asked system build size target source total offset w (sub_u64 build size total) ≡ next
      → GoesWell total w next
      → Completes (run_loop (suc fuel) total offset w)
  unfolding copy_loop
  after_round fuel total offset w (leave r, w') ih f e g =
      (r, w', ap (turn system build size (run_loop fuel)) e, g)
  after_round fuel total offset w (again t o, w') ih f e (p, less, nearer) =
      let (r, w'', run, done) = ih t o w' p less (omega arith) in
      (r, w'', ap (turn system build size (run_loop fuel)) e ∙ run, done)

  copy_loop-Completes : (fuel : ℕ) → WithFuel fuel
  copy_loop-Completes zero total offset w p less f = absurd (omega arith)
  copy_loop-Completes (suc fuel) total offset w p less f =
      after_round fuel total offset w _ (copy_loop-Completes fuel) f refl
        (asked-GoesWell total offset w p less)

-- On macOS, for a slice of at least one byte whose end an `off_t` can hold, on a system whose EAGAIN
-- answers leave some of the bytes asked for, and fuel beyond the slice's length and the EAGAIN
-- answers to come: `copy_slice` returns and does not panic. If it succeeds, it has sent as much of
-- the slice as the file holds, in order, the bytes sent by calls that answered EAGAIN included, and
-- answers how many bytes that is; if it fails, what it has sent is the beginning of the slice.
pub copy_slice-TransferredMacos :
    {W : Type 0} (system : Macos W) (build : Build) (fuel : ℕ) (z : ZeroCopy)
    (slice : AsyncFileSlice) (w : W) (laws : SendsFileMacos system z.raw_fd slice.fd)
    (fits : slice.position + slice.len < 2 ^ 63)
    → 0 < slice.len
    → slice.len + laws.stalls w < fuel
    → (r : Outcome (Result ℕ SendFileError)) × (w' : W) × (copy_slice system build fuel z slice w
        ≡ some (r, w'))
      × TransferredMacos system build z.raw_fd slice.fd slice.position slice.len laws fits w r w'
unfolding copy_slice
copy_slice-TransferredMacos system build fuel z slice w laws fits some_bytes f =
    copy_loop-Completes system build z.raw_fd slice.fd slice.position slice.len laws fits w fuel 0 _
      w (start-Progress laws.content laws.arrived laws.stalls slice.position slice.len w) some_bytes
      (omega arith)
