-- ===== src/ZeroCopy/Tests.antt =====
-- A transfer at an example.
use future_aio.Base.{
  ℕ, zero, suc, ◌+◌, ◌-◌, ◌≡◌, refl, sym, ap, List, [], ◌∷◌, ◌++◌, length, take, drop, length-take,
  length-drop, none, some, Result, ok, err, Outcome, returns, debug, release, arith, min,
}
use future_aio.FileSlice.{AsyncFileSlice}
use future_aio.Fs.Util.{ℤ, pos, negsuc}
use future_aio.Fs.Extension.Slices.{as_slice_iff}
use future_aio.ZeroCopy.Serve.{Served, as_slice-Served}
use future_aio.ZeroCopy.{
  Errno, eagain, other, SendFileError, ZeroCopy, System, copy_slice, copy_loop, round,
}
use future_aio.ZeroCopy.Macos.{Macos}
use future_aio.ZeroCopy.Macos
use future_aio.ZeroCopy.Macos.Overrun.{SendsRest, copy_slice-beyond}
use future_aio.ZeroCopy.Sendfile.{Answer, SendsFile}
use future_aio.ZeroCopy.Transfer.{Transferred, copy_slice-Transferred}

-- The file, what has arrived, and the EAGAIN answers to come.
pub record Wire : Type 0 where
  pub file : List ℕ
  pub got : List ℕ
  pub busy : ℕ

-- At most two bytes in a call.
abbrev pub part : ℕ → ℕ → Wire → List ℕ
part offset count w = take (min count 2) (drop offset w.file)

abbrev pub send : ℕ → ℕ → ℕ → Wire → Result ℕ Errno × ℕ × Wire
send zero offset count w = (
  ok (length (part offset count w)),
  offset + length (part offset count w),
  record w { got = w.got ++ part offset count w },
)
send (suc k) offset count w = (err eagain, offset, record w { busy = k })

abbrev pub wires : System Wire
wires = record {
  sendfile = λ target source offset count w. send w.busy offset count w;
  nap = λ w. w;
}

take-part : (n : ℕ) (xs : List ℕ) → take (length (take n xs)) xs ≡ take n xs
take-part zero xs = refl
take-part (suc n) [] = refl
take-part (suc n) (x ∷ xs) = ap (◌∷◌ x) (take-part n xs)

pub send-Answer :
    (busy offset count : ℕ) (w : Wire)
    → busy ≡ w.busy
    → Answer (λ v. v.file) (λ v. v.got) (λ v. v.busy) offset count w (send busy offset count w)
send-Answer zero offset count w b =
    let l = length-take (min count 2) (drop offset w.file) in
    let d = length-drop offset w.file in
    (
      refl,
      omega (arith, l),
      omega (arith, l, d),
      λ some_asked none_sent. omega (arith, l, d),
      refl,
      ap (λ xs. w.got ++ xs) (sym (take-part (min count 2) (drop offset w.file))),
      omega arith,
    )
send-Answer (suc k) offset count w b = (refl, refl, refl, omega arith)

abbrev pub wire_laws : (source : ℕ) → SendsFile wires 5 source
wire_laws source = record {
  content = λ w. w.file;
  arrived = λ w. w.got;
  stalls = λ w. w.busy;
  answers = λ offset count w h. send-Answer w.busy offset count w refl;
  naps = λ w. (refl, refl, omega arith);
}

abbrev wire : Wire
wire = record { file = 1 ∷ 2 ∷ 3 ∷ 4 ∷ 5 ∷ []; got = []; busy = 1 }

abbrev tail : AsyncFileSlice
tail = record { fd = 3; position = 1; len = 9 }

abbrev pub socket : ZeroCopy
socket = record { raw_fd = 5 }

tail_sent :
    copy_slice wires debug 11 socket tail wire
    ≡ some (returns (ok 4), record wire { got = 2 ∷ 3 ∷ 4 ∷ 5 ∷ []; busy = 0 })
unfolding copy_slice copy_loop round
tail_sent = refl

copy_slice-Transferred_example :
    (r : Outcome (Result ℕ SendFileError)) × (w : Wire) × (copy_slice wires debug 11 socket tail
        wire
      ≡ some (r, w))
    × Transferred wires debug 5 3 1 9 (wire_laws 3) (omega arith) wire r w
copy_slice-Transferred_example =
    copy_slice-Transferred wires debug 11 socket tail wire (wire_laws 3) (omega arith) (omega arith)

-- `as_slice` on the file of the wire, for the rest of it.
as_slice-Served_example :
    (◌≡◌ {A = ℕ} 3 3)
    × (◌≡◌ {A = ℕ} 1 1)
    × ((r : Outcome (Result ℕ SendFileError)) × (w : Wire) × (copy_slice wires release 9 socket
            (record { fd = 3; position = 1; len = 4 })
            wire
          ≡ some (r, w))
        × Served wire.file wire.got (record { fd = 3; position = 1; len = 4 }) w.got r)
as_slice-Served_example =
    as_slice-Served wires release 9 socket 3 1 none (record { fd = 3; position = 1; len = 4 }) wire
      (wire_laws 3) (omega arith) tt
      ((as_slice_iff release 3 5 1 none (record { fd = 3; position = 1; len = 4 }) tt).1
        (refl, refl, omega arith))
      (omega arith)

-- A file of five bytes, which a call with the count 0 sends from the offset on.
abbrev five : List ℕ
five = 1 ∷ 2 ∷ 3 ∷ 4 ∷ 5 ∷ []

abbrev send_five : ℤ → List ℕ → Result (Unit {0}) Errno × ℕ × List ℕ
send_five (pos offset) w = (ok tt, 5 - offset, w ++ drop offset five)
send_five (negsuc n) w = (err (other 22), 0, w)

abbrev macos : Macos (List ℕ)
macos = record { sendfile = λ source target offset count w. send_five offset w; nap = λ w. w }

abbrev macos_laws : SendsRest macos 3 1
macos_laws = record {
  content = λ w. five;
  arrived = λ w. w;
  rest = λ offset w h. (w ++ drop offset five, refl, refl);
}

copy_slice-beyond_example :
    (u : List ℕ) × (Macos.copy_slice macos debug 1
        (record { raw_fd = 1 })
        (record { fd = 3; position = 3; len = 0 })
        []
      ≡ some (returns (ok 2), u))
    × (u ≡ 4 ∷ 5 ∷ [])
copy_slice-beyond_example =
    copy_slice-beyond macos debug 0 3 3 (record { raw_fd = 1 }) [] macos_laws (omega arith)
      (omega arith)
