-- ===== src/ZeroCopy/Macos/Tests.antt =====
-- A transfer on macOS at an example.
use future_aio.Base.{
  ℕ, zero, suc, ◌-◌, ◌<◌, ◌≡◌, refl, sym, ap, List, [], ◌∷◌, ◌++◌, length, take, drop, length-take,
  length-drop, some, Result, ok, err, Outcome, returns, release, arith, min,
}
use future_aio.FileSlice.{AsyncFileSlice}
use future_aio.Fs.Util.{ℤ, pos, negsuc}
use future_aio.ZeroCopy.{Errno, eagain, other, SendFileError, ZeroCopy}
use future_aio.ZeroCopy.Macos.{Macos, as_i64, copy_slice}
use future_aio.ZeroCopy.Macos.Sendfile.{MacosAnswer, SendsFileMacos}
use future_aio.ZeroCopy.Macos.Transfer.{TransferredMacos, copy_slice-TransferredMacos}

-- The file, what has arrived, and the EAGAIN answers to come.
record Wire : Type 0 where
  file : List ℕ
  got : List ℕ
  busy : ℕ

-- Numbers below 0 are refused. At most two bytes in a call, of more than two asked for when it answers EAGAIN.
abbrev part : ℕ → ℕ → Wire → List ℕ
part offset count w = take (min (count - 1) 2) (drop offset w.file)

abbrev all : ℕ → ℕ → Wire → List ℕ
all offset count w = take count (drop offset w.file)

abbrev send : ℕ → ℕ → ℕ → Wire → Result (Unit {0}) Errno × ℕ × Wire
send zero offset count w =
    (ok tt, length (all offset count w), record w { got = w.got ++ all offset count w })
send (suc k) offset count w = (
  err eagain,
  length (part offset count w),
  record w { got = w.got ++ part offset count w; busy = k },
)

abbrev sends : ℤ → ℤ → Wire → Result (Unit {0}) Errno × ℕ × Wire
sends (pos offset) (pos count) w = send w.busy offset count w
sends (pos offset) (negsuc n) w = (err (other 22), 0, w)
sends (negsuc n) count w = (err (other 22), 0, w)

abbrev wires : Macos Wire
wires = record { sendfile = λ source target offset count w. sends offset count w; nap = λ w. w }

take-part : (n : ℕ) (xs : List ℕ) → take (length (take n xs)) xs ≡ take n xs
take-part zero xs = refl
take-part (suc n) [] = refl
take-part (suc n) (x ∷ xs) = ap (◌∷◌ x) (take-part n xs)

send-MacosAnswer :
    (busy offset count : ℕ) (w : Wire)
    → busy ≡ w.busy
    → 0 < count
    → MacosAnswer (λ v. v.file) (λ v. v.got) (λ v. v.busy) offset count w (send busy offset count w)
send-MacosAnswer zero offset count w b c =
    let l = length-take count (drop offset w.file) in
    let d = length-drop offset w.file in
    (
      omega (arith, l),
      omega (arith, l, d),
      refl,
      ap (λ xs. w.got ++ xs) (sym (take-part count (drop offset w.file))),
      (λ none_sent. omega (arith, l, d), omega arith),
    )
send-MacosAnswer (suc k) offset count w b c =
    let l = length-take (min (count - 1) 2) (drop offset w.file) in
    let d = length-drop offset w.file in
    (
      omega (arith, l),
      omega (arith, l, d),
      refl,
      ap (λ xs. w.got ++ xs) (sym (take-part (min (count - 1) 2) (drop offset w.file))),
      (omega (arith, l), omega arith),
    )

abbrev wire_laws : SendsFileMacos wires 5 3
wire_laws = record {
  content = λ w. w.file;
  arrived = λ w. w.got;
  stalls = λ w. w.busy;
  answers = λ offset count w c h. send-MacosAnswer w.busy offset count w refl c;
  naps = λ w. (refl, refl, omega arith);
}

abbrev wire : Wire
wire = record { file = 1 ∷ 2 ∷ 3 ∷ 4 ∷ 5 ∷ []; got = []; busy = 1 }

abbrev tail : AsyncFileSlice
tail = record { fd = 3; position = 1; len = 9 }

abbrev socket : ZeroCopy
socket = record { raw_fd = 5 }

tail_sent :
    copy_slice wires release 11 socket tail wire
    ≡ some (returns (ok 4), record wire { got = 2 ∷ 3 ∷ 4 ∷ 5 ∷ []; busy = 0 })
unfolding copy_slice as_i64
tail_sent = refl

copy_slice-TransferredMacos_example :
    (r : Outcome (Result ℕ SendFileError)) × (w : Wire) × (copy_slice wires release 11 socket tail
        wire
      ≡ some (r, w))
    × TransferredMacos wires release 5 3 1 9 wire_laws (omega arith) wire r w
copy_slice-TransferredMacos_example =
    copy_slice-TransferredMacos wires release 11 socket tail wire wire_laws (omega arith)
      (omega arith) (omega arith)
