-- ===== src/ZeroCopy/Macos/Sendfile.antt =====
-- What is relied on of the `sendfile` of macOS, which src/zero_copy.rs calls.
use future_aio.Base.{
  ℕ, ◌+◌, ◌-◌, ◌^◌, ◌≤◌, ◌<◌, ◌≡◌, List, ◌++◌, length, take, drop, Result, ok, err,
}
use future_aio.Fs.Util.{pos}
use future_aio.ZeroCopy.{Errno, eagain, other}
use future_aio.ZeroCopy.Macos.{Macos}

-- What a call may answer, from `offset` for `count` bytes, at least one. Whatever the result, the
-- bytes sent are at most those asked for and those that the source still holds, and they arrive in
-- order. On success no byte sent means that the end of the source is reached; EAGAIN leaves some of
-- the bytes asked for, and spends one of the stalls.
module _ {W : Type 0} (content arrived : W → List ℕ) (stalls : W → ℕ) where
  abbrev pub Resulted : ℕ → ℕ → W → Result (Unit {0}) Errno → ℕ → W → Type 0
  Resulted offset count w (ok u) n w' =
      (n ≡ 0 → length (content w) ≤ offset) × (stalls w' ≤ stalls w)
  Resulted offset count w (err eagain) n w' = (n < count) × (stalls w' < stalls w)
  Resulted offset count w (err (other code)) n w' = Unit {0}

  abbrev pub MacosAnswer : ℕ → ℕ → W → Result (Unit {0}) Errno × ℕ × W → Type 0
  MacosAnswer offset count w (r, n, w') =
      (n ≤ count)
      × (n ≤ length (content w) - offset)
      × (content w' ≡ content w)
      × (arrived w' ≡ arrived w ++ take n (drop offset (content w)))
      × Resulted offset count w r n w'

-- What is relied on of macOS, between a target and a source, for offsets that an `off_t` can hold.
pub record SendsFileMacos {W : Type 0} (system : Macos W) (target source : ℕ) : Type 0 where
  pub content : W → List ℕ
  pub arrived : W → List ℕ
  pub stalls : W → ℕ
  pub answers :
      (offset count : ℕ) (w : W)
      → 0 < count
      → offset + count < 2 ^ 63
      → MacosAnswer content arrived stalls offset count w
          (system.sendfile source target (pos offset) (pos count) w)
  pub naps :
      (w : W)
      → (content (system.nap w) ≡ content w)
        × (arrived (system.nap w) ≡ arrived w)
        × (stalls (system.nap w) ≤ stalls w)
