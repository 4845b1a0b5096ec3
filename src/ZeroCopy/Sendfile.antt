-- ===== src/ZeroCopy/Sendfile.antt =====
-- What is relied on of `sendfile`.
use future_aio.Base.{
  ℕ, ◌+◌, ◌-◌, ◌^◌, ◌≤◌, ◌<◌, ◌≡◌, List, ◌++◌, length, take, drop, Result, ok, err,
}
use future_aio.ZeroCopy.{Errno, eagain, other, System}

-- What a call of `sendfile` may answer, from `offset` for `count` bytes. On success the bytes sent
-- are at most those asked for and those that the source still holds, they arrive in order, and no
-- byte sent means that the end of the source is reached. EAGAIN spends one of the stalls.
module _ {W : Type 0} (content arrived : W → List ℕ) (stalls : W → ℕ) where
  abbrev pub Answer : ℕ → ℕ → W → Result ℕ Errno × ℕ × W → Type 0
  Answer offset count w (ok n, o, w') =
      (o ≡ offset + n)
      × (n ≤ count)
      × (n ≤ length (content w) - offset)
      × (0 < count → n ≡ 0 → length (content w) ≤ offset)
      × (content w' ≡ content w)
      × (arrived w' ≡ arrived w ++ take n (drop offset (content w)))
      × (stalls w' ≤ stalls w)
  Answer offset count w (err eagain, o, w') =
      (o ≡ offset) × (content w' ≡ content w) × (arrived w' ≡ arrived w) × (stalls w' < stalls w)
  Answer offset count w (err (other code), o, w') =
      (content w' ≡ content w) × (arrived w' ≡ arrived w)

-- What is relied on of the system, between a target and a source, for offsets that an `off_t` can
-- hold. `content` is what the source holds, `arrived` what the target has got, and `stalls` bounds
-- how often `sendfile` will still answer EAGAIN.
pub record SendsFile {W : Type 0} (system : System W) (target source : ℕ) : Type 0 where
  pub content : W → List ℕ
  pub arrived : W → List ℕ
  pub stalls : W → ℕ
  pub answers :
      (offset count : ℕ) (w : W)
      → offset + count < 2 ^ 63
      → Answer content arrived stalls offset count w (system.sendfile target source offset count w)
  pub naps :
      (w : W)
      → (content (system.nap w) ≡ content w)
        × (arrived (system.nap w) ≡ arrived w)
        × (stalls (system.nap w) ≤ stalls w)
