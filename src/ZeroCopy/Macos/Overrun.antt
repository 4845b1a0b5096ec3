-- ===== src/ZeroCopy/Macos/Overrun.antt =====
-- A transfer of an empty slice on macOS.
use future_aio.Base.{
  ℕ, suc, ◌+◌, ◌-◌, ◌≤◌, ◌<◌, ◌^◌, ◌≡◌, List, ◌++◌, length, drop, refl, ap, ◌∙◌, Option, some,
  Result, ok, Outcome, returns, Build, u64_mod, sub_u64, add_u64-returns, sub_u64-returns, arith,
}
use future_aio.Fs.Util.{pos}
use future_aio.ZeroCopy.{Errno, SendFileError, ZeroCopy, leave}
use future_aio.ZeroCopy.Macos.{
  Macos, as_i64-pos, matched, summed, tallied, asked, turn, copy_loop, copy_slice,
}

module _ {W : Type 0} (system : Macos W) (build : Build) (size : ℕ) where
  open system use {sendfile, nap}

  -- A turn whose sums do not overflow.
  asked-matched :
      (target source total offset bytes : ℕ) (w v : W) (res : Result (Unit {0}) Errno)
      → total ≤ size
      → size < 2 ^ 63
      → offset < 2 ^ 63
      → total + bytes < u64_mod
      → offset + bytes < u64_mod
      → sendfile source target (pos offset) (pos (size - total)) w ≡ (res, bytes, v)
      → asked system build size target source total offset w (sub_u64 build size total)
        ≡ matched system build size res bytes (total + bytes) (offset + bytes) v
  unfolding asked tallied summed
  asked-matched target source total offset bytes w v res h small held t o answer =
      rw
        (
          sub_u64-returns build size total h,
          as_i64-pos offset held,
          as_i64-pos (size - total) (omega arith),
          answer,
          add_u64-returns build total bytes t,
          add_u64-returns build offset bytes o,
        )
        refl

  -- All is sent, and the next call succeeds.
  last-turn :
      (bytes offset : ℕ) (v : W)
      → matched system build size (ok tt) bytes (size + bytes) offset v
        ≡ (leave (returns (ok (size + bytes))), v)
  unfolding matched
  last-turn bytes offset v = ground arith

  second-turn :
      (target source offset more : ℕ) (w v : W)
      → size < 2 ^ 63
      → offset < 2 ^ 63
      → size + more < u64_mod
      → offset + more < u64_mod
      → sendfile source target (pos offset) (pos 0) w ≡ (ok tt, more, v)
      → asked system build size target source size offset w (sub_u64 build size size)
        ≡ (leave (returns (ok (size + more))), v)
  second-turn target source offset more w v small held t o answer =
      asked-matched target source size offset more w v (ok tt) (omega arith) small held t o
        (ap (λ n. sendfile source target (pos offset) (pos n) w) (omega arith) ∙ answer)
      ∙ last-turn more (offset + more) v

-- The documented behaviour of a call of `sendfile` with the count 0, on macOS, for offsets that an
-- `off_t` can hold, to a target that takes all of it: it sends what the file holds from the offset
-- on.
pub record SendsRest {W : Type 0} (system : Macos W) (source target : ℕ) : Type 0 where
  pub content : W → List ℕ
  pub arrived : W → List ℕ
  pub rest :
      (offset : ℕ) (w : W)
      → offset < 2 ^ 63
      → (u : W) × (system.sendfile source target (pos offset) (pos 0) w
          ≡ (ok tt, length (content w) - offset, u))
        × (arrived u ≡ arrived w ++ drop offset (content w))

-- On macOS `copy_slice` of an empty slice, at a position that an `off_t` can hold in a file whose
-- length it can hold, to a target that takes all, sends the whole rest of the file behind the
-- position and succeeds, with the length of that rest for its answer: the call of `sendfile` has the
-- count 0, by which macOS sends on to the end of the file.
pub copy_slice-beyond :
    {W : Type 0} (system : Macos W) (build : Build) (fuel fd position : ℕ) (z : ZeroCopy) (w : W)
    (laws : SendsRest system fd z.raw_fd)
    → position < 2 ^ 63
    → length (laws.content w) < 2 ^ 63
    → (u : W) × (copy_slice system build
          (suc fuel)
          z
          (record { fd = fd; position = position; len = 0 })
          w
        ≡ some (returns (ok (length (laws.content w) - position)), u))
      × (laws.arrived u ≡ laws.arrived w ++ drop position (laws.content w))
unfolding copy_slice copy_loop turn
copy_slice-beyond system build fuel fd position z w laws small short =
    let more = length (laws.content w) - position in
    let (u, answer, got) = laws.rest position w small in
    let last = copy_loop system build 0 fuel z.raw_fd fd in
    (
      u,
      ap (turn system build 0 last) (
            second-turn system build 0 z.raw_fd fd position more w u (omega arith) small
              (omega arith) (omega arith) answer)
          ∙ ap {B = Option (Outcome (Result ℕ SendFileError) × _)} (λ n. some (returns (ok n), u))
              (omega arith),
      got,
    )
