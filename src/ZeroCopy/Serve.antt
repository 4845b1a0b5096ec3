-- ===== src/ZeroCopy/Serve.antt =====
-- A slice that `as_slice` of src/fs/extension.rs gives, sent by `copy_slice` of src/zero_copy.rs on
-- Linux: a file that is served to a socket.
pub mod Logged
mod Tests
use future_aio.Base.{
  ℕ, ◌+◌, ◌^◌, ◌≤◌, ◌<◌, ◌≡◌, Option, none, some, List, ◌++◌, length, take, drop, Result, ok, err,
  Outcome, returns, panics, Build, arith,
}
use future_aio.FileSlice.{AsyncFileSlice}
use future_aio.Fs.Extension.{as_slice}
use future_aio.Fs.Extension.Slices.{sized, NoOverflow, Chosen, as_slice_iff}
use future_aio.ZeroCopy.{SendFileError, ZeroCopy, System, copy_slice}
use future_aio.ZeroCopy.Sendfile.{SendsFile}
use future_aio.ZeroCopy.Transfer.{Transferred, copy_slice-Transferred}

-- A success tells the number of bytes that the slice promised, and all of them have arrived; a
-- failure leaves a beginning of them.
abbrev pub Served :
    List ℕ → List ℕ → AsyncFileSlice → List ℕ → Outcome (Result ℕ SendFileError) → Type 0
Served content before s after panics = ⊥
Served content before s after (returns (ok total)) =
    (total ≡ s.len) × (after ≡ before ++ take s.len (drop s.position content))
Served content before s after (returns (err e)) =
    (total : ℕ) × (total ≤ s.len) × (after ≡ before ++ take total (drop s.position content))

Chosen-within :
    (len position : ℕ) (o : Option ℕ) (l : ℕ) → Chosen len position o l → position + l ≤ len
Chosen-within len position none l c = omega (arith, c.1)
Chosen-within len position (some d) l c = omega (arith, c.1)

Transferred-Served :
    {W : Type 0} (system : System W) (build : Build) (target : ℕ) (s : AsyncFileSlice)
    (laws : SendsFile system target s.fd) (fits : s.position + s.len < 2 ^ 63) (w w' : W)
    (r : Outcome (Result ℕ SendFileError))
    → s.position + s.len ≤ length (laws.content w)
    → Transferred system build target s.fd s.position s.len laws fits w r w'
    → Served (laws.content w) (laws.arrived w) s (laws.arrived w') r
Transferred-Served system build target s laws fits w w' panics b t = t
Transferred-Served system build target s laws fits w w' (returns (ok total)) b (n, a) =
    (omega arith, a)
Transferred-Served system build target s laws fits w w' (returns (err e)) b (total, n, a) =
    (total, omega arith, a)

-- Where the length that the system tells is that of the file's content, and an `off_t` can hold it,
-- and where the position and the desired length, if there is one, do not overflow together: every
-- slice that `as_slice` gives for them is of the file and at the position, and it can be sent. With
-- fuel beyond its length and the EAGAIN answers to come, `copy_slice` returns and does not panic; on
-- success it has sent the whole slice, no byte less, and answers its length; a failure leaves a
-- beginning of the slice.
pub as_slice-Served :
    {W : Type 0} (system : System W) (build : Build) (fuel : ℕ) (z : ZeroCopy) (fd position : ℕ)
    (o : Option ℕ) (s : AsyncFileSlice) (w : W) (laws : SendsFile system z.raw_fd s.fd)
    → length (laws.content w) < 2 ^ 63
    → NoOverflow position o
    → as_slice build (sized fd (length (laws.content w))) position o ≡ returns (ok s)
    → s.len + laws.stalls w < fuel
    → (s.fd ≡ fd)
      × (s.position ≡ position)
      × ((r : Outcome (Result ℕ SendFileError)) × (w' : W) × (copy_slice system build fuel z s w
            ≡ some (r, w'))
          × Served (laws.content w) (laws.arrived w) s (laws.arrived w') r)
as_slice-Served system build fuel z fd position o s w laws small n given f =
    let (own_fd, at, chosen) =
      (as_slice_iff build fd (length (laws.content w)) position o s n).0 given in
    let within = Chosen-within (length (laws.content w)) position o s.len chosen in
    let fits : s.position + s.len < 2 ^ 63 = omega arith in
    let (r, w', run, t) = copy_slice-Transferred system build fuel z s w laws fits f in
    let sent = Transferred-Served system build z.raw_fd s laws fits w w' r (omega arith) t in
    (own_fd, at, (r, w', run, sent))
