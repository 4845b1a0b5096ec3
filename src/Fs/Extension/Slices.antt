-- ===== src/Fs/Extension/Slices.antt =====
-- Which slices `as_slice` gives.
use future_aio.Base.{
  ℕ, ◌+◌, ◌-◌, ◌≤◌, ◌<◌, ◌≡◌, ◌↔◌, Option, none, some, ok, err, unexpected_eof, returns, panics,
  Build, debug, release, u64_mod, arith,
}
use future_aio.FileSlice.{AsyncFileSlice}
use future_aio.Fs.Extension.{File, as_slice}

-- A file whose length the system tells.
abbrev pub sized : ℕ → ℕ → File
sized fd len = record { raw_fd = fd; metadata_len = ok len }

-- The end of the desired slice is a u64.
abbrev pub NoOverflow : ℕ → Option ℕ → Type 0
NoOverflow position none = Unit {0}
NoOverflow position (some desired_len) = position + desired_len < u64_mod

-- The length that a slice from `position` of a file of length `len` may have: with no desired
-- length the rest of the file, with one that length, if at least a byte of the file is left over.
abbrev pub Chosen : ℕ → ℕ → Option ℕ → ℕ → Type 0
Chosen len position none l = (position < len) × (position + l ≡ len)
Chosen len position (some desired_len) l = (l ≡ desired_len) × (position + l < len)

module _ (build : Build) (fd len position : ℕ) where
  as_slice-ok :
      (o : Option ℕ) (s : AsyncFileSlice)
      → NoOverflow position o
      → as_slice build (sized fd len) position o ≡ returns (ok s)
      → (s.fd ≡ fd) × (s.position ≡ position) × Chosen len position o s.len
  unfolding as_slice
  as_slice-ok none s n h = ground arith
  as_slice-ok (some d) s n h = ground arith

  as_slice_of_Chosen :
      (o : Option ℕ) (s : AsyncFileSlice)
      → NoOverflow position o
      → (s.fd ≡ fd) × (s.position ≡ position) × Chosen len position o s.len
      → as_slice build (sized fd len) position o ≡ returns (ok s)
  unfolding as_slice
  as_slice_of_Chosen none s n h = ground arith
  as_slice_of_Chosen (some d) s n h = ground arith

  -- Where the desired end does not overflow, `as_slice` gives exactly the slices of the file from
  -- the position: of the desired length if they end before the last byte, and of the rest of the
  -- file if no length is desired and the position lies before its end.
  pub as_slice_iff :
      (o : Option ℕ) (s : AsyncFileSlice)
      → NoOverflow position o
      → (as_slice build (sized fd len) position o ≡ returns (ok s))
        ↔ ((s.fd ≡ fd) × (s.position ≡ position) × Chosen len position o s.len)
  as_slice_iff o s n = (as_slice-ok o s n, as_slice_of_Chosen o s n)

  -- From a position before the end, with no desired length `as_slice` gives the rest of the file;
  -- asked for that very slice, by its length, it answers that the bytes are not available.
  pub as_slice_to_end :
      len < u64_mod
      → position < len
      → (as_slice build (sized fd len) position none
          ≡ returns (ok (record { fd = fd; position = position; len = len - position })))
        × (as_slice build (sized fd len) position (some (len - position))
            ≡ returns (err unexpected_eof))
  unfolding as_slice
  as_slice_to_end h p = (ground arith, ground arith)

-- Where the desired end overflows and the position lies before the end of the file, a release build
-- gives a slice that runs past the end of the file, and a debug build panics.
pub as_slice_overflow :
    (fd len position desired_len : ℕ)
    → desired_len < u64_mod
    → position < len
    → len < u64_mod
    → u64_mod ≤ position + desired_len
    → (as_slice release (sized fd len) position (some desired_len)
        ≡ returns (ok (record { fd = fd; position = position; len = desired_len })))
      × (as_slice debug (sized fd len) position (some desired_len) ≡ panics)
unfolding as_slice
as_slice_overflow fd len position desired_len d p l o = (ground arith, ground arith)
