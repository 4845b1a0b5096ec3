-- ===== src/Fs/Overflow.antt =====
-- The sums on u64 in src/fs that are not checked.
use future_aio.Base.{
  ℕ, ◌+◌, ◌≤◌, ◌<◌, ◌≡◌, true, some, ok, returns, panics, debug, release, u64_mod,
}
use future_aio.Fs.Util.{FileSystem}
use future_aio.Fs.Extension.{as_slice}
use future_aio.Fs.Extension.Slices.{sized, as_slice_overflow}
use future_aio.Fs.Bounded.{BoundedFileSink, can_be_appended}
use future_aio.Fs.Bounded.Limit.{can_be_appended_overflow}

-- Where the end of a desired slice overflows and its position lies before the end of the file,
-- `as_slice` gives, in a release build, a slice that runs past the end of the file; where the number
-- of bytes to append overflows the counter of a sink within its maximum, `can_be_appended` says, in
-- a release build, that they fit. In a debug build both panic.
pub unchecked_sums :
    (fs : FileSystem) (max : ℕ) (s : BoundedFileSink fs) (fd len position many : ℕ)
    → position < len
    → len < u64_mod
    → s.option.max_len ≡ some max
    → s.current_len ≤ max
    → s.current_len < u64_mod
    → many < u64_mod
    → u64_mod ≤ position + many
    → u64_mod ≤ s.current_len + many
    → (as_slice release (sized fd len) position (some many)
        ≡ returns (ok (record { fd = fd; position = position; len = many })))
      × (as_slice debug (sized fd len) position (some many) ≡ panics)
      × (can_be_appended fs release s many ≡ returns true)
      × (can_be_appended fs debug s many ≡ panics)
unchecked_sums fs max s fd len position many p l m c u n o k =
    let (past, unwound) = as_slice_overflow fd len position many n p l o in
    let (fits, panicked) = can_be_appended_overflow fs max s many m c n u k in
    (past, unwound, fits, panicked)
