-- ===== src/Fs/Bounded/Limit.antt =====
-- The maximum length of a sink: it holds for writers that ask `can_be_appended` before each write.
use future_aio.Base.{
  ℕ, ◌+◌, ◌^◌, ◌≤◌, ◌<◌, ◌≡◌, ◌↔◌, sym, ap, ◌∙◌, subst, true, some, List, length, Result, Poll,
  IoError, returns, panics, Build, debug, release, u64_mod, arith, returns-injective,
}
use future_aio.Fs.Util.{FileSystem}
use future_aio.Fs.Bounded.{BoundedFileSink, can_be_appended, fits, poll_write}
use future_aio.Fs.Bounded.Length.{WritesAtEnd, Tracks, poll_write-Tracks}

module _ (fs : FileSystem) (max : ℕ) where
  abbrev Limited : BoundedFileSink fs → Type 0
  Limited s = s.option.max_len ≡ some max

  Limited-fits :
      (build : Build) (s : BoundedFileSink fs) (n : ℕ)
      → Limited s
      → can_be_appended fs build s n ≡ fits build (some max) s.current_len n
  unfolding can_be_appended
  Limited-fits build s n l = ap (λ o. fits build o s.current_len n) l

  -- Where the sum does not overflow, the sink of a maximum says yes exactly if the bytes fit.
  pub can_be_appended_iff :
      (build : Build) (s : BoundedFileSink fs) (buf_len : ℕ)
      → Limited s
      → s.current_len + buf_len < u64_mod
      → (can_be_appended fs build s buf_len ≡ returns true) ↔ (s.current_len + buf_len ≤ max)
  unfolding fits
  can_be_appended_iff build s n l h = rw (Limited-fits build s n l) (ground arith, ground arith)

  -- Where it overflows, a sink within its maximum says yes in a release build, however large the
  -- number of bytes; a debug build panics.
  pub can_be_appended_overflow :
      (s : BoundedFileSink fs) (buf_len : ℕ)
      → Limited s
      → s.current_len ≤ max
      → buf_len < u64_mod
      → s.current_len < u64_mod
      → u64_mod ≤ s.current_len + buf_len
      → (can_be_appended fs release s buf_len ≡ returns true)
        × (can_be_appended fs debug s buf_len ≡ panics)
  unfolding fits
  can_be_appended_overflow s n l c b u o =
      rw (Limited-fits release s n l, Limited-fits debug s n l) (ground arith, ground arith)

-- A client that writes a buffer only if the sink said that it fits. The length of a slice is below
-- 2 ^ 63.
pub data GuardedWrite (fs : FileSystem) (build : Build) (s : BoundedFileSink fs)
    : BoundedFileSink fs → Type 0 where
  write :
      (buf : List ℕ) (r : Poll (Result ℕ IoError)) {t : BoundedFileSink fs}
      → length buf < 2 ^ 63
      → can_be_appended fs build s (length buf) ≡ returns true
      → poll_write fs build s buf ≡ returns (r, t)
      → GuardedWrite fs build s t

pub data GuardedWrites (fs : FileSystem) (build : Build) (s : BoundedFileSink fs)
    : BoundedFileSink fs → Type 0 where
  here : GuardedWrites fs build s s
  next :
      {t u : BoundedFileSink fs}
      → GuardedWrites fs build s t
      → GuardedWrite fs build t u
      → GuardedWrites fs build s u

module _ (fs : FileSystem) (laws : WritesAtEnd fs) (build : Build) (max : ℕ)
    (small : max ≤ 2 ^ 63) where
  pub record WithinLimit (s : BoundedFileSink fs) : Type 0 where
    pub tracks : Tracks fs laws s
    pub limited : s.option.max_len ≡ some max
    pub within : s.current_len ≤ max

  write-WithinLimit :
      {s t : BoundedFileSink fs} → WithinLimit s → GuardedWrite fs build s t → WithinLimit t
  write-WithinLimit {s} {t} v (write buf r short fit run) =
      let (u, ran, ku, counted, le, same) =
        poll_write-Tracks fs laws build s buf v.tracks (omega (arith, v.within)) in
      let fits_now =
        (can_be_appended_iff fs max build s (length buf) v.limited (omega (arith, v.within))).0
          fit in
      subst WithinLimit (ap (λ p. p.1) (returns-injective (sym ran ∙ run))) (record {
        tracks = ku;
        limited = ap (λ o. o.max_len) same ∙ v.limited;
        within = omega arith;
      })

  all-WithinLimit :
      {s t : BoundedFileSink fs} → WithinLimit s → GuardedWrites fs build s t → WithinLimit t
  all-WithinLimit v here = v
  all-WithinLimit v (next w st) = write-WithinLimit (all-WithinLimit v w) st

  -- A sink whose maximum is at most 2 ^ 63, that starts within it and counts the length of its
  -- file, stays within it under any number of guarded writes, and so does its file.
  pub guarded_writes_limited :
      {s t : BoundedFileSink fs}
      → WithinLimit s
      → GuardedWrites fs build s t
      → (t.current_len ≤ max) × (laws.size t.writer ≤ max)
  guarded_writes_limited {s} {t} v w =
      let k = all-WithinLimit v w in (k.within, omega (arith, k.within, k.tracks.counts))
