-- ===== src/Fs/Tests.antt =====
-- The theorems on slices and maps at examples.
use future_aio.Base.{
  ℕ, ◌≡◌, ◌↔◌, refl, true, false, none, some, [], ◌∷◌, ok, err, unexpected_eof, returns, panics,
  debug, release, arith,
}
use future_aio.FileSlice.{AsyncFileSlice}
use future_aio.Fs.Extension.{as_slice}
use future_aio.Fs.Extension.Slices.{sized, Chosen, as_slice_iff, as_slice_to_end, as_slice_overflow}
use future_aio.Fs.Mmap.{MemoryMappedMutFile, write_bytes, flush_with}
use future_aio.Fs.Mmap.Writes.{write_bytes-outcome}

abbrev slice : ℕ → ℕ → AsyncFileSlice
slice position len = record { fd = 3; position = position; len = len }

as_slice_iff_example :
    (as_slice release (sized 3 30) 10 (some 5) ≡ returns (ok (slice 10 5)))
    ↔ ((◌≡◌ {A = ℕ} 3 3) × (◌≡◌ {A = ℕ} 10 10) × Chosen 30 10 (some 5) 5)
as_slice_iff_example = as_slice_iff release 3 30 10 (some 5) (slice 10 5) (omega arith)

slice_to_end :
    (as_slice debug (sized 3 30) 10 none ≡ returns (ok (slice 10 20)))
    × (as_slice debug (sized 3 30) 10 (some 20) ≡ returns (err unexpected_eof))
slice_to_end = as_slice_to_end debug 3 30 10 (omega arith) (omega arith)

slice_overflow :
    (as_slice release (sized 3 30) 10 (some 18446744073709551615)
      ≡ returns (ok (slice 10 18446744073709551615)))
    × (as_slice debug (sized 3 30) 10 (some 18446744073709551615) ≡ panics)
slice_overflow =
    as_slice_overflow 3 30 10 18446744073709551615 (omega arith) (omega arith) (omega arith)
      (omega arith)

-- A map of five bytes, and the end of the address space.
abbrev map : MemoryMappedMutFile
map = record { bytes = 1 ∷ 2 ∷ 3 ∷ 4 ∷ 5 ∷ []; poisoned = false }

write_bytes-outcome_example :
    (write_bytes debug map 3 (8 ∷ 9 ∷ [])
      ≡ (returns tt, record map { bytes = 1 ∷ 2 ∷ 3 ∷ 8 ∷ 9 ∷ [] }))
    × (write_bytes debug (record map { poisoned = true }) 0 []
        ≡ (panics, record map { poisoned = true }))
    × (flush_with (λ bytes. ok tt) (record map { poisoned = true }) ≡ panics)
write_bytes-outcome_example =
    write_bytes-outcome debug map 3 (8 ∷ 9 ∷ []) 0 [] (λ bytes. ok tt) refl (omega arith)
      (omega arith) (omega arith)

overflowing_write :
    write_bytes release map 18446744073709551615 (8 ∷ 9 ∷ [])
    ≡ (panics, record map { poisoned = true })
overflowing_write =
    (write_bytes-outcome release map 18446744073709551615 (8 ∷ 9 ∷ []) 0 [] (λ bytes. ok tt) refl
      (omega arith) (omega arith) (omega arith)).0
