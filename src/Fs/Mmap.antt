-- ===== src/Fs/Mmap.antt =====
-- src/fs/mmap.rs: memory-mapped files behind a lock that a panic poisons.
pub mod Opening
pub mod Writes
mod Tests
use future_aio.Base.{
  ℕ, zero, suc, ◌+◌, Bool, true, false, ◌&&◌, leb, ◌==◌, if◌then◌else◌, List, [], ◌∷◌, length,
  Result, ok, err, IoError, Outcome, returns, panics, ◌>>=◌, Build, add_u64,
}
use future_aio.Fs.Util.{OpenOptions, no_options}

-- `MmapMut` behind its `RwLock`: the bytes, and whether the lock is poisoned.
pub record MemoryMappedMutFile : Type 0 where
  pub bytes : List ℕ
  pub poisoned : Bool

pub from_mmap : List ℕ → MemoryMappedMutFile
from_mmap mmap = record { bytes = mmap; poisoned = false }

-- `read().unwrap()` and `write().unwrap()`.
unfoldable pub inner : MemoryMappedMutFile → Outcome (List ℕ)
inner m = if m.poisoned then panics else returns m.bytes

-- `m_array[pos..end]` is within a slice of length `len`.
in_range : ℕ → ℕ → ℕ → Bool
in_range len pos end = leb pos end && leb end len

-- `clone_from_slice` from the byte `pos` on.
overwrite : ℕ → List ℕ → List ℕ → List ℕ
overwrite (suc pos) bs (x ∷ xs) = x ∷ overwrite pos bs xs
overwrite (suc pos) bs [] = []
overwrite zero [] xs = xs
overwrite zero (b ∷ bs) (x ∷ xs) = b ∷ overwrite zero bs xs
overwrite zero (b ∷ bs) [] = []

-- The end of the range is known; a panic poisons the lock, which is held.
written : MemoryMappedMutFile → ℕ → List ℕ → Outcome ℕ → Outcome (Unit {0}) × MemoryMappedMutFile
unfolding in_range overwrite
written m pos bs panics = (panics, record m { poisoned = true })
written m pos bs (returns end) =
    if in_range (length m.bytes) pos end
    then (returns tt, record m { bytes = overwrite pos bs m.bytes })
    else (panics, record m { poisoned = true })

locked :
    (List ℕ → Outcome (Unit {0}) × MemoryMappedMutFile)
    → MemoryMappedMutFile
    → Outcome (List ℕ)
    → Outcome (Unit {0}) × MemoryMappedMutFile
locked f m panics = (panics, m)
locked f m (returns bytes) = f bytes

unfoldable pub write_bytes :
    Build → MemoryMappedMutFile → ℕ → List ℕ → Outcome (Unit {0}) × MemoryMappedMutFile
unfolding inner locked written
write_bytes build m pos bs =
    locked (λ _. written m pos bs (add_u64 build pos (length bs))) m (inner m)

-- `flush_ft`, `flush_async_ft` and `flush_range_ft`, by the call that they make under the lock.
unfoldable pub flush_with :
    (List ℕ → Result (Unit {0}) IoError) → MemoryMappedMutFile → Outcome (Result (Unit {0}) IoError)
unfolding inner
flush_with flush m = do bytes ← inner m; returns (flush bytes)
