-- ===== src/Fs/Mmap/Opening.antt =====
-- `create` and `open` of src/fs/mmap.rs.
pub mod Disk
pub mod Sizes
use future_aio.Base.{
  ℕ, Bool, true, false, List, ◌==◌, if◌then◌else◌, Result, ok, err, IoError, Outcome, returns,
  panics,
}
use future_aio.Fs.Util.{OpenOptions, no_options}
use future_aio.Fs.Mmap.{MemoryMappedMutFile, from_mmap}

-- What the source uses of `std::fs` and `memmap2`, over a world of type `W`; a map is its bytes.
pub record MapSystem (W : Type 0) : Type 1 where
  pub File : Type 0
  pub open_with : OpenOptions → ℕ → W → Result File IoError × W
  pub set_len : File → ℕ → W → Result (Unit {0}) IoError × W
  pub metadata_len : File → W → Result ℕ IoError × W
  pub map : File → W → Result (List ℕ) IoError × W

-- A call that may fail or unwind.
abbrev pub Opening : Type 0 → Type 0 → Type 0
Opening W A = W → Outcome (Result A IoError) × W

module _ {W A B : Type 0} where
  -- `unwrap()`, and the rest of the function.
  unwrapped : (A → Opening W B) → Result A IoError × W → Outcome (Result B IoError) × W
  unwrapped f (ok a, w) = f a w
  unwrapped f (err e, w) = (panics, w)

  -- The operator `?`, and the rest of the function.
  tried : (A → Opening W B) → Result A IoError × W → Outcome (Result B IoError) × W
  tried f (ok a, w) = f a w
  tried f (err e, w) = (returns (err e), w)

  after : (A → Opening W B) → Outcome (Result A IoError) × W → Outcome (Result B IoError) × W
  after f (panics, w) = (panics, w)
  after f (returns (err e), w) = (returns (err e), w)
  after f (returns (ok a), w) = f a w

abbrev pub MemoryMappedFile : Type 0
MemoryMappedFile = List ℕ

module _ {W : Type 0} (system : MapSystem W) where
  open system use {File, open_with, set_len, metadata_len, map}

  abbrev done : {A : Type 0} → A → Opening W A
  done a w = (returns (ok a), w)

  pub create : ℕ → ℕ → Opening W (MemoryMappedMutFile × File)
  unfolding unwrapped tried
  create m_path len w =
      unwrapped
        (λ mfile v.
          tried (λ _ u. tried (λ bytes. done (from_mmap bytes, mfile)) (map mfile u))
            (set_len mfile len v))
        (open_with (record no_options { read = true; write = true; create = true }) m_path w)

  -- An empty file is grown through a second descriptor.
  grown : ℕ → ℕ → ℕ → Opening W (Unit {0})
  unfolding unwrapped tried
  grown m_path min_len len w =
      if len == 0
      then unwrapped (λ fd v. tried done (set_len fd min_len v))
          (open_with (record no_options { read = true; write = true }) m_path w)
      else done tt w

  unfoldable pub open_map : ℕ → ℕ → Opening W (MemoryMappedFile × File)
  unfolding unwrapped tried after grown
  open_map m_path min_len w =
      unwrapped
        (λ mfile v.
          unwrapped
            (λ len u.
              after (λ _ t. tried (λ bytes. done (bytes, mfile)) (map mfile t))
                (grown m_path min_len len u))
            (metadata_len mfile v))
        (open_with (record no_options { read = true }) m_path w)
