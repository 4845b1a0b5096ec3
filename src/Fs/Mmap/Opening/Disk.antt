-- ===== src/Fs/Mmap/Opening/Disk.antt =====
-- What src/fs/mmap.rs relies on of the disk, and how its calls may end.
use future_aio.Base.{
  ℕ, List, [], ◌∷◌, length, ◌≡◌, ◌⊎◌, Result, ok, err, IoError, Outcome, returns, panics,
}
use future_aio.Fs.Util.{OpenOptions}
use future_aio.Fs.Mmap.{MemoryMappedMutFile}
use future_aio.Fs.Mmap.Opening.{MapSystem, MemoryMappedFile}

-- What is relied on of the system: the content of a file is that of its path, and nothing at a path
-- without a file. Opening it without `truncate` leaves it, setting its length sets its length, and
-- its length and its map are those of the content.
pub record IsDisk {W : Type 0} (system : MapSystem W) : Type 0 where
  pub content : ℕ → W → List ℕ
  pub path_of : system.File → ℕ
  pub opens :
      (o : OpenOptions) (p : ℕ) (f : system.File) (w w' : W)
      → system.open_with o p w ≡ (ok f, w')
      → (path_of f ≡ p) × (content p w' ≡ content p w)
  pub sets :
      (f : system.File) (n : ℕ) (w w' : W)
      → system.set_len f n w ≡ (ok tt, w')
      → length (content (path_of f) w') ≡ n
  pub tells :
      (f : system.File) (n : ℕ) (w w' : W)
      → system.metadata_len f w ≡ (ok n, w')
      → (n ≡ length (content (path_of f) w)) × (content (path_of f) w' ≡ content (path_of f) w)
  pub maps :
      (f : system.File) (bytes : List ℕ) (w w' : W)
      → system.map f w ≡ (ok bytes, w')
      → bytes ≡ content (path_of f) w

-- An empty file is grown to the length, and any other is as it was.
abbrev pub Grown : List ℕ → ℕ → List ℕ → Type 0
Grown [] n bytes = length bytes ≡ n
Grown (b ∷ bs) n bytes = bytes ≡ b ∷ bs

-- A writable map of this length.
abbrev pub OfLength : {F : Type 0} → ℕ → MemoryMappedMutFile × F → Type 0
OfLength len (m, f) = length m.bytes ≡ len

-- A map that the content allows.
abbrev pub OfContent : {F : Type 0} → List ℕ → ℕ → MemoryMappedFile × F → Type 0
OfContent c n (bytes, f) = Grown c n bytes

module _ {W : Type 0} (system : MapSystem W) where
  open system use {File, open_with, set_len, metadata_len, map}

  -- A call fails whose result is unwrapped, and ends in `w`.
  abbrev pub UnwrapFails : W → Type 0
  UnwrapFails w =
      ((o : OpenOptions) × (p : ℕ) × (v : W) × (e : IoError) × (open_with o p v ≡ (err e, w)))
      ⊎ ((f : File) × (v : W) × (e : IoError) × (metadata_len f v ≡ (err e, w)))

  -- A call fails with `e` whose error is passed on, and ends in `w`.
  abbrev pub CallFails : IoError → W → Type 0
  CallFails e w =
      ((f : File) × (n : ℕ) × (v : W) × (set_len f n v ≡ (err e, w)))
      ⊎ ((f : File) × (v : W) × (map f v ≡ (err e, w)))

  -- What is returned has the property; a panic or an error has its cause in the system.
  abbrev pub Returned : {A : Type 0} → (A → Type 0) → Outcome (Result A IoError) × W → Type 0
  Returned P (panics, w) = UnwrapFails w
  Returned P (returns (err e), w) = CallFails e w
  Returned P (returns (ok a), w) = P a
