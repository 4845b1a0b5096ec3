-- ===== src/Fs/Mmap/Writes.antt =====
-- What `write_bytes` does to the bytes and to the lock.
use Prim.Native.Nat.add
use future_aio.Base.{
  ℕ, zero, suc, ◌+◌, ◌≤◌, ◌<◌, ◌≡◌, refl, ap, ◌∙◌, ◌%◌, true, false, List, [], ◌∷◌, ◌++◌, length,
  take, drop, Result, IoError, Outcome, returns, panics, Build, debug, release, leb, if◌then◌else◌,
  Bool-cases, ltb, ltb→lt, ltb→ge, ge→ltb, leb→le, gt→leb, inl, inr, u64_mod, add_u64,
  add_u64-returns, arith,
}
use future_aio.Fs.Mmap.{
  MemoryMappedMutFile, overwrite, in_range, written, locked, inner, write_bytes, flush_with,
}

overwrite-zero :
    (bs xs : List ℕ) → length bs ≤ length xs → overwrite zero bs xs ≡ bs ++ drop (length bs) xs
unfolding overwrite
overwrite-zero [] xs h = refl
overwrite-zero (b ∷ bs) [] h = absurd (omega arith)
overwrite-zero (b ∷ bs) (x ∷ xs) h = ap (◌∷◌ b) (overwrite-zero bs xs (omega arith))

overwrite-append :
    (pos : ℕ) (bs xs : List ℕ)
    → pos + length bs ≤ length xs
    → overwrite pos bs xs ≡ take pos xs ++ (bs ++ drop (pos + length bs) xs)
unfolding overwrite
overwrite-append zero bs xs h = rw add.zero (overwrite-zero bs xs (omega arith))
overwrite-append (suc pos) bs [] h = absurd (omega arith)
overwrite-append (suc pos) bs (x ∷ xs) h =
    rw add.suc (ap (◌∷◌ x) (overwrite-append pos bs xs (omega arith)))

in_range_below : (len pos end : ℕ) → pos ≤ end → in_range len pos end ≡ leb end len
unfolding in_range
in_range_below len pos end h = ground arith

in_range_wrapped : (len pos end : ℕ) → end < pos → in_range len pos end ≡ false
unfolding in_range
in_range_wrapped len pos end h = ground arith

-- What a write comes to: the bytes in their place, or a panic that poisons the lock.
abbrev pub outcome : MemoryMappedMutFile → ℕ → List ℕ → Outcome (Unit {0}) × MemoryMappedMutFile
outcome m pos bs =
    if leb (pos + length bs) (length m.bytes)
    then (
      returns tt,
      record m { bytes = take pos m.bytes ++ (bs ++ drop (pos + length bs) m.bytes) },
    )
    else (panics, record m { poisoned = true })

fitting-outcome :
    (m : MemoryMappedMutFile) (pos : ℕ) (bs : List ℕ)
    → written m pos bs (returns (pos + length bs)) ≡ outcome m pos bs
unfolding written
fitting-outcome m pos bs = elim (Bool-cases (leb (pos + length bs) (length m.bytes))) [
  | inl fits ↦
      rw
        (
          in_range_below (length m.bytes) pos (pos + length bs) (omega arith),
          fits,
          overwrite-append pos bs m.bytes (leb→le (pos + length bs) (length m.bytes) fits),
        )
        refl
  | inr beyond ↦
      rw (in_range_below (length m.bytes) pos (pos + length bs) (omega arith), beyond) refl
]

overflow-outcome :
    (build : Build) (m : MemoryMappedMutFile) (pos : ℕ) (bs : List ℕ)
    → pos < u64_mod
    → length bs < u64_mod
    → length m.bytes < u64_mod
    → u64_mod ≤ pos + length bs
    → written m pos bs (add_u64 build pos (length bs)) ≡ outcome m pos bs
unfolding written
overflow-outcome debug m pos bs p b l h = ground arith
overflow-outcome release m pos bs p b l h =
    rw
      (
        ge→ltb (pos + length bs) u64_mod h,
        in_range_wrapped (length m.bytes) pos ((pos + length bs) % u64_mod) (omega arith),
        gt→leb (pos + length bs) (length m.bytes) (omega arith),
      )
      refl

range-outcome :
    (build : Build) (m : MemoryMappedMutFile) (pos : ℕ) (bs : List ℕ)
    → pos < u64_mod
    → length bs < u64_mod
    → length m.bytes < u64_mod
    → written m pos bs (add_u64 build pos (length bs)) ≡ outcome m pos bs
range-outcome build m pos bs p b l = elim (Bool-cases (ltb (pos + length bs) u64_mod)) [
  | inl small ↦
      ap (written m pos bs)
        (add_u64-returns build pos (length bs) (ltb→lt (pos + length bs) u64_mod small))
      ∙ fitting-outcome m pos bs
  | inr large ↦ overflow-outcome build m pos bs p b l (ltb→ge (pos + length bs) u64_mod large)
]

-- In either build, on a map whose lock is not poisoned, and for numbers of 64 bits, `write_bytes`
-- puts the bytes in their place and changes no others, if they end within the map; otherwise it
-- panics, nothing is written, and the lock is poisoned, also where their end overflows. From then
-- on every write and every flush panics.
pub write_bytes-outcome :
    (build : Build) (m : MemoryMappedMutFile) (pos : ℕ) (bs : List ℕ) (later : ℕ) (more : List ℕ)
    (flush : List ℕ → Result (Unit {0}) IoError)
    → m.poisoned ≡ false
    → pos < u64_mod
    → length bs < u64_mod
    → length m.bytes < u64_mod
    → (write_bytes build m pos bs ≡ outcome m pos bs)
      × (write_bytes build (record m { poisoned = true }) later more
          ≡ (panics, record m { poisoned = true }))
      × (flush_with flush (record m { poisoned = true }) ≡ panics)
unfolding write_bytes flush_with inner locked
write_bytes-outcome build m pos bs later more flush sound p b l = (
  ap
        (λ dead.
          locked (λ _. written m pos bs (add_u64 build pos (length bs))) m
            (if dead then panics else returns m.bytes))
        sound
      ∙ range-outcome build m pos bs p b l,
  refl,
  refl,
)
