-- ===== src/FileSlice.antt =====
-- `AsyncFileSlice` of src/file_slice.rs.
use future_aio.Base.{ℕ, Bool, ◌==◌}

pub record AsyncFileSlice : Type 0 where
  pub fd : ℕ
  pub position : ℕ
  pub len : ℕ

unfoldable pub new : ℕ → ℕ → ℕ → AsyncFileSlice
new fd position len = record { fd = fd; position = position; len = len }

unfoldable pub is_empty : AsyncFileSlice → Bool
is_empty s = s.len == 0

pub as_raw_fd : AsyncFileSlice → ℕ
as_raw_fd s = s.fd
