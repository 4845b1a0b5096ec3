-- ===== src/Base/Anyhow.antt =====
-- `anyhow`: errors with notes, and the operator `?`.
use Prim.Native.String.{String}
use mathlib.Core.Path.{◌≡◌, refl}
use future_aio.Base.Io.{Result, ok, err, Outcome, returns}

-- `anyhow::Error`: an error, an error with a context, or a message.
pub data Failure (E : Type 0) : Type 0 where
  caused : E → Failure E
  in_context : String → Failure E → Failure E
  message : String → Failure E

-- The operator `?` on a `Result`.
abbrev pub try {ℓ κ ι} :
    {A : Type ℓ} {B : Type κ} {F : Type ι} → Result A F → (A → Result B F) → Result B F
try (ok a) f = f a
try (err e) f = err e

-- `?` where the function may panic further on.
abbrev pub attempt {ℓ κ ι} :
    {A : Type ℓ} {B : Type κ} {F : Type ι}
    → Result A F
    → (A → Outcome (Result B F))
    → Outcome (Result B F)
attempt (ok a) f = f a
attempt (err e) f = returns (err e)

module _ {E A : Type 0} where
  -- `Context::context`.
  abbrev pub context : String → Result A E → Result A (Failure E)
  context note (ok a) = ok a
  context note (err e) = err (in_context note (caused e))

  -- The conversion that `?` makes.
  abbrev pub from_error : Result A E → Result A (Failure E)
  from_error (ok a) = ok a
  from_error (err e) = err (caused e)

  -- `map_err(|err| err.context(note))` on a failure.
  abbrev pub more_context : String → Result A (Failure E) → Result A (Failure E)
  more_context note (ok a) = ok a
  more_context note (err e) = err (in_context note e)

-- What led to a success.
pub try_succeeds {ℓ κ ι} :
    {A : Type ℓ} {B : Type κ} {F : Type ι} (r : Result A F) (f : A → Result B F) (b : B)
    → try r f ≡ ok b
    → (a : A) × (r ≡ ok a) × (f a ≡ ok b)
try_succeeds (ok a) f b h = (a, refl, h)
try_succeeds (err e) f b h = cc

module _ {E A : Type 0} where
  pub context_succeeds : (note : String) (r : Result A E) (a : A) → context note r ≡ ok a → r ≡ ok a
  context_succeeds note (ok b) a h = cc
  context_succeeds note (err e) a h = cc

  pub from_error_succeeds : (r : Result A E) (a : A) → from_error r ≡ ok a → r ≡ ok a
  from_error_succeeds (ok b) a h = cc
  from_error_succeeds (err e) a h = cc
