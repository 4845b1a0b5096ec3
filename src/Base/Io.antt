-- ===== src/Base/Io.antt =====
-- What the source takes from Rust and its standard library: results, polls, panics, and the 64-bit
-- arithmetic whose overflow depends on the build.
use Prim.Native.Nat.{ℕ, ◌+◌, ◌-◌, ◌%◌, ◌^◌, ◌≤◌, ◌<◌}
use mathlib.Core.Path.{◌≡◌, refl}
use mathlib.Core.Logic.{◌⊎◌, inl, inr}
use native.Mathlib.Omega.{arith}
use future_aio.Base.Tests.{ltb, leb, if◌then◌else◌}

pub data Result {ℓ κ} (A : Type ℓ) (E : Type κ) : Type (ℓ ⊔ κ) where
  ok : A → Result A E
  err : E → Result A E

pub Result-cases {ℓ κ} :
    {A : Type ℓ} {E : Type κ} (r : Result A E) → ((a : A) × (r ≡ ok a)) ⊎ ((e : E) × (r ≡ err e))
Result-cases (ok a) = inl (a, refl)
Result-cases (err e) = inr (e, refl)

pub ok-injective {ℓ κ} :
    {A : Type ℓ} {E : Type κ} {a b : A} → ◌≡◌ {A = Result A E} (ok a) (ok b) → a ≡ b
ok-injective h = cc

pub data Poll {ℓ} (A : Type ℓ) : Type ℓ where
  pending : Poll A
  ready : A → Poll A

-- `std::io::Error` by its kind; `os` carries the code of any other failure.
pub data IoError : Type 0 where
  unexpected_eof write_zero would_block connection_refused invalid_input other : IoError
  os : ℕ → IoError

-- A call returns or unwinds.
pub data Outcome {ℓ} (A : Type ℓ) : Type ℓ where
  returns : A → Outcome A
  panics : Outcome A

pub returns-injective {ℓ} : {A : Type ℓ} {a b : A} → returns a ≡ returns b → a ≡ b
returns-injective h = cc

infixl 5 ◌>>=◌ ◌>>◌
abbrev pub ◌>>=◌ {ℓ κ} : {A : Type ℓ} {B : Type κ} → Outcome A → (A → Outcome B) → Outcome B
returns a >>= f = f a
panics >>= f = panics

abbrev pub ◌>>◌ {ℓ} : {B : Type ℓ} → Outcome (Unit {0}) → Outcome B → Outcome B
m >> k = m >>= λ _. k

-- Debug builds check the arithmetic for overflow, release builds wrap.
pub data Build : Type 0 where
  debug release : Build

-- `cfg(target_arch)`: wasm32, or any other.
pub data Target : Type 0 where
  not_wasm32 wasm32 : Target

abbrev pub u64_mod : ℕ
u64_mod = 2 ^ 64

abbrev pub u64_max : ℕ
u64_max = 2 ^ 64 - 1

abbrev pub overflowed : Build → ℕ → Outcome ℕ
overflowed debug wrapped = panics
overflowed release wrapped = returns wrapped

-- `a + b` and `a - b` on u64, and on usize of a 64-bit target.
abbrev pub add_u64 : Build → ℕ → ℕ → Outcome ℕ
add_u64 build a b =
    if ltb (a + b) u64_mod then returns (a + b) else overflowed build ((a + b) % u64_mod)

abbrev pub sub_u64 : Build → ℕ → ℕ → Outcome ℕ
sub_u64 build a b =
    if leb b a then returns (a - b) else overflowed build ((a + u64_mod - b) % u64_mod)

pub add_u64-returns :
    (build : Build) (a b : ℕ) → a + b < u64_mod → add_u64 build a b ≡ returns (a + b)
add_u64-returns build a b h = ground arith

pub sub_u64-returns : (build : Build) (a b : ℕ) → b ≤ a → sub_u64 build a b ≡ returns (a - b)
sub_u64-returns build a b h = ground arith
