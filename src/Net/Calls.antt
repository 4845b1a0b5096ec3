-- ===== src/Net/Calls.antt =====
-- Calls that change a world of type `W` and give a value or an error: what an `async fn` with a
-- `Result` does when it is awaited.
use future_aio.Base.{Result, ok, err}

abbrev pub Calls : Type 0 → Type 0 → Type 0 → Type 0
Calls W E A = W → Result A E × W

abbrev pub pure : {W E A : Type 0} → A → Calls W E A
pure a w = (ok a, w)

abbrev pub fail : {W E A : Type 0} → E → Calls W E A
fail e w = (err e, w)

abbrev pub followed : {W E A B : Type 0} → (A → Calls W E B) → Result A E × W → Result B E × W
followed f (ok a, w) = f a w
followed f (err e, w) = (err e, w)

-- The operator `?`.
infixl 5 ◌>>=◌ ◌>>◌
abbrev pub ◌>>=◌ : {W E A B : Type 0} → Calls W E A → (A → Calls W E B) → Calls W E B
m >>= f = λ w. followed f (m w)

abbrev pub ◌>>◌ : {W E B : Type 0} → Calls W E (Unit {0}) → Calls W E B → Calls W E B
m >> k = m >>= λ _. k

abbrev pub mapped : {W E F A : Type 0} → (E → F) → Result A E × W → Result A F × W
mapped f (ok a, w) = (ok a, w)
mapped f (err e, w) = (err (f e), w)

-- `Result::map_err`.
abbrev pub map_err : {W E F A : Type 0} → (E → F) → Calls W E A → Calls W F A
map_err f m = λ w. mapped f (m w)

abbrev pub lifted : {W E A : Type 0} → Result A E → Calls W E A
lifted (ok a) = pure a
lifted (err e) = fail e
