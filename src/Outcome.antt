-- ===== src/Outcome.antt =====
-- A run of code that may end the process: `exit(status)` is a value.
pub mod Laws
use libfaketime.Base.{ℕ}

pub data Outcome {ℓ} (A : Type ℓ) : Type ℓ where
  ok : A → Outcome A
  exits : ℕ → Outcome A

infixl 5 ◌>>=◌
abbrev pub ◌>>=◌ {ℓ κ} : {A : Type ℓ} {B : Type κ} → Outcome A → (A → Outcome B) → Outcome B
ok a >>= f = f a
exits n >>= f = exits n
