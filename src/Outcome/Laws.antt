-- ===== src/Outcome/Laws.antt =====
-- What a run returns, if it does not end the process.
use libfaketime.Base.{◌≡◌, refl, Bool, true, false, if◌then◌else◌, Option, none, some}
use libfaketime.Outcome.{Outcome, ok, exits, ◌>>=◌}

-- The value that is returned, if one is, satisfies P.
abbrev pub AllOk {ℓ} : {A : Type ℓ} → (A → Type 0) → Outcome A → Type 0
AllOk P (ok a) = P a
AllOk P (exits n) = Unit

module _ {ℓ κ} {A : Type ℓ} {B : Type κ} where
  pub AllOk-bind :
      (P : A → Type 0) (Q : B → Type 0) (m : Outcome A) (f : A → Outcome B)
      → AllOk P m
      → ((a : A) → P a → AllOk Q (f a))
      → AllOk Q (m >>= f)
  AllOk-bind P Q (ok a) f h step = step a h
  AllOk-bind P Q (exits n) f h step = tt

  -- Whatever the first run returns.
  pub AllOk-then :
      (Q : B → Type 0) (m : Outcome A) (f : A → Outcome B)
      → ((a : A) → AllOk Q (f a))
      → AllOk Q (m >>= f)
  AllOk-then Q (ok a) f step = step a
  AllOk-then Q (exits n) f step = tt

  -- Two continuations that agree on what is returned.
  pub bind-AllOk :
      (P : A → Type 0) (m : Outcome A) (f g : A → Outcome B)
      → AllOk P m
      → ((a : A) → P a → f a ≡ g a)
      → (m >>= f) ≡ (m >>= g)
  bind-AllOk P (ok a) f g h same = same a h
  bind-AllOk P (exits n) f g h same = refl

module _ {ℓ} {A : Type ℓ} (P : A → Type 0) where
  pub AllOk-if : (b : Bool) (m n : Outcome A) → AllOk P m → AllOk P n → AllOk P (if b then m else n)
  AllOk-if true m n h h' = h
  AllOk-if false m n h h' = h'

  pub AllOk-option {κ} :
      {B : Type κ} (b : Option B) (m : Outcome A) (f : B → Outcome A)
      → AllOk P m
      → ((x : B) → b ≡ some x → AllOk P (f x))
      → AllOk P (elim b [ none ↦ m | some x ↦ f x ])
  AllOk-option none m f h step = h
  AllOk-option (some x) m f h step = step x refl
