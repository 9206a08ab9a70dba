-- ===== src/Wrapper/Environment.antt =====
-- The environment of a process, as setenv, unsetenv and getenv of the C library read and write it
-- for src/faketime.c.
use libfaketime.Base.{
  ℕ, Bool, true, false, Option, none, some, List, [], ◌∷◌, if◌then◌else◌, ◌≡◌, refl, arith,
  Bool-cases, inl, inr, ◌∙◌, ◌&&◌,
}
use libfaketime.Base.Text.{same_text}
use libfaketime.Base.Text.Laws.{same_text_eq}

-- The names with their values.
abbrev pub Environment : Type 0
Environment = List (List ℕ × List ℕ)

unfoldable pub getenv : List ℕ → Environment → Option (List ℕ)
getenv name [] = none
getenv name ((n, value) ∷ env) =
    let rest = getenv name env in if same_text name n then some value else rest

unfoldable pub unsetenv : List ℕ → Environment → Environment
unsetenv name [] = []
unsetenv name ((n, value) ∷ env) =
    let rest = unsetenv name env in if same_text name n then rest else (n, value) ∷ rest

-- With the argument `overwrite`.
abbrev pub setenv : List ℕ → List ℕ → Environment → Environment
setenv name value env = (name, value) ∷ unsetenv name env

-- Another variable keeps its value.
getenv-unsetenv-other :
    (name other : List ℕ) (env : Environment)
    → same_text other name ≡ false
    → getenv other (unsetenv name env) ≡ getenv other env
unfolding getenv unsetenv
getenv-unsetenv-other name other [] h = refl
getenv-unsetenv-other name other ((n, value) ∷ env) h = elim (Bool-cases (same_text name n)) [
  | inl same ↦
      let apart : same_text other n ≡ false = rw⁻¹ (same_text_eq name n same) h in
      ground (arith, same, apart, getenv-unsetenv-other name other env h)
  | inr differs ↦ ground (arith, differs, getenv-unsetenv-other name other env h)
]

pub getenv-setenv :
    (name other value : List ℕ) (env : Environment)
    → getenv other (setenv name value env)
      ≡ (if same_text other name then some value else getenv other env)
unfolding getenv
getenv-setenv name other value env = elim (Bool-cases (same_text other name)) [
  | inl same ↦ rw same refl
  | inr differs ↦ rw differs (getenv-unsetenv-other name other env differs)
]

-- A variable that is set under a condition.
pub getenv-if :
    (b : Bool) (name other value : List ℕ) (env : Environment)
    → getenv other (if b then setenv name value env else env)
      ≡ (if same_text other name && b then some value else getenv other env)
getenv-if true name other value env = elim (Bool-cases (same_text other name)) [
  | inl same ↦ getenv-setenv name other value env ∙ rw same refl
  | inr differs ↦ getenv-setenv name other value env ∙ rw differs refl
]
getenv-if false name other value env = elim (Bool-cases (same_text other name)) [
  | inl same ↦ rw same refl
  | inr differs ↦ rw differs refl
]
