-- ===== src/Startup/Spawning/Laws.antt =====
-- The environment of the external command, of run_spawn_exec in src/libfaketime.c.
use libfaketime.Base.{
  zero, false, ℕ, suc, Bool, List, [], ◌∷◌, some, none, ◌+◌, ◌<◌, ◌≤◌, ◌≡◌, refl, length, ltb, inl,
  inr, Bool-cases, arith, if◌then◌else◌,
}
use libfaketime.Base.{Option, true}
use libfaketime.Base.Int.{ℤ}
use libfaketime.Floats.{Floats}
use libfaketime.Outcome.Laws.{AllOk, AllOk-then, AllOk-bind, AllOk-if}
use libfaketime.Process.{Spawn}
use libfaketime.World.{World}
use libfaketime.Seeded.{Converted}
use libfaketime.Settings.{long_or}
use libfaketime.Clock.Steps.Window.{RunOnce}
use libfaketime.Startup.Spawning.{
  codes, starts_with, Command, spawn_command, spawn_for, spawn_limits, spawn_settings,
  is_spawn_environment_entry, spawn_environment, max_env, run_spawn_exec, waitpid_calls,
}

-- The entries that do not begin with FAKETIME_SPAWN_, in their order.
abbrev pub inherited : List (List ℕ) → List (List ℕ)
inherited [] = []
inherited (e ∷ es) =
    let rest = inherited es in if starts_with (codes "FAKETIME_SPAWN_") e then rest else e ∷ rest

spawn_environment-inherited :
    (environ : List (List ℕ)) (count : ℕ)
    → count + length (inherited environ) < max_env
    → spawn_environment environ count ≡ some (inherited environ)
unfolding spawn_environment is_spawn_environment_entry
spawn_environment-inherited [] count h = refl
spawn_environment-inherited (e ∷ es) count h =
    elim (Bool-cases (starts_with (codes "FAKETIME_SPAWN_") e)) [
      | inl own ↦ ground (arith, own, h, spawn_environment-inherited es count)
      | inr other ↦ ground (arith, other, h, spawn_environment-inherited es (suc count))
    ]

spawn_environment-full :
    (environ : List (List ℕ)) (count : ℕ)
    → count < max_env
    → max_env ≤ count + length (inherited environ)
    → spawn_environment environ count ≡ none
unfolding spawn_environment is_spawn_environment_entry
spawn_environment-full [] count hc h = absurd (omega arith)
spawn_environment-full (e ∷ es) count hc h =
    elim (Bool-cases (starts_with (codes "FAKETIME_SPAWN_") e)) [
      | inl own ↦ ground (arith, own, h, spawn_environment-full es count)
      | inr other ↦ ground (arith, other, h, spawn_environment-full es (suc count))
    ]

-- What becomes of the calls of waitpid: so many are interrupted, and the next one is not.
abbrev pub interrupted : ℕ → List Bool → List Bool
interrupted zero later = false ∷ later
interrupted (suc n) later = true ∷ interrupted n later

waitpid_calls-interrupted :
    (n : ℕ) (later : List Bool) → waitpid_calls (interrupted n later) ≡ suc n
unfolding waitpid_calls
waitpid_calls-interrupted zero later = refl
waitpid_calls-interrupted (suc n) later = rw (waitpid_calls-interrupted n later) refl

-- run_spawn_exec: the command is run with the entries of the environment that do not begin with
-- FAKETIME_SPAWN_, in their order, if these are fewer than FT_SPAWN_MAX_ENV; otherwise it is not
-- run. If posix_spawn succeeds, waitpid is called once more than signals interrupt it; otherwise it
-- is not called.
pub run_spawn_exec-inherited :
    (environ : List (List ℕ)) (spawns : Bool) (interrupts : ℕ) (later : List Bool)
    → run_spawn_exec environ spawns (interrupted interrupts later) ≡ (
        if ltb (length (inherited environ)) max_env
        then (some (inherited environ), if spawns then suc interrupts else 0)
        else (none, 0))
unfolding run_spawn_exec
run_spawn_exec-inherited environ spawns interrupts later = ground (
  arith,
  waitpid_calls-interrupted interrupts later,
  spawn_environment-inherited environ 0,
  spawn_environment-full environ 0,
)

module _ (F : Floats) (w : World F) (strtol : List ℕ → Converted ℤ) where
  spawn_limits-RunOnce : (s : Spawn) → RunOnce s → AllOk RunOnce (spawn_limits F w strtol s)
  unfolding spawn_limits
  spawn_limits-RunOnce s h =
      AllOk-then RunOnce (long_or strtol s.secs (w.getenv "FAKETIME_SPAWN_SECONDS")) _ (λ secs.
        AllOk-then RunOnce (long_or strtol s.ncalls (w.getenv "FAKETIME_SPAWN_NUMCALLS")) _
          (λ ncalls. h))

  spawn_for-RunOnce :
      (c : Option Command) (s : Spawn) → RunOnce s → AllOk RunOnce (spawn_for F w strtol c s)
  unfolding spawn_for
  spawn_for-RunOnce none s h = AllOk-if RunOnce s.support _ _ (spawn_limits-RunOnce s h) h
  spawn_for-RunOnce (some c) s h = spawn_limits-RunOnce (record s { support = true }) h

  -- The settings run no command.
  pub spawn_settings-RunOnce :
      (s : Spawn) → RunOnce s → AllOk (λ r. RunOnce r.1) (spawn_settings F w strtol s)
  unfolding spawn_settings
  spawn_settings-RunOnce s h =
      AllOk-then (λ r. RunOnce r.1) (spawn_command F w strtol) _
        (λ c.
          AllOk-bind RunOnce (λ r. RunOnce r.1) (spawn_for F w strtol c s) _
            (spawn_for-RunOnce c s h) (λ s' h'. h'))
