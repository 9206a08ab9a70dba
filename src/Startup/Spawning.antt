-- ===== src/Startup/Spawning.antt =====
-- The external command: its settings in ftpl_really_init, parse_spawn_limits, and the environment
-- that run_spawn_exec gives it, of src/libfaketime.c.
pub mod Laws
use Prim.Native.String.{String}
use libfaketime.Base.{
  Bool, true, false, not, ◌||◌, Option, none, some, List, [], ◌∷◌, ℕ, suc, ◌-◌, leb, length, take,
  if◌then◌else◌,
}
use libfaketime.Base.Int.{ℤ}
use libfaketime.Base.Text.{codes, starts_with}
use libfaketime.Floats.{Floats}
use libfaketime.Outcome.{Outcome, ok, exits, ◌>>=◌}
use libfaketime.Process.{Spawn}
use libfaketime.World.{World}
use libfaketime.Seeded.{Converted}
use libfaketime.Settings.{long_or}

-- FT_SPAWN_VALUE_SIZE, FT_SPAWN_MAX_ARGS and FT_SPAWN_MAX_ENV
abbrev pub value_size : ℕ
value_size = 1024

abbrev pub max_env : ℕ
max_env = 4096

-- FAKETIME_SPAWN_ARG_%u for 1 ... FT_SPAWN_MAX_ARGS
abbrev pub argument_names : List String
argument_names =
    "FAKETIME_SPAWN_ARG_1" ∷ "FAKETIME_SPAWN_ARG_2" ∷ "FAKETIME_SPAWN_ARG_3"
    ∷ "FAKETIME_SPAWN_ARG_4" ∷ "FAKETIME_SPAWN_ARG_5" ∷ "FAKETIME_SPAWN_ARG_6"
    ∷ "FAKETIME_SPAWN_ARG_7" ∷ "FAKETIME_SPAWN_ARG_8" ∷ []

-- ft_spawn_target; ft_spawn_exec with ft_spawn_argv behind it, if spawn_exec_support
pub record Command : Type 0 where
  pub target : List ℕ
  pub exec : Option (List ℕ × List (List ℕ))

-- The loop over the arguments: they have to be there without a gap, and to fit. `missing` is
-- missing_argument.
pub arguments : List (Option (List ℕ)) → Bool → Outcome (List (List ℕ))
arguments [] missing = ok []
arguments (none ∷ values) missing = arguments values true
arguments (some a ∷ values) missing = do
  rest ← arguments values missing
  if missing || leb value_size (length a) then exits 1 else ok (a ∷ rest)

-- is_spawn_environment_entry
unfoldable pub is_spawn_environment_entry : List ℕ → Bool
is_spawn_environment_entry entry = starts_with (codes "FAKETIME_SPAWN_") entry

-- The loop of run_spawn_exec over environ: ft_spawn_env, or `none` if it has no room.
unfoldable pub spawn_environment : List (List ℕ) → ℕ → Option (List (List ℕ))
unfolding is_spawn_environment_entry
spawn_environment [] count = some []
spawn_environment (entry ∷ environ) count =
    let passed = not (is_spawn_environment_entry entry) in
    let rest = spawn_environment environ (if passed then suc count else count) in
    if passed
    then (if leb max_env (suc count)
        then none
        else elim rest [ none ↦ none | some entries ↦ some (entry ∷ entries) ])
    else rest

-- The loop around waitpid: how often it is called; true is a call that a signal interrupts.
pub waitpid_calls : List Bool → ℕ
waitpid_calls [] = 1
waitpid_calls (true ∷ events) = suc (waitpid_calls events)
waitpid_calls (false ∷ events) = 1

-- run_spawn_exec: the environment of posix_spawn, if it is called, and the calls of waitpid.
-- `spawns` is whether posix_spawn succeeds.
unfoldable pub run_spawn_exec : List (List ℕ) → Bool → List Bool → Option (List (List ℕ)) × ℕ
unfolding spawn_environment waitpid_calls
run_spawn_exec environ spawns events =
    let env = spawn_environment environ 0 in
    (env, elim env [ none ↦ 0 | some e ↦ if spawns then waitpid_calls events else 0 ])

module _ (F : Floats) (w : World F) (strtol : List ℕ → Converted ℤ) where
  abbrev values_of : List String → List (Option (List ℕ))
  values_of [] = []
  values_of (name ∷ names) = w.getenv name ∷ values_of names

  -- FAKETIME_SPAWN_TARGET and FAKETIME_SPAWN_EXEC
  pub spawn_command : Outcome (Option Command)
  unfolding arguments
  spawn_command = elim (w.getenv "FAKETIME_SPAWN_EXEC") [
    | none ↦ elim (w.getenv "FAKETIME_SPAWN_TARGET") [
      | none ↦ ok none
      | some t ↦ ok (some (record { target = take (value_size - 1) t; exec = none }))
    ]
    | some [] ↦ exits 1
    | some (c ∷ cs) ↦ elim (w.getenv "FAKETIME_SPAWN_TARGET") [
      | some t ↦ exits 1
      | none ↦
          if leb value_size (length (c ∷ cs))
          then exits 1
          else (arguments (values_of argument_names) false >>= λ args.
              ok (some (record { target = []; exec = some (c ∷ cs, args) })))
    ]
  ]

  -- parse_spawn_limits
  pub spawn_limits : Spawn → Outcome Spawn
  spawn_limits s = do
    secs ← long_or strtol s.secs (w.getenv "FAKETIME_SPAWN_SECONDS")
    ncalls ← long_or strtol s.ncalls (w.getenv "FAKETIME_SPAWN_NUMCALLS")
    ok (record s { secs = secs; ncalls = ncalls })

  spawn_for : Option Command → Spawn → Outcome Spawn
  unfolding spawn_limits
  spawn_for none s = if s.support then spawn_limits s else ok s
  spawn_for (some c) s = spawn_limits (record s { support = true })

  -- The command and spawnsupport with its limits.
  pub spawn_settings : Spawn → Outcome (Option Command × Spawn)
  unfolding spawn_command spawn_for
  spawn_settings s = do c ← spawn_command; s' ← spawn_for c s; ok (c, s')
