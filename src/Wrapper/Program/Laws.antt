-- ===== src/Wrapper/Program/Laws.antt =====
-- What main of src/faketime.c gives to the program that it runs.
use libfaketime.Base.{
  not, ℕ, Bool, true, false, ◌&&◌, ◌||◌, Option, none, some, List, ◌∷◌, if◌then◌else◌, ◌≡◌, ◌≢◌,
  ◌∙◌, refl, arith, Bool-cases, inl, inr,
}
use libfaketime.Base.Text.{codes, same_text}
use libfaketime.SharedMemory.{shared_objects, sem_name, shm_name, returned, exited, Ending}
use libfaketime.SharedMemory.RoundTrip.{parse_shared_objects-shared_objects}
use libfaketime.Shared.Names.{parse_shared_objects}
use libfaketime.Wrapper.Environment.{Environment, getenv, setenv, getenv-setenv, getenv-if}
use libfaketime.Wrapper.Life.{Answers, Held, Child, not_forked, not_waited, ended, create_objects}
use libfaketime.Wrapper.Life.Laws.{
  all_created, reported, run_wrapper_leaves, create_objects-returned,
}
use libfaketime.Wrapper.Switches.{Options, ready, parse_options}
use libfaketime.Wrapper.Program.{
  Machine, main, initial, chosen_value, program_environment, switch_variables, pid_variable,
  launched, forked, preload_value, library_path, run_parsed, with_program, run_with,
}

-- The variables that main sets.
abbrev pub is_set_by_main : List ℕ → Bool
is_set_by_main name =
    same_text name (codes "FAKETIME")
    || (same_text name (codes "FAKETIME_SHARED")
        || (same_text name (codes "FAKETIME_FAKEPID")
            || (same_text name (codes "LD_PRELOAD")
                || (same_text name (codes "FAKETIME_DONT_FAKE_MONOTONIC")
                    || same_text name (codes "FAKETIME_DISABLE_SHM")))))

abbrev pub or_else : Option (List ℕ) → Option (List ℕ) → Option (List ℕ)
or_else none b = b
or_else (some a) b = some a

-- The environment `e` of the program, from that of main, where FAKETIME has the value `v`.
pub record Given (m : Machine) (o : Options) (v : List ℕ) (env e : Environment) : Type 0 where
  pub request : getenv (codes "FAKETIME") e ≡ some v
  pub objects : getenv (codes "FAKETIME_SHARED") e ≡ some (shared_objects m.pid)
  pub library :
      getenv (codes "LD_PRELOAD") e
      ≡ some (preload_value (library_path m.libdir o.use_mt) (getenv (codes "LD_PRELOAD") env))
  pub number :
      getenv (codes "FAKETIME_FAKEPID") e ≡ or_else o.pid (getenv (codes "FAKETIME_FAKEPID") env)
  pub monotonic : getenv (codes "FAKETIME_DONT_FAKE_MONOTONIC") e ≡ (
      if o.exclude_monotonic
      then some (codes "1")
      else getenv (codes "FAKETIME_DONT_FAKE_MONOTONIC") env)
  pub alone :
      getenv (codes "FAKETIME_DISABLE_SHM") e
      ≡ (if o.disable_shm then some (codes "1") else getenv (codes "FAKETIME_DISABLE_SHM") env)
  pub others : (name : List ℕ) → is_set_by_main name ≡ false → getenv name e ≡ getenv name env

switch_variables-getenv :
    (o : Options) (env : Environment) (name : List ℕ)
    → getenv name (switch_variables o env) ≡ (
        if same_text name (codes "FAKETIME_DISABLE_SHM") && o.disable_shm
        then some (codes "1")
        else if same_text name (codes "FAKETIME_DONT_FAKE_MONOTONIC") && o.exclude_monotonic
        then some (codes "1")
        else getenv name env)
unfolding switch_variables
switch_variables-getenv o env name =
    let quiet = codes "FAKETIME_DONT_FAKE_MONOTONIC" in
    getenv-if o.disable_shm (codes "FAKETIME_DISABLE_SHM") name (codes "1")
      (if o.exclude_monotonic then setenv quiet (codes "1") env else env)
    ∙ rw (getenv-if o.exclude_monotonic quiet name (codes "1") env) refl

pid_variable-getenv :
    (pid : Option (List ℕ)) (env : Environment) (name : List ℕ)
    → getenv name (pid_variable pid env) ≡ (
        if same_text name (codes "FAKETIME_FAKEPID")
        then or_else pid (getenv name env)
        else getenv name env)
unfolding pid_variable
pid_variable-getenv none env name = elim (Bool-cases (same_text name (codes "FAKETIME_FAKEPID"))) [
  | inl same ↦ rw same refl
  | inr differs ↦ rw differs refl
]
pid_variable-getenv (some n) env name = getenv-setenv (codes "FAKETIME_FAKEPID") name n env

module _ (m : Machine) (o : Options) (v : List ℕ) (env : Environment) where
  abbrev named : Environment
  named = pid_variable o.pid (setenv (codes "FAKETIME") v (switch_variables o env))

  abbrev shared : Environment
  shared = setenv (codes "FAKETIME_SHARED") (shared_objects m.pid) named

  named-getenv :
      (name : List ℕ)
      → let before =
          (if same_text name (codes "FAKETIME")
            then some v
            else getenv name (switch_variables o env)) in
        getenv name named
        ≡ (if same_text name (codes "FAKETIME_FAKEPID") then or_else o.pid before else before)
  named-getenv name =
      pid_variable-getenv o.pid (setenv (codes "FAKETIME") v (switch_variables o env)) name
      ∙ simp (getenv-setenv (codes "FAKETIME") name v (switch_variables o env))

  preload_unchanged : getenv (codes "LD_PRELOAD") shared ≡ getenv (codes "LD_PRELOAD") env
  preload_unchanged =
      getenv-setenv (codes "FAKETIME_SHARED") (codes "LD_PRELOAD") (shared_objects m.pid) named
      ∙ (named-getenv (codes "LD_PRELOAD") ∙ switch_variables-getenv o env (codes "LD_PRELOAD"))

  program_environment-getenv :
      (name : List ℕ)
      → getenv name (program_environment m o v env) ≡ (
          if same_text name (codes "LD_PRELOAD")
          then some
              (preload_value (library_path m.libdir o.use_mt) (getenv (codes "LD_PRELOAD") env))
          else if same_text name (codes "FAKETIME_SHARED")
          then some (shared_objects m.pid)
          else getenv name named)
  unfolding program_environment
  program_environment-getenv name =
      getenv-setenv (codes "LD_PRELOAD") name
        (preload_value (library_path m.libdir o.use_mt) (getenv (codes "LD_PRELOAD") shared)) shared
      ∙ rw preload_unchanged
          (rw (getenv-setenv (codes "FAKETIME_SHARED") name (shared_objects m.pid) named) refl)

  program_environment-Given : Given m o v env (program_environment m o v env)
  program_environment-Given = record {
    request = program_environment-getenv (codes "FAKETIME") ∙ named-getenv (codes "FAKETIME");
    objects = program_environment-getenv (codes "FAKETIME_SHARED");
    library = program_environment-getenv (codes "LD_PRELOAD");
    number =
        program_environment-getenv (codes "FAKETIME_FAKEPID")
        ∙ (named-getenv (codes "FAKETIME_FAKEPID")
            ∙ simp (switch_variables-getenv o env (codes "FAKETIME_FAKEPID")));
    monotonic =
        program_environment-getenv (codes "FAKETIME_DONT_FAKE_MONOTONIC")
        ∙ (named-getenv (codes "FAKETIME_DONT_FAKE_MONOTONIC")
            ∙ switch_variables-getenv o env (codes "FAKETIME_DONT_FAKE_MONOTONIC"));
    alone =
        program_environment-getenv (codes "FAKETIME_DISABLE_SHM")
        ∙ (named-getenv (codes "FAKETIME_DISABLE_SHM")
            ∙ switch_variables-getenv o env (codes "FAKETIME_DISABLE_SHM"));
    others = λ name h.
        program_environment-getenv name
        ∙ (rw (named-getenv name) (rw (switch_variables-getenv o env name) (ground (arith, h))));
  }

launched-returned :
    (a : Answers) (child : Child) (r : Ending × Held)
    → r.0 ≡ returned
    → a.setenv ≡ true
    → a.preload ≡ true
    → child ≢ not_forked
    → launched a child r ≡ true
unfolding launched forked
launched-returned a not_forked (returned, s) h hs hp hc = absurd (hc refl)
launched-returned a not_waited (returned, s) h hs hp hc = rw (hs, hp) refl
launched-returned a (ended status reads) (returned, s) h hs hp hc = rw (hs, hp) refl
launched-returned a child (exited, s) h hs hp hc = cc

run_with-launched :
    (m : Machine) (s : Held) (program : List (List ℕ)) (e : Environment)
    → launched m.creation m.child (create_objects m.creation s) ≡ true
    → (run_with m s program e).program ≡ some (program, e)
unfolding run_with
run_with-launched m s program e h = rw h refl

main-run_with :
    (m : Machine) (args : List (List ℕ)) (env : Environment) (s : Held) (o : Options)
    (timestamp name v : List ℕ) (arguments : List (List ℕ))
    → parse_options args initial ≡ ready o (timestamp ∷ name ∷ arguments)
    → chosen_value m o timestamp ≡ some v
    → m.keepalive ≡ true
    → main m args env s ≡ run_with m s (name ∷ arguments) (program_environment m o v env)
unfolding main run_parsed with_program
main-run_with m args env s o timestamp name v arguments hp hv hk =
    rw hp (rw (run_parsed, with_program, hv, hk) refl)

-- `faketime` with arguments that its switches leave as a timestamp and a program, where a value for
-- FAKETIME is found, the pipe to the program can be made, neither of the two names exists, every
-- call of the creation of the shared objects and both setenv behind it succeed, and the program is
-- forked: it is run with its arguments. In its environment FAKETIME has that value,
-- FAKETIME_SHARED names the two objects, as the library reads it, LD_PRELOAD ends with the library,
-- behind what it was, the other variables of the switches are set as asked, and no other variable
-- is changed. Afterwards each of the two names is removed, unless the call that removes it fails,
-- and the exit status is that of the program if it ended by exit and the pipe was read to its end,
-- and 1 otherwise.
pub main_runs :
    (m : Machine) (args : List (List ℕ)) (env : Environment) (s : Held) (o : Options)
    (timestamp name v : List ℕ) (arguments : List (List ℕ))
    → parse_options args initial ≡ ready o (timestamp ∷ name ∷ arguments)
    → chosen_value m o timestamp ≡ some v
    → m.keepalive ≡ true
    → all_created m.creation ≡ true
    → m.creation.setenv ≡ true
    → m.creation.preload ≡ true
    → m.child ≢ not_forked
    → s.sem_named ≡ false
    → s.shm_named ≡ false
    → (e : Environment) × ((main m args env s).program ≡ some (name ∷ arguments, e))
      × Given m o v env e
      × (parse_shared_objects (shared_objects m.pid) ≡ some (sem_name m.pid, shm_name m.pid))
      × ((main m args env s).status ≡ reported m.child)
      × ((main m args env s).held.sem_named ≡ not m.creation.sem_unlink)
      × ((main m args env s).held.shm_named ≡ not m.creation.shm_unlink)
unfolding run_with
main_runs m args env s o timestamp name v arguments hp hv hk hc hs hl hf hn hm =
    let e = program_environment m o v env in
    let run = main-run_with m args env s o timestamp name v arguments hp hv hk in
    let left = run_wrapper_leaves m.creation m.child s in
    let started =
      launched-returned m.creation m.child (create_objects m.creation s)
        (create_objects-returned m.creation s hc hn hm) hs hl hf in
    (
      e,
      rw run (run_with-launched m s (name ∷ arguments) e started),
      program_environment-Given m o v env,
      parse_shared_objects-shared_objects m.pid,
      rw run (left.2 ∙ ground (arith, hc, hs, hl, hn, hm)),
      rw run (left.0 ∙ ground (arith, hc, hs, hl, hn, hm)),
      rw run (left.1 ∙ ground (arith, hc, hs, hl, hn, hm)),
    )
