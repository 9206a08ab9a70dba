-- ===== src/Wrapper/Program.antt =====
-- main of src/faketime.c as a whole, from its arguments to the program that it runs.
pub mod Laws
use libfaketime.Base.{
  ℕ, Bool, true, false, not, ◌&&◌, ◌||◌, Option, none, some, List, [], ◌∷◌, ◌++◌, ◌==◌,
  if◌then◌else◌,
}
use libfaketime.Base.Int.{ℤ}
use libfaketime.Base.Text.{codes}
use libfaketime.Seeded.{Converted}
use libfaketime.SharedMemory.{Ending, returned, exited, shared_objects}
use libfaketime.Wrapper.{ReadByte, faketime_value}
use libfaketime.Wrapper.Environment.{Environment, getenv, setenv, unsetenv}
use libfaketime.Wrapper.Life.{
  Answers, Held, Child, not_forked, not_waited, ended, Status, exited_with, signaled, stopped,
  create_objects, run_wrapper,
}
use libfaketime.Wrapper.Switches.{
  Options, Parsed, ready, missing_argument, shows_version, shows_help, parse_options,
}

-- What waitpid gives: EINTR, another error, or the status of the child.
pub data Wait : Type 0 where
  interrupted failed : Wait
  reaped : Status → Wait

-- wait_for_child; `none` is the return value -1. The list ends where there is no child.
unfoldable pub wait_for_child : List Wait → Option Status
wait_for_child [] = none
wait_for_child (interrupted ∷ waits) = wait_for_child waits
wait_for_child (failed ∷ waits) = none
wait_for_child (reaped status ∷ waits) = some status

-- The date program was waited for and exited with EXIT_SUCCESS.
unfoldable pub date_success : Option Status → Bool
date_success none = false
date_success (some signaled) = false
date_success (some stopped) = false
date_success (some (exited_with n)) = n == 0

-- What main meets outside: strtol, time(NULL), getpid, whether pipe and fork succeed for the date
-- program, what is read from it and how it ends, whether the pipe to the program can be made, the
-- calls on the shared objects, and what becomes of the program. `libdir` is PREFIX LIBDIRNAME, or
-- PREFIX/$LIB/faketime with MULTI_ARCH, of the build.
pub record Machine : Type 0 where
  pub strtol : List ℕ → Converted ℤ
  pub now : ℤ
  pub pid : ℕ
  pub date_pipe : Bool
  pub date_forked : Bool
  pub date_reads : List ReadByte
  pub date_waits : List Wait
  pub keepalive : Bool
  pub creation : Answers
  pub child : Child
  pub libdir : List ℕ

-- The exit status of main, what is left of the shared objects, and the program with its arguments
-- and environment, where one was started.
pub record Run : Type 0 where
  pub status : ℕ
  pub held : Held
  pub program : Option (List (List ℕ) × Environment)

-- The variables at the start of main.
abbrev pub initial : Options
initial = record {
  use_mt = false;
  use_direct = false;
  freeze_clock = false;
  pid = none;
  date_cmd = codes "date";
  exclude_monotonic = false;
  disable_shm = false;
}

-- What execlp is given for the date program: its arguments and, behind clear_date_helper_preload,
-- its environment.
pub clear_date_helper_preload : Environment → Environment
clear_date_helper_preload env =
    unsetenv (codes "DYLD_FORCE_FLAT_NAMESPACE")
      (unsetenv (codes "DYLD_INSERT_LIBRARIES") (unsetenv (codes "LD_PRELOAD") env))

pub date_helper : Options → List ℕ → Environment → List (List ℕ) × Environment
unfolding clear_date_helper_preload
date_helper o timestamp env = (
  o.date_cmd
      ∷ codes "-d"
      ∷ timestamp
      ∷ (if o.freeze_clock then codes "+%Y-%m-%d %H:%M:%S" else codes "+%s")
      ∷ [],
  clear_date_helper_preload env,
)

-- The value of FAKETIME; `none` is an exit with EXIT_FAILURE.
unfoldable pub chosen_value : Machine → Options → List ℕ → Option (List ℕ)
unfolding wait_for_child date_success
chosen_value m o timestamp =
    if not o.use_direct && not (m.date_pipe && m.date_forked)
    then none
    else faketime_value m.strtol m.now o timestamp (date_success (wait_for_child m.date_waits))
        m.date_reads

-- ftpl_path
unfoldable pub library_path : List ℕ → Bool → List ℕ
library_path libdir use_mt =
    libdir ++ (if use_mt then codes "/libfaketimeMT.so.1" else codes "/libfaketime.so.1")

-- ld_preload_new
unfoldable pub preload_value : List ℕ → Option (List ℕ) → List ℕ
preload_value path none = path
preload_value path (some old) = old ++ b':' ∷ path

switch_variables : Options → Environment → Environment
switch_variables o env =
    let quiet = setenv (codes "FAKETIME_DONT_FAKE_MONOTONIC") (codes "1") env in
    let env' = if o.exclude_monotonic then quiet else env in
    let alone = setenv (codes "FAKETIME_DISABLE_SHM") (codes "1") env' in
    if o.disable_shm then alone else env'

pid_variable : Option (List ℕ) → Environment → Environment
pid_variable none env = env
pid_variable (some pid) env = setenv (codes "FAKETIME_FAKEPID") pid env

-- The environment at the second fork, with the value `v` of FAKETIME.
pub program_environment : Machine → Options → List ℕ → Environment → Environment
unfolding switch_variables pid_variable
program_environment m o v env =
    let named = pid_variable o.pid (setenv (codes "FAKETIME") v (switch_variables o env)) in
    let shared = setenv (codes "FAKETIME_SHARED") (shared_objects m.pid) named in
    setenv (codes "LD_PRELOAD")
      (preload_value (library_path m.libdir o.use_mt) (getenv (codes "LD_PRELOAD") shared)) shared

forked : Child → Bool
forked not_forked = false
forked not_waited = true
forked (ended status reads) = true

-- Whether main comes to the second fork, and it succeeds.
launched : Answers → Child → Ending × Held → Bool
unfolding forked
launched a child (exited, s) = false
launched a child (returned, s) = a.setenv && (a.preload && forked child)

abbrev stops : ℕ → Held → Run
stops n s = record { status = n; held = s; program = none }

-- From the shared objects on, with FAKETIME set.
run_with : Machine → Held → List (List ℕ) → Environment → Run
unfolding launched
run_with m s program env =
    let r = run_wrapper m.creation m.child s in
    record {
      status = r.0;
      held = r.1;
      program =
          if launched m.creation m.child (create_objects m.creation s)
          then some (program, env)
          else none;
    }

with_program : Machine → Held → Environment → Options → List ℕ → List (List ℕ) → Run
unfolding run_with
with_program m s env o timestamp [] = stops 1 s
with_program m s env o timestamp (name ∷ arguments) = elim (chosen_value m o timestamp) [
  | none ↦ stops 1 s
  | some v ↦
      if m.keepalive
      then run_with m s (name ∷ arguments) (program_environment m o v env)
      else stops 1 s
]

-- Behind the switches.
run_parsed : Machine → Held → Environment → Parsed → Run
unfolding with_program
run_parsed m s env missing_argument = stops 1 s
run_parsed m s env shows_version = stops 0 s
run_parsed m s env shows_help = stops 0 s
run_parsed m s env (ready o []) = stops 1 s
run_parsed m s env (ready o (timestamp ∷ program)) = with_program m s env o timestamp program

pub main : Machine → List (List ℕ) → Environment → Held → Run
unfolding run_parsed
main m args env s = run_parsed m s env (parse_options args initial)
