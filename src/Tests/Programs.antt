-- ===== src/Tests/Programs.antt =====
-- A concrete run of the wrapper.
use libfaketime.Base.{ℕ, List, [], ◌∷◌, some, none, true, false, ◌≡◌, refl, map}
use libfaketime.Base.Int.{pos}
use libfaketime.Base.Text.{codes}
use libfaketime.SharedMemory.{sem_name, shm_name, shared_objects}
use libfaketime.Shared.Names.{parse_shared_objects}
use libfaketime.Wrapper.{
  ReadByte, byte, faketime_value, date_value, read_output, c_string, frozen_value, trim_end,
  looks_like_absolute_timestamp, has_shape,
}
use libfaketime.Wrapper.Environment.{Environment}
use libfaketime.Wrapper.Life.{Answers, Held, ended, exited_with}
use libfaketime.Wrapper.Life.Laws.{reported}
use libfaketime.Wrapper.Switches.{Options, parse_options, set_switch, switch_of}
use libfaketime.Wrapper.Program.{
  Machine, main, initial, chosen_value, interrupted, reaped, wait_for_child, date_success,
}
use libfaketime.Wrapper.Program.Laws.{Given, main_runs}
use libfaketime.Tests.Alarms.{no_number}

-- The date program prints "2024-01-02 03:04:05".
abbrev printed : List ReadByte
printed = map byte (codes "2024-01-02 03:04:05")

abbrev all_succeed : Answers
all_succeed = record {
  sem_create = true;
  sem_posts = true;
  shm_open = true;
  truncate = true;
  map = true;
  close_fd = true;
  lock = true;
  unmap = true;
  unlock = true;
  sem_unlink = true;
  shm_unlink = true;
  setenv = true;
  preload = true;
}

-- The program exits with 3.
abbrev machine : Machine
machine = record {
  strtol = no_number;
  now = pos 100;
  pid = 4711;
  date_pipe = true;
  date_forked = true;
  date_reads = printed;
  date_waits = interrupted ∷ reaped (exited_with 0) ∷ [];
  keepalive = true;
  creation = all_succeed;
  child = ended (exited_with 3) [];
  libdir = codes "/usr/lib";
}

abbrev arguments : List (List ℕ)
arguments =
    codes "--freeze" ∷ codes "-p" ∷ codes "42" ∷ codes "yesterday" ∷ codes "ls" ∷ codes "-l" ∷ []

abbrev switches : Options
switches = record initial { freeze_clock = true; pid = some (codes "42") }

abbrev inherited : Environment
inherited = (codes "HOME", codes "/") ∷ (codes "LD_PRELOAD", codes "other.so") ∷ []

abbrev nothing_held : Held
nothing_held = record {
  sem_named = false;
  shm_named = false;
  sem_locked = false;
  shm_fd = false;
  mapping = none;
}

main_runs_example :
    (e : Environment) × ((main machine arguments inherited nothing_held).program
      ≡ some (codes "ls" ∷ codes "-l" ∷ [], e))
    × Given machine switches (codes "2024-01-02 03:04:05") inherited e
    × (parse_shared_objects (shared_objects 4711) ≡ some (sem_name 4711, shm_name 4711))
    × ((main machine arguments inherited nothing_held).status ≡ reported machine.child)
    × ((main machine arguments inherited nothing_held).held.sem_named ≡ false)
    × ((main machine arguments inherited nothing_held).held.shm_named ≡ false)
unfolding parse_options set_switch switch_of chosen_value wait_for_child date_success faketime_value
    date_value read_output c_string frozen_value trim_end looks_like_absolute_timestamp has_shape
main_runs_example =
    main_runs machine arguments inherited nothing_held switches (codes "yesterday") (codes "ls")
      (codes "2024-01-02 03:04:05") (codes "-l" ∷ []) refl refl refl refl refl refl (λ e. cc) refl
      refl
