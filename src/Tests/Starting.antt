-- ===== src/Tests/Starting.antt =====
-- The start of concrete processes.
use libfaketime.Base.{
  ◌≢◌, ◌⊎◌, true, ℕ, List, [], ◌∷◌, some, none, true, false, ◌≡◌, refl, arith, ltb, length,
  if◌then◌else◌,
}
use libfaketime.Base.Int.{pos, negsuc, ◌-ℤ◌}
use libfaketime.Base.Text.{codes, same_text}
use libfaketime.Outcome.{ok, ◌>>=◌}
use libfaketime.TimeOps.{time}
use libfaketime.Shared.{shared_to_system_time, Shared, SystemTime, created}
use libfaketime.Process.{Process, noop, realtime}
use libfaketime.World.{World}
use libfaketime.Clock.{fake_clock_gettime, clock_gettime}
use libfaketime.Clock.Steps.{expire}
use libfaketime.Clock.Calls.{Steady}
use libfaketime.Clock.Calls.Noop.{counted_call, clock_gettime-noop}
use libfaketime.Config.SymbolList.{str_array_contains, contains_from}
use libfaketime.Startup.{Answers, set_start, ftpl_really_init}
use libfaketime.Startup.Commands.{names_command}
use libfaketime.Startup.Commands.Laws.{names_command-str_array_contains}
use libfaketime.Startup.Spawning.{run_spawn_exec, max_env}
use libfaketime.Startup.Spawning.Laws.{inherited, run_spawn_exec-inherited}
use libfaketime.Startup.Laws.{set_start_agrees, skipped_command_real_time}
use libfaketime.Tests.{thousandths, process, world, hundred, at_thousand}
use libfaketime.Tests.Clocks.{first}
use libfaketime.Tests.Alarms.{no_number}
use libfaketime.Tests.Objects.{nothing, attaches}

-- "ls,cat", and "cat"
abbrev listed : List ℕ
listed = codes "ls,cat"

names_command-str_array_contains_example :
    names_command (codes "cat") listed ≡ str_array_contains listed (codes "cat")
names_command-str_array_contains_example =
    names_command-str_array_contains b'c' (codes "at") listed (refl, (refl, (refl, tt)))

-- A file of one time, whose last byte is 9.
abbrev pub recorded : List ℕ
recorded = 0 ∷ 0 ∷ 0 ∷ 0 ∷ 0 ∷ 0 ∷ 1 ∷ 7 ∷ 0 ∷ 0 ∷ 0 ∷ 0 ∷ 0 ∷ 0 ∷ 2 ∷ 9 ∷ []

-- The clocks half a minute later.
abbrev later : SystemTime
later = record hundred { real = time (pos 130) (pos 0); mon = time (pos 130) (pos 0) }

set_start_agrees_example :
    (p' q' : Process thousandths) × (s' : Shared) × (set_start thousandths hundred process ≡ ok p')
    × ((created.start_time_real.sub ≡ negsuc 0) × (p'.start ≡ hundred)
        ⊎ (created.start_time_real.sub ≢ negsuc 0)
          × (p'.start ≡ shared_to_system_time created)
          × (p'.shared ≡ some created))
    × (p'.shared ≡ some s')
    × (shared_to_system_time s' ≡ p'.start)
    × (set_start thousandths later (record process { shared = p'.shared }) ≡ ok q')
    × (q'.start ≡ p'.start)
    × (q'.shared ≡ p'.shared)
set_start_agrees_example =
    set_start_agrees thousandths hundred later process process created refl refl refl
      (omega arith, omega arith)

-- Where only FAKETIME_SKIP_CMDS is set.
abbrev skipping : World thousandths
skipping = record world {
  getenv =
      λ name. if same_text (codes name) (codes "FAKETIME_SKIP_CMDS") then some listed else none;
}

abbrev pub answers : Answers
answers = record {
  inherited = attaches;
  flush = false;
  pid = 4711;
  save_opens = true;
  load_content = none;
}

skipped_command_real_time_example :
    (ftpl_really_init thousandths skipping no_number answers (codes "cat") nothing process >>= λ r.
    fake_clock_gettime thousandths world realtime first r.1)
    ≡ (ftpl_really_init thousandths skipping no_number answers (codes "cat") nothing process
        >>= λ r. ok (pos 0, first, r.1))
unfolding str_array_contains contains_from
skipped_command_real_time_example =
    skipped_command_real_time thousandths skipping no_number world answers b'c' (codes "at") listed
      nothing process realtime first refl (refl, (refl, (refl, tt))) refl

-- Faking is off in the process, and the thread does not know.
abbrev unfaked : Process thousandths
unfaked = record process { user = record at_thousand { mode = noop } }

unfaked-Steady : Steady thousandths world unfaked
unfolding expire ◌-ℤ◌
unfaked-Steady = record {
  awake = refl;
  unlimited = refl;
  no_spawn = refl;
  cached = refl;
  no_infile = refl;
  no_outfile = refl;
  no_ticks = refl;
}

clock_gettime-noop_example :
    (clock_gettime thousandths world (some first) realtime (record unfaked { dont_fake = true })
      ≡ ok (pos 0, some first, record unfaked { dont_fake = true }))
    × (clock_gettime thousandths world (some first) realtime unfaked
        ≡ ok (negsuc 0, some first, counted_call thousandths world unfaked))
clock_gettime-noop_example =
    clock_gettime-noop thousandths world unfaked realtime first refl unfaked-Steady refl refl

abbrev environment : List (List ℕ)
environment = codes "HOME=/" ∷ codes "FAKETIME_SPAWN_EXEC=ls" ∷ codes "FAKETIME=+1" ∷ []

run_spawn_exec-inherited_example : run_spawn_exec environment true (true ∷ true ∷ false ∷ []) ≡ (
    if ltb (length (inherited environment)) max_env
    then (some (inherited environment), if true then 3 else 0)
    else (none, 0))
run_spawn_exec-inherited_example = run_spawn_exec-inherited environment true 2 []
