-- ===== src/Tests/Sessions.antt =====
-- A concrete process that replays a file, from its start over several calls.
use libfaketime.Base.{◌≡◌, true, some, none, [], ◌∷◌, List, refl, arith, if◌then◌else◌}
use libfaketime.Base.Text.{codes, same_text}
use libfaketime.Outcome.{◌>>=◌}
use libfaketime.Outcome.Laws.{AllOk}
use libfaketime.Process.{Process, realtime, monotonic, process_cputime}
use libfaketime.World.{World}
use libfaketime.Clock.WellFormed.{WellFormed}
use libfaketime.Startup.{ftpl_really_init}
use libfaketime.Outcome.{ok}
use libfaketime.Base.Int.{pos}
use libfaketime.Startup.Stopped.{calls-HasStopped}
use libfaketime.Startup.Session.{Call, AllShown, calls, calls-ftpl_really_init-WellFormed}
use libfaketime.Tests.{no_limits, at_thousand, fresh, thousandths, process, world}
use libfaketime.Tests.Clocks.{first, second}
use libfaketime.Tests.Alarms.{no_number}
use libfaketime.Tests.Objects.{nothing}
use libfaketime.Tests.Starting.{answers, recorded}

-- Where only FAKETIME_LOAD_FILE is set.
abbrev loading : World thousandths
loading = record world {
  getenv = λ name.
      if same_text (codes name) (codes "FAKETIME_LOAD_FILE") then some (codes "times") else none;
}

abbrev three : List (Call thousandths)
three =
    record { answers = world; clock = realtime; real = first }
    ∷ record { answers = loading; clock = process_cputime; real = first }
    ∷ record { answers = world; clock = monotonic; real = second }
    ∷ []

calls-ftpl_really_init-WellFormed_example :
    AllOk
      (λ r. AllShown r.0 × WellFormed thousandths r.1)
      (ftpl_really_init thousandths loading no_number
          (record answers { load_content = some recorded })
          (codes "cat")
          nothing
          process
        >>= λ started. calls thousandths three started.1)
calls-ftpl_really_init-WellFormed_example =
    calls-ftpl_really_init-WellFormed thousandths loading no_number
      (record answers { load_content = some recorded }) (codes "cat") nothing process three refl
      refl refl
      ((omega arith, omega arith), ((omega arith, omega arith), ((omega arith, omega arith), tt)))

-- Faking has stopped with the second call.
abbrev stopped : Process thousandths
stopped = record process {
  limits = record no_limits {
    limited_faking = true;
    callcounter = pos 2;
    stop_after_ncalls = pos 2;
  };
}

abbrev two : List (Call thousandths)
two =
    record { answers = loading; clock = realtime; real = first }
    ∷ record { answers = world; clock = monotonic; real = second }
    ∷ []

calls-HasStopped_example :
    (q : Process thousandths) × (calls thousandths two stopped ≡ ok (first ∷ second ∷ [], q))
    × (q.user ≡ at_thousand)
    × (q.cache ≡ fresh)
calls-HasStopped_example =
    calls-HasStopped thousandths two stopped refl
      (record { limited = refl; bound = omega arith; reached = omega arith }) (refl, (refl, tt))
