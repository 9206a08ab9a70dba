-- ===== src/Tests/Frozen.antt =====
-- A frozen clock, from the date program to the concrete process.
use libfaketime.Base.{ℕ, List, [], ◌∷◌, ◌++◌, some, ◌≡◌, refl}
use libfaketime.Base.Int.{pos, ◌-ℤ◌}
use libfaketime.Base.Text.{codes}
use libfaketime.Outcome.{ok}
use libfaketime.TimeOps.{time}
use libfaketime.Process.{Process, monotonic}
use libfaketime.World.{World}
use libfaketime.Request.{parse_ft_string}
use libfaketime.Clock.{fake_clock_gettime}
use libfaketime.Clock.Steps.{expire}
use libfaketime.Clock.Calls.{Steady, steady_end}
use libfaketime.Wrapper.{frozen_value, trim_end, looks_like_absolute_timestamp}
use libfaketime.Wrapper.Frozen.{frozen_value_shows}
use libfaketime.Tests.{thousandths, process, world}
use libfaketime.Tests.Clocks.{first}

-- 1704164645 s, in a time zone of strptime's
abbrev stamp : List ℕ
stamp = codes "2024-01-02 03:04:05"

abbrev dated : World thousandths
dated = record world { strptime = λ text. some (pos 1704164645, []) }

dated-Steady : Steady thousandths dated process
unfolding expire ◌-ℤ◌
dated-Steady = record {
  awake = refl;
  unlimited = refl;
  no_spawn = refl;
  cached = refl;
  no_infile = refl;
  no_outfile = refl;
  no_ticks = refl;
}

frozen_value_shows_example :
    (q : Process thousandths) × (parse_ft_string thousandths dated stamp process ≡ ok q)
    × (fake_clock_gettime thousandths dated monotonic first q
        ≡ ok (pos 0, time (pos 1704164645) (pos 0), steady_end thousandths dated q monotonic first))
unfolding frozen_value trim_end looks_like_absolute_timestamp
frozen_value_shows_example =
    frozen_value_shows thousandths dated (stamp ++ 10 ∷ []) stamp (pos 1704164645) process monotonic
      first refl refl refl (λ e. cc) refl dated-Steady
