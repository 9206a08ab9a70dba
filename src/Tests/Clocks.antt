-- ===== src/Tests/Clocks.antt =====
-- The clocks of the concrete process.
use libfaketime.Base.{◌≡◌, ◌⊎◌, ◌↔◌, refl, true, false, arith}
use libfaketime.Base.Int.{pos, negsuc, ◌+ℤ◌, ◌-ℤ◌, ◌≤ℤ◌}
use libfaketime.Outcome.{ok}
use libfaketime.TimeOps.{Time, time}
use libfaketime.TimeOps.Total.{nanos, IsNormal, nanos_laws}
use libfaketime.Process.{Process, Limits, Spawn, realtime}
use libfaketime.Clock.{advanced_time, fake_clock_gettime}
use libfaketime.Clock.Steps.{start_of, count_call, outside_limits, spawn_step, expire}
use libfaketime.Clock.Steps.Window.{
  outside_limits-InWindow, InWindow, expire_iff, RunOnce, spawn_step-RunOnce,
}
use libfaketime.Clock.Modes.{advanced_time-nanos, advanced_time_mono}
use libfaketime.Clock.Calls.{Steady, steady_end}
use libfaketime.Clock.Shift.{Shifting, fake_clock_gettime_shift, fake_clock_gettime_mono}
use libfaketime.Tests.{
  thousandths, process, world, hundred, at_thousand, no_limits, no_spawn, fresh,
}

-- 105.6 s and 106 s.
abbrev pub first : Time
first = time (pos 105) (pos 600000000)

abbrev pub second : Time
second = time (pos 106) (pos 0)

pub process-Steady : Steady thousandths world process
unfolding expire ◌-ℤ◌
process-Steady = record {
  awake = refl;
  unlimited = refl;
  no_spawn = refl;
  cached = refl;
  no_infile = refl;
  no_outfile = refl;
  no_ticks = refl;
}

later-Steady : Steady thousandths world (steady_end thousandths world process realtime first)
unfolding expire ◌-ℤ◌ count_call
later-Steady = record {
  awake = refl;
  unlimited = refl;
  no_spawn = refl;
  cached = refl;
  no_infile = refl;
  no_outfile = refl;
  no_ticks = refl;
}

pub first-Shifting : Shifting thousandths world process realtime first
unfolding start_of
first-Shifting = record {
  mode = refl;
  no_rate = refl;
  user_normal = (omega arith, omega arith);
  start_normal = (omega arith, omega arith);
  real_normal = (omega arith, omega arith);
}

fake_clock_gettime_shift_example :
    (t : Time) × (fake_clock_gettime thousandths world realtime first process
      ≡ ok (pos 0, t, steady_end thousandths world process realtime first))
    × IsNormal t
    × (nanos t
        ≡ nanos (time (pos 1000) (pos 500000000))
          +ℤ (nanos first -ℤ nanos (start_of realtime hundred)))
unfolding start_of
fake_clock_gettime_shift_example =
    fake_clock_gettime_shift thousandths world process realtime first refl process-Steady
      first-Shifting (omega nanos_laws) (omega nanos_laws) (omega nanos_laws) (omega nanos_laws)

fake_clock_gettime_mono_example :
    (t t' : Time) × (q : Process thousandths) × (fake_clock_gettime thousandths world realtime first
        process
      ≡ ok (pos 0, t, steady_end thousandths world process realtime first))
    × (fake_clock_gettime thousandths world realtime second
          (steady_end thousandths world process realtime first)
        ≡ ok (pos 0, t', q))
    × (nanos t ≤ℤ nanos t')
fake_clock_gettime_mono_example =
    fake_clock_gettime_mono thousandths world process world realtime first second refl
      process-Steady later-Steady first-Shifting (omega arith, omega arith) (omega nanos_laws)

-- Faking starts with the third call.
abbrev third_call : Limits
third_call = record no_limits { limited_faking = true; start_after_ncalls = pos 3 }

outside_limits-InWindow_example :
    (outside_limits third_call (pos 5) ≡ false) ↔ InWindow third_call (pos 5)
outside_limits-InWindow_example = outside_limits-InWindow third_call (pos 5)

expire_iff_example : ((expire fresh (time (pos 111) (pos 0))).expired ≡ false) ↔ (
    (true ≡ true)
    × (false ≡ false)
    × ((pos 1 ≤ℤ pos 100) × (pos 111 ≤ℤ pos 100 +ℤ pos 10) ⊎ (pos 100 ≤ℤ pos 0) × (false ≡ false)))
expire_iff_example = expire_iff fresh (time (pos 111) (pos 0))

-- A command that is due after 3 s.
abbrev after_three : Spawn
after_three = record no_spawn { support = true; secs = pos 3; ncalls = negsuc 0 }

spawn_step-RunOnce_example : RunOnce (spawn_step after_three (pos 0) (pos 2))
spawn_step-RunOnce_example = spawn_step-RunOnce after_three (pos 0) (pos 2) refl

advanced_time-nanos_example :
    IsNormal (advanced_time thousandths at_thousand hundred realtime first)
    × (nanos (advanced_time thousandths at_thousand hundred realtime first)
        ≡ nanos (time (pos 1000) (pos 500000000))
          +ℤ (nanos first -ℤ nanos (start_of realtime hundred)))
unfolding start_of
advanced_time-nanos_example =
    advanced_time-nanos thousandths at_thousand hundred realtime first refl
      (omega arith, omega arith) (omega arith, omega arith) (omega arith, omega arith)
      (omega nanos_laws) (omega nanos_laws) (omega nanos_laws) (omega nanos_laws)

advanced_time_mono_example :
    nanos (advanced_time thousandths at_thousand hundred realtime first)
    ≤ℤ nanos (advanced_time thousandths at_thousand hundred realtime second)
unfolding start_of
advanced_time_mono_example =
    advanced_time_mono thousandths at_thousand hundred realtime first second refl
      (omega arith, omega arith) (omega arith, omega arith) (omega arith, omega arith)
      (omega arith, omega arith) (omega nanos_laws)
