-- ===== src/Tests/Waits.antt =====
-- The deadlines and the timeouts of the concrete process.
use libfaketime.Wait.Timeout.{Ordered, scale_timeout_milliseconds_bounds}
use libfaketime.Base.{true, ◌≡◌, refl, arith}
use libfaketime.Base.Int.{leb_ℤ, ℤ, ◌/ℤ◌, ◌≤ℤ◌, ◌*ℤ◌, pos}
use libfaketime.TimeOps.{Time, time}
use libfaketime.TimeOps.Total.{nanos_laws}
use libfaketime.Process.{Process, realtime}
use libfaketime.Clock.Steps.{start_of}
use libfaketime.Wait.{
  int_max, scale_timeout_milliseconds, sleep_deadline, sem_timedwait_deadline,
  sem_clockwait_deadline,
}
use libfaketime.Wait.Deadline.{Reachable, deadlines_show, ReadsAs}
use libfaketime.Tests.Clocks.{process-Steady}
use libfaketime.Tests.{thousandths, process, hundred, at_thousand, world}

-- A point of the fake clock, ten seconds behind the user's time.
abbrev pub asked : Time
asked = time (pos 1010) (pos 250000000)

pub asked-Reachable : Reachable thousandths process (start_of realtime hundred) asked
unfolding start_of
asked-Reachable = record {
  normal = (omega arith, omega arith);
  fits = (omega arith, omega arith);
  user_normal = (omega arith, omega arith);
  base_normal = (omega arith, omega arith);
  diff_low = omega nanos_laws;
  diff_high = omega nanos_laws;
  real_low = omega nanos_laws;
  real_high = omega nanos_laws;
}

deadlines_show_example :
    ReadsAs thousandths world process realtime
      (sleep_deadline thousandths process realtime asked)
      asked
    × ReadsAs thousandths world process realtime
        (sem_timedwait_deadline thousandths process asked)
        asked
    × ReadsAs thousandths world process realtime
        (sem_clockwait_deadline thousandths process realtime asked asked)
        asked
deadlines_show_example =
    deadlines_show thousandths world process asked asked refl refl process-Steady asked-Reachable

-- In thousandths, the conversion drops the last three digits.
thousandths_trunc_between :
    (x a b : ℤ)
    → leb_ℤ (a *ℤ 1000) x ≡ true
    → leb_ℤ x (b *ℤ 1000) ≡ true
    → (a ≤ℤ x /ℤ 1000) × (x /ℤ 1000 ≤ℤ b)
unfolding ◌/ℤ◌ ◌*ℤ◌
thousandths_trunc_between x a b lo hi = ground (arith)

thousandths-Ordered : Ordered thousandths
unfolding ◌*ℤ◌ ◌/ℤ◌
thousandths-Ordered = record {
  not_below = λ x n o h e. ground arith;
  not_above = λ x n o h e. ground arith;
  trunc_between = λ x a b ha hb lo hi. thousandths_trunc_between x a b lo hi;
  ceil_ordered = λ x o. ground arith;
  quotient_ordered = λ n d h e. ground arith;
}

abbrev hurried : Process thousandths
hurried = record process { user = record at_thousand { rate = pos 5000; rate_set = true } }

scale_timeout_milliseconds_bounds_example :
    (pos 1 ≤ℤ scale_timeout_milliseconds thousandths hurried (pos 3))
    × (scale_timeout_milliseconds thousandths hurried (pos 3) ≤ℤ int_max)
scale_timeout_milliseconds_bounds_example =
    scale_timeout_milliseconds_bounds thousandths thousandths-Ordered hurried (pos 3) refl
      (omega arith) (omega arith)
