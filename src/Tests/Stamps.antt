-- ===== src/Tests/Stamps.antt =====
-- The file timestamps of a process that follows an offset.
use libfaketime.Base.{◌≡◌, refl, true, false, arith, none, some}
use libfaketime.Base.Int.{pos, ◌+ℤ◌}
use libfaketime.Outcome.{ok}
use libfaketime.TimeOps.{Time, time, timespecadd, add, store_add}
use libfaketime.TimeOps.Total.{nanos_laws}
use libfaketime.Process.{Process, realtime}
use libfaketime.Clock.Calls.{Steady, steady_result}
use libfaketime.FileTimes.{Stat, set_ticking, fake_statbuf, fake_two_timespec}
use libfaketime.FileTimes.Laws.{fake_statbuf-Steady}
use libfaketime.FileTimes.RoundTrip.{IsPlaced, fake_two_timespec-fake_statbuf}
use libfaketime.Tests.{thousandths, process, at_thousand, world}
use libfaketime.Tests.Clocks.{process-Steady}
use libfaketime.Tests.Waits.{asked}

-- 900.5 s ahead, with ticks.
abbrev shifted : Process thousandths
shifted = record process {
  user = record at_thousand { offset = time (pos 900) (pos 500000000); per_tick_inc_set = true };
}

shifted-Steady : Steady thousandths world (set_ticking thousandths false shifted)
shifted-Steady = record {
  awake = refl;
  unlimited = refl;
  no_spawn = refl;
  cached = process-Steady.cached;
  no_infile = refl;
  no_outfile = refl;
  no_ticks = refl;
}

asked-Placed : IsPlaced thousandths shifted asked
unfolding timespecadd add store_add ◌+ℤ◌
asked-Placed = record {
  relative = refl;
  normal = (omega arith, omega arith);
  fits = (omega arith, omega arith);
  start_normal = (omega arith, omega arith);
  offset_normal = (omega arith, omega arith);
  start_low = omega nanos_laws;
  start_high = omega nanos_laws;
  time_low = omega nanos_laws;
  time_high = omega nanos_laws;
  since_low = omega nanos_laws;
  since_high = omega nanos_laws;
}

abbrev buf : Stat
buf = record { ctime = time (pos 90) (pos 0); atime = time (pos 95) (pos 0); mtime = asked }

fake_statbuf-Steady_example :
    (q : Process thousandths) × ((fake_statbuf thousandths world buf shifted
        ≡ ok (
          record {
            ctime =
                steady_result thousandths world
                  (set_ticking thousandths false shifted)
                  realtime
                  (time (pos 90) (pos 0));
            atime =
                steady_result thousandths world
                  (set_ticking thousandths false shifted)
                  realtime
                  (time (pos 95) (pos 0));
            mtime =
                steady_result thousandths world
                  (set_ticking thousandths false shifted)
                  realtime
                  asked;
          },
          q,
        ))
      × ((q.user ≡ shifted.user) × (q.shared ≡ shifted.shared)))
fake_statbuf-Steady_example =
    fake_statbuf-Steady thousandths world shifted buf refl shifted-Steady (λ e. cc)

fake_two_timespec-fake_statbuf_example :
    (stored : Time × Time) × (shown : Time) × (q : Process thousandths) × ((fake_two_timespec
          thousandths world false none
          (some (asked, asked))
          shifted
        ≡ ok (some stored, shifted))
      × (fake_statbuf thousandths world
            (record { ctime = asked; atime = stored.0; mtime = stored.1 })
            shifted
          ≡ ok (record { ctime = shown; atime = asked; mtime = asked }, q)))
fake_two_timespec-fake_statbuf_example =
    fake_two_timespec-fake_statbuf thousandths world shifted none asked asked asked refl
      shifted-Steady refl refl asked-Placed asked-Placed
