-- ===== src/Clock/Internal.antt =====
-- __gettimeofday, __clock_gettime, __time and __ftime of src/libfaketime.c, with
-- FAKE_INTERNAL_CALLS. What the real functions store is an argument, as in Clock/Wrappers.
use libfaketime.Base.{Bool, true, false, not, ◌||◌, Option, none, some, if◌then◌else◌}
use libfaketime.Base.Int.{ℤ, pos, negsuc, ◌/ℤ◌}
use libfaketime.Floats.{Floats}
use libfaketime.Outcome.{Outcome, ok, ◌>>=◌}
use libfaketime.TimeOps.{Time}
use libfaketime.Process.{Process, ClockId, realtime}
use libfaketime.World.{World}
use libfaketime.Clock.{fake_clock_gettime}
use libfaketime.Clock.Steps.{is_monotonic}
use libfaketime.Clock.Wrappers.{fake_gettimeofday}

module _ (F : Floats) (w : World F) where
  pub internal_gettimeofday : Option Time → Process F → Outcome (ℤ × Option Time × Process F)
  internal_gettimeofday none p = ok (negsuc 0, none, p)
  internal_gettimeofday (some tv) p = do (r, t, q) ← fake_gettimeofday F w tv p; ok (r, some t, q)

  pub internal_clock_gettime :
      Option Time → ClockId → Process F → Outcome (ℤ × Option Time × Process F)
  internal_clock_gettime none clk p = ok (negsuc 0, none, p)
  internal_clock_gettime (some real) clk p =
      if p.fake_monotonic_clock || not (is_monotonic clk)
      then (fake_clock_gettime F w clk real p >>= λ r. ok (r.0, some r.1, r.2))
      else ok (pos 0, some real, p)

  -- The seconds that are returned, and stored where the argument is not NULL.
  pub internal_time : Option Time → Process F → Outcome (ℤ × Process F)
  internal_time none p = ok (negsuc 0, p)
  internal_time (some real) p = do (r, t, q) ← fake_clock_gettime F w realtime real p; ok (t.sec, q)

  -- The arguments are those of `ftime`.
  pub internal_ftime :
      Option Bool → Option Time → Process F → Outcome (ℤ × Option (ℤ × ℤ) × Process F)
  internal_ftime none now p = ok (pos 0, none, p)
  internal_ftime (some false) now p = ok (negsuc 0, none, p)
  internal_ftime (some true) none p = ok (negsuc 0, none, p)
  internal_ftime (some true) (some t) p = do
    (r, t', q) ← fake_clock_gettime F w realtime t p
    ok (pos 0, some (t'.sec, t'.sub /ℤ 1000000), q)
