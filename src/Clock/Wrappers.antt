-- ===== src/Clock/Wrappers.antt =====
-- gettimeofday, fake_gettimeofday, ftime and timespec_get of src/libfaketime.c, on top of
-- fake_clock_gettime. What the real functions store is an argument, `none` for a failure or for a
-- missing function.
pub mod Laws
use libfaketime.Base.{Bool, true, false, Option, none, some}
use libfaketime.Base.Int.{ℤ, pos, negsuc, ◌+ℤ◌, ◌*ℤ◌, ◌/ℤ◌, ◌%ℤ◌}
use libfaketime.Floats.{Floats}
use libfaketime.Outcome.{Outcome, ok, ◌>>=◌}
use libfaketime.TimeOps.{Time, time}
use libfaketime.Process.{Process, realtime}
use libfaketime.World.{World}
use libfaketime.Clock.{fake_clock_gettime}

module _ (F : Floats) where
  -- The microseconds of a struct timeval with the part of the start time below them.
  unfoldable pub with_start : Process F → Time → Time
  with_start p tv = time tv.sec (tv.sub *ℤ 1000 +ℤ p.start.real.sub %ℤ 1000)

module _ (F : Floats) (w : World F) where
  unfoldable pub fake_gettimeofday : Time → Process F → Outcome (ℤ × Time × Process F)
  unfolding with_start
  fake_gettimeofday tv p = do
    (r, t, q) ← fake_clock_gettime F w realtime (with_start F p tv) p
    ok (r, time t.sec (t.sub /ℤ 1000), q)

  -- gettimeofday: the result, what is stored, and the new state
  unfoldable pub gettimeofday : Option Time → Process F → Outcome (ℤ × Option Time × Process F)
  unfolding fake_gettimeofday
  gettimeofday none p = ok (negsuc 0, none, p)
  gettimeofday (some tv) p = do (r, t, q) ← fake_gettimeofday tv p; ok (r, some t, q)

  -- ftime: the time and the milliseconds that it stores; `real` is whether the real ftime succeeds,
  -- if it was found, and `now` what the real clock_gettime stores.
  pub ftime : Option Bool → Option Time → Process F → Outcome (ℤ × Option (ℤ × ℤ) × Process F)
  ftime none now p = ok (pos 0, none, p)
  ftime (some false) now p = ok (negsuc 0, none, p)
  ftime (some true) none p = ok (negsuc 0, none, p)
  ftime (some true) (some t) p = do
    (r, t', q) ← fake_clock_gettime F w realtime t p
    ok (pos 0, some (t'.sec, t'.sub /ℤ 1000000), q)

  -- timespec_get, for a real function that returns `base`
  pub timespec_get : Option Time → ℤ → Process F → Outcome (ℤ × Option Time × Process F)
  timespec_get none base p = ok (pos 0, none, p)
  timespec_get (some t) base p = do
    (r, t', q) ← fake_clock_gettime F w realtime t p
    ok (base, some t', q)
