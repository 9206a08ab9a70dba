-- ===== src/Timers.antt =====
-- Timers: timer_settime, timer_gettime and the timerfd functions of src/libfaketime.c, with the
-- table timerfd_clocks. The real functions are arguments, `none` where they were not found; strtol
-- belongs to the C library and is a parameter.
pub mod Table
pub mod Deadline
use libfaketime.Base.{
  ◌&&◌, ◌||◌, Bool, true, false, not, Option, none, some, List, ℕ, if◌then◌else◌,
}
use libfaketime.Base.Int.{ℤ, pos, negsuc, eqb_ℤ}
use libfaketime.Floats.{Floats}
use libfaketime.Outcome.{Outcome, ok, ◌>>=◌}
use libfaketime.TimeOps.{Time, is_set, timespecadd, timespecsub}
use libfaketime.TimeOps.Scale.{normalize_timespec_value}
use libfaketime.Process.{Process, realtime}
use libfaketime.World.{World}
use libfaketime.Seeded.{Converted}
use libfaketime.Clock.{fake_clock_gettime}
use libfaketime.Wait.{rated, slower, faster, real_difference}
use Table.{Entry, timerfd_clock, remember_timerfd_clock, clock_realtime, clock_monotonic}

-- struct itimerspec
pub record Itimerspec : Type 0 where
  pub interval : Time
  pub value : Time

-- A real function that sets a timer: its result and the old setting, for a new one or NULL.
abbrev pub SetTimer : Type 0
SetTimer = Option Itimerspec → ℤ × Itimerspec

-- A real function that reads a timer.
abbrev pub GetTimer : Type 0
GetTimer = ℤ × Itimerspec

-- The functions that were found in the C library.
pub record Reals : Type 0 where
  pub settime_22 : Option SetTimer
  pub settime_233 : Option SetTimer
  pub timerfd_settime : Option SetTimer
  pub gettime_22 : Option GetTimer
  pub gettime_233 : Option GetTimer
  pub timerfd_gettime : Option GetTimer

module _ (F : Floats) where
  -- normalize_timespec_value(&user_faked_time_timespec)
  normalize_user : Process F → Process F
  normalize_user p =
      let u = p.user in
      record p { user = record u { faked_time = normalize_timespec_value u.faked_time } }

  -- A deadline, and the process after it.
  deadline : ℤ → Time → Process F → Time × Process F
  unfolding normalize_user
  deadline clock t p =
      if eqb_ℤ clock clock_monotonic
      then (if p.fake_monotonic_clock
          then (timespecadd p.start.mon (real_difference F (normalize_user p) t), normalize_user p)
          else (t, p))
      else (timespecadd p.start.real (real_difference F p t), p)

  -- The it_value for the real function; `absolute` is flags & abstime_flag.
  timer_value : Bool → ℤ → Time → Process F → Time × Process F
  unfolding deadline
  timer_value absolute clock t p =
      if is_set t
      then (if absolute
          then deadline clock t p
          else (if p.user.rate_set then slower F p t else t, p))
      else (t, p)

  timer_interval : Process F → Time → Time
  timer_interval p t = if p.user.rate_set && is_set t then slower F p t else t

  -- The new setting for the real function.
  pub real_setting : Bool → ℤ → Option Itimerspec → Process F → Option Itimerspec × Process F
  real_setting absolute clock none p = (none, p)
  real_setting absolute clock (some new) p =
      if p.dont_fake
      then (some new, p)
      else (let (value, q) = timer_value absolute clock new.value p in
          (some (record { interval = timer_interval q new.interval; value = value }), q))

module _ (F : Floats) (w : World F) where
  -- The old it_value for the caller, with the result.
  old_value : ℤ → Time → Process F → Outcome (ℤ × Time × Process F)
  old_value result t p = if is_set t then fake_clock_gettime F w realtime t p else ok (result, t, p)

  old_interval : Process F → Time → Time
  old_interval p t = if p.user.rate_set && is_set t then faster F p t else t

  -- The old setting for the caller; `wanted` says that old_value is not NULL.
  pub fake_setting : Bool → ℤ × Itimerspec → Process F → Outcome (ℤ × Itimerspec × Process F)
  unfolding old_value old_interval
  fake_setting wanted (result, old) p =
      if not (eqb_ℤ result (negsuc 0)) && (wanted && not p.dont_fake)
      then (old_value result old.value p >>= λ r.
          ok (r.0, record { interval = old_interval r.2 old.interval; value = r.1 }, r.2))
      else ok (result, old, p)

  -- timer_settime_common, with the function that `compat` selects
  pub timer_settime_common :
      SetTimer
      → Bool
      → ℤ
      → Option Itimerspec
      → Bool
      → Process F
      → Outcome (ℤ × Itimerspec × Process F)
  timer_settime_common real absolute clock new wanted p =
      let (setting, q) = real_setting F absolute clock new p in fake_setting wanted (real setting) q

  stored : ℤ × Itimerspec × Process F → Outcome (ℤ × Option Itimerspec × Process F)
  stored (r, old, p) = ok (r, some old, p)

  set_timer :
      Option SetTimer
      → Bool
      → ℤ
      → Option Itimerspec
      → Bool
      → Process F
      → Outcome (ℤ × Option Itimerspec × Process F)
  unfolding stored timer_settime_common
  set_timer none absolute clock new wanted p = ok (negsuc 0, none, p)
  set_timer (some real) absolute clock new wanted p =
      timer_settime_common real absolute clock new wanted p >>= stored

  pub timer_settime_22 :
      Reals
      → Bool
      → Option Itimerspec
      → Bool
      → Process F
      → Outcome (ℤ × Option Itimerspec × Process F)
  unfolding set_timer
  timer_settime_22 reals absolute new wanted p =
      set_timer reals.settime_22 absolute clock_realtime new wanted p

  pub timer_settime_233 :
      Reals
      → Bool
      → Option Itimerspec
      → Bool
      → Process F
      → Outcome (ℤ × Option Itimerspec × Process F)
  unfolding set_timer
  timer_settime_233 reals absolute new wanted p =
      set_timer reals.settime_233 absolute clock_realtime new wanted p

  -- timerfd_settime, with what timerfd_clock finds in the table and in /proc
  pub timerfd_settime :
      (List ℕ → Converted ℤ)
      → Bool
      → Option (List ℕ)
      → List Entry
      → Reals
      → ℤ
      → Bool
      → Option Itimerspec
      → Bool
      → Process F
      → Outcome (ℤ × Option Itimerspec × Process F)
  unfolding set_timer
  timerfd_settime strtol locked fdinfo es reals fd absolute new wanted p =
      set_timer reals.timerfd_settime absolute (timerfd_clock strtol locked fdinfo fd es) new wanted
        p

module _ (F : Floats) where
  -- timer_gettime_common; `wanted` says that curr_value is not NULL, and `none` is the return value
  -- -1 with nothing stored.
  pub timer_gettime_common : Option GetTimer → GetTimer → Bool → Process F → Option (ℤ × Itimerspec)
  timer_gettime_common none real wanted p = none
  timer_gettime_common (some checked) (result, current) wanted p = some (
    result,
    if not (eqb_ℤ result (negsuc 0)) && (wanted && rated F p)
        then record { interval = faster F p current.interval; value = faster F p current.value }
        else current,
  )

  get_timer : Option GetTimer → Option GetTimer → Bool → Process F → Option (ℤ × Itimerspec)
  unfolding timer_gettime_common
  get_timer checked none wanted p = none
  get_timer checked (some real) wanted p = timer_gettime_common checked real wanted p

  -- timer_gettime and timerfd_gettime; `none` is the return value -1 of a missing function. The
  -- common part looks at timer_gettime of GLIBC 2.3.3 for all three of them.
  pub timer_gettime_22 : Reals → Bool → Process F → Option (ℤ × Itimerspec)
  unfolding get_timer
  timer_gettime_22 reals wanted p = get_timer reals.gettime_233 reals.gettime_22 wanted p

  pub timer_gettime_233 : Reals → Bool → Process F → Option (ℤ × Itimerspec)
  unfolding get_timer
  timer_gettime_233 reals wanted p = get_timer reals.gettime_233 reals.gettime_233 wanted p

  pub timerfd_gettime : Reals → Bool → Process F → Option (ℤ × Itimerspec)
  unfolding get_timer
  timerfd_gettime reals wanted p = get_timer reals.gettime_233 reals.timerfd_gettime wanted p
