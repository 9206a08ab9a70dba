-- ===== src/Wait/Semaphores.antt =====
-- sem_timedwait and sem_clockwait of src/libfaketime.c: the whole functions.
pub mod Laws
use libfaketime.Base.{Bool, true, false, not, ◌&&◌, Option, none, some, if◌then◌else◌}
use libfaketime.Base.Int.{ℤ, negsuc, eqb_ℤ}
use libfaketime.Floats.{Floats}
use libfaketime.Outcome.{Outcome, ok, ◌>>=◌}
use libfaketime.TimeOps.{Time}
use libfaketime.Process.{Process, ClockId, realtime, monotonic}
use libfaketime.World.{World}
use libfaketime.Clock.{fake_clock_gettime}
use libfaketime.Wait.{sem_timedwait_deadline, sem_clockwait_deadline}

-- clockid == CLOCK_MONOTONIC
abbrev is_monotonic_wait : ClockId → Bool
is_monotonic_wait monotonic = true
is_monotonic_wait _ = false

module _ (F : Floats) where
  -- sem_timedwait; `none` is the return value -1 for a missing function or timeout.
  pub sem_timedwait {ℓ} : {A : Type ℓ} → Process F → Option (Time → A) → Option Time → Option A
  sem_timedwait p real none = none
  sem_timedwait p none (some t) = none
  sem_timedwait p (some real) (some t) = some (real (sem_timedwait_deadline F p t))

module _ (F : Floats) (w : World F) where
  -- From the deadline to the result of the real function, on a fake monotonic clock.
  clockwait_monotonic :
      (ClockId → Option Time → ℤ) → Time → ℤ × Time × Process F → Outcome (ℤ × Process F)
  clockwait_monotonic real t (r, fake, q) = ok (
    if eqb_ℤ r (negsuc 0)
        then negsuc 0
        else real monotonic (some (sem_clockwait_deadline F q monotonic fake t)),
    q,
  )

  -- From the test of `abstime` on.
  clockwait_until :
      (ClockId → Option Time → ℤ)
      → Option Time
      → ClockId
      → Time
      → Process F
      → Outcome (ℤ × Process F)
  unfolding clockwait_monotonic
  clockwait_until real now realtime t p =
      ok (real realtime (some (sem_clockwait_deadline F p realtime t t)), p)
  clockwait_until real now monotonic t p =
      if p.dont_fake then ok (real monotonic (some t), p) else elim now [
        | none ↦ ok (negsuc 0, p)
        | some n ↦ (fake_clock_gettime F w monotonic n p >>= clockwait_monotonic real t)
      ]
  clockwait_until real now clk t p = ok (real clk (some t), p)

  -- sem_clockwait_common: its result, where `now` is what the real clock_gettime stores
  pub sem_clockwait :
      Option (ClockId → Option Time → ℤ)
      → Option Time
      → ClockId
      → Option Time
      → Process F
      → Outcome (ℤ × Process F)
  unfolding clockwait_until
  sem_clockwait none now clk t p = ok (negsuc 0, p)
  sem_clockwait (some real) now clk t p =
      if not p.fake_monotonic_clock && is_monotonic_wait clk
      then ok (real clk t, p)
      else elim t [ none ↦ ok (negsuc 0, p) | some t' ↦ clockwait_until real now clk t' p ]
