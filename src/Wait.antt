-- ===== src/Wait.antt =====
-- The functions that wait, of src/libfaketime.c: what they ask of the real function, and what they
-- make of its answer. The real function is an argument, `none` where it was not found.
pub mod Deadline
pub mod Timeout
pub mod FromNow
pub mod Sleep
pub mod Semaphores
use libfaketime.Base.{
  ℕ, ◌-◌, ◌*◌, ◌/◌, ◌%◌, ◌^◌, Bool, true, false, not, ◌&&◌, ◌||◌, Option, none, some, if◌then◌else◌,
}
use libfaketime.Base.Int.{ℤ, pos, negsuc, ◌*ℤ◌, ◌/ℤ◌, ltb_ℤ, leb_ℤ, eqb_ℤ}
use libfaketime.Floats.{Floats}
use libfaketime.TimeOps.{Time, time, is_set, timespecadd, timespecsub}
use libfaketime.TimeOps.Scale.{timespecmul}
use libfaketime.Process.{Process, ClockId, realtime, monotonic}
use libfaketime.World.{World}
use libfaketime.Clock.{fake_monotonic_setting}
use libfaketime.Clock.Steps.{start_of}

abbrev pub int_max : ℤ
int_max = pos (2 ^ 31 - 1)

-- What a sleeping function returns, with the time that remains.
pub record Slept : Type 0 where
  pub result : ℤ
  pub remaining : Time

module _ (F : Floats) where
  open F use {of_double, of_ℤ, inverse, div, ceil, le, lt, trunc}

  -- user_rate_set && !dont_fake
  unfoldable pub rated : Process F → Bool
  rated p = p.user.rate_set && not p.dont_fake

  pub slower : Process F → Time → Time
  slower p t = timespecmul F t (of_double (inverse p.user.rate))

  pub faster : Process F → Time → Time
  faster p t = timespecmul F t (of_double p.user.rate)

  -- A relative time for the real function, and a remaining time for the caller.
  unfoldable pub real_interval : Process F → Time → Time
  unfolding rated slower
  real_interval p t = if rated p then slower p t else t

  pub fake_remaining : Process F → Time → Time
  unfolding rated faster
  fake_remaining p t = if is_set t && rated p then faster p t else t

  -- What the caller sees of an answer: the remaining time is converted unless the result is -1.
  returned : Process F → Slept → Slept
  unfolding fake_remaining
  returned p r =
      if eqb_ℤ r.result (negsuc 0)
      then r
      else record { result = r.result; remaining = fake_remaining p r.remaining }

  -- nanosleep; `none` is the return value -1 for a missing function or argument.
  pub nanosleep : Process F → Option (Time → Slept) → Option Time → Option Slept
  unfolding returned real_interval
  nanosleep p none req = none
  nanosleep p (some real) none = none
  nanosleep p (some real) (some req) = some (returned p (real (real_interval p req)))

  -- The difference from the user's time to a point of the fake clock, in real time.
  unfoldable pub real_difference : Process F → Time → Time
  unfolding slower
  real_difference p t =
      let d = timespecsub t p.user.faked_time in if p.user.rate_set then slower p d else d

  -- A deadline of clock_nanosleep with TIMER_ABSTIME.
  unfoldable pub sleep_deadline : Process F → ClockId → Time → Time
  unfolding real_difference
  sleep_deadline p realtime t = timespecadd p.start.real (real_difference p t)
  sleep_deadline p monotonic t =
      if p.fake_monotonic_clock then timespecadd p.start.mon (real_difference p t) else t
  sleep_deadline p clk t = t

  -- A relative time of clock_nanosleep.
  unfoldable pub sleep_interval : Process F → ClockId → Time → Time
  unfolding real_interval
  sleep_interval p realtime t = real_interval p t
  sleep_interval p monotonic t = real_interval p t
  sleep_interval p clk t = t

  -- With TIMER_ABSTIME and CLOCK_MONOTONIC, the setting for monotonic clocks is read again.
  unfoldable pub reread_monotonic : World F → ClockId → Bool → Process F → Process F
  reread_monotonic w monotonic true p = record p {
    fake_monotonic_clock = fake_monotonic_setting F w p.fake_monotonic_clock;
  }
  reread_monotonic w clk absolute p = p

  -- clock_nanosleep: the new state, and its answer
  pub clock_nanosleep :
      World F
      → Option (Time → Slept)
      → ClockId
      → Bool
      → Option Time
      → Process F
      → Process F × Option Slept
  unfolding returned sleep_deadline sleep_interval reread_monotonic
  clock_nanosleep w none clk absolute req p = (p, none)
  clock_nanosleep w (some real) clk absolute none p = (p, none)
  clock_nanosleep w (some real) clk absolute (some req) p =
      let q = reread_monotonic w clk absolute p in
      let real_req = if absolute then sleep_deadline q clk req else sleep_interval q clk req in
      (q, some (returned q (real real_req)))

  -- scale_timeout_milliseconds, for poll, epoll_wait and epoll_pwait
  pub scale_timeout_milliseconds : Process F → ℤ → ℤ
  unfolding rated
  scale_timeout_milliseconds p timeout =
      let scaled = ceil (div (of_ℤ timeout) (of_double p.user.rate)) in
      if leb_ℤ timeout (pos 0) || not (rated p)
      then timeout
      else if le (of_ℤ int_max) scaled
      then int_max
      else if lt scaled (of_ℤ (pos 1))
      then pos 1
      else trunc scaled

  -- poll, epoll_wait and epoll_pwait
  pub poll {ℓ} : {A : Type ℓ} → Process F → Option (ℤ → A) → ℤ → Option A
  poll p none timeout = none
  poll p (some real) timeout = some (real (scale_timeout_milliseconds p timeout))

  -- The timeout of ppoll, pselect and select: a zero timeout is passed on as it is.
  pub real_timeout : Process F → Time → Time
  unfolding rated slower
  real_timeout p t =
      if rated p && (ltb_ℤ (pos 0) t.sec || ltb_ℤ (pos 0) t.sub) then slower p t else t

  real_timeout? : Process F → Option Time → Option Time
  unfolding real_timeout
  real_timeout? p none = none
  real_timeout? p (some t) = some (real_timeout p t)

  -- The real function is `none` where it is missing; then the return value is -1.
  pub ppoll {ℓ} : {A : Type ℓ} → Process F → Option (Option Time → A) → Option Time → Option A
  unfolding real_timeout?
  ppoll p none timeout = none
  ppoll p (some real) timeout = some (real (real_timeout? p timeout))

  pub pselect {ℓ} : {A : Type ℓ} → Process F → Option (Option Time → A) → Option Time → Option A
  unfolding real_timeout?
  pselect p none timeout = none
  pselect p (some real) timeout = some (real (real_timeout? p timeout))

  -- A struct timeval as a struct timespec, and back.
  abbrev to_timespec : Time → Time
  to_timespec t = time t.sec (t.sub *ℤ 1000)

  abbrev to_timeval : Time → Time
  to_timeval t = time t.sec (t.sub /ℤ 1000)

  select_timeout : Process F → Time → Time
  unfolding rated slower
  select_timeout p t =
      if rated p && (ltb_ℤ (pos 0) t.sec || ltb_ℤ (pos 0) t.sub)
      then to_timeval (slower p (to_timespec t))
      else t

  -- What select writes into the caller's timeout: nothing, if there is no rate.
  select_left : Process F → Time → Time → Time
  unfolding faster
  select_left p t left = if p.user.rate_set then to_timeval (faster p (to_timespec left)) else t

  -- select; the real function returns its result, and the timeout as it leaves it.
  pub select {ℓ} :
      {A : Type ℓ}
      → Process F
      → Option (Option Time → A × Time)
      → Option Time
      → Option (A × Option Time)
  unfolding select_timeout select_left
  select p none timeout = none
  select p (some real) none = some ((real none).0, none)
  select p (some real) (some t) =
      let (r, left) = real (some (select_timeout p t)) in some (r, some (select_left p t left))

  -- usleep, where nanosleep was found: the time that is slept.
  pub usleep_interval : Process F → ℕ → Time
  unfolding slower
  usleep_interval p usec = slower p (time (pos (usec / 1000000)) (pos (usec % 1000000 * 1000)))

  -- sem_timedwait: the deadline that is waited for.
  pub sem_timedwait_deadline : Process F → Time → Time
  unfolding faster
  sem_timedwait_deadline p t =
      let d = timespecsub t p.user.faked_time in
      if p.dont_fake
      then t
      else timespecadd p.start.real (if p.user.rate_set then faster p d else d)

  -- sem_clockwait: the deadline that is waited for; `fake_now` is what fake_clock_gettime makes of
  -- the monotonic clock.
  unfoldable pub sem_clockwait_deadline : Process F → ClockId → Time → Time → Time
  unfolding slower
  sem_clockwait_deadline p realtime fake_now t =
      let d = timespecsub t p.user.faked_time in
      if p.dont_fake
      then t
      else timespecadd p.start.real (if p.user.rate_set then slower p d else d)
  sem_clockwait_deadline p monotonic fake_now t =
      let d = timespecsub t fake_now in
      if not p.fake_monotonic_clock || p.dont_fake
      then t
      else timespecadd p.start.mon (if p.user.rate_set then slower p d else d)
  sem_clockwait_deadline p clk fake_now t = t
