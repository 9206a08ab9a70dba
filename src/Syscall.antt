-- ===== src/Syscall.antt =====
-- syscall() of src/libfaketime.c: which raw system calls are answered by the library, and
-- clock_nanosleep among them. The library is compiled with FAKE_RANDOM, FAKE_SLEEP and
-- INTERCEPT_FUTEX.
pub mod Futex
pub mod Laws
use libfaketime.Base.{Bool, true, false, not, ◌&&◌, ◌||◌, Option, none, some, if◌then◌else◌}
use libfaketime.Base.Int.{ℤ, pos, negsuc, eqb_ℤ}
use libfaketime.Floats.{Floats}
use libfaketime.TimeOps.{Time, is_set, timespecadd, timespecsub}
use libfaketime.Process.{Process, ClockId, realtime, monotonic}
use libfaketime.World.{World}
use libfaketime.Clock.{fake_monotonic_setting}
use libfaketime.Wait.{rated, slower, faster}
use libfaketime.Startup.Flags.{is_some}

-- The numbers that syscall() tells apart.
pub data Number : Type 0 where
  nr_getrandom nr_clock_gettime nr_clock_nanosleep nr_futex : Number
  nr_other : Number

-- Who answers: a function of the library, or the kernel.
pub data Route : Type 0 where
  to_getrandom to_clock_gettime to_clock_nanosleep to_futex : Route
  to_kernel : Route

module _ (F : Floats) (w : World F) where
  -- getenv("FAKETIME") || getenv("FAKETIME_TIMESTAMP_FILE")
  requested : Bool
  requested = is_some (w.getenv "FAKETIME") || is_some (w.getenv "FAKETIME_TIMESTAMP_FILE")

  pub route : Number → Route
  unfolding requested
  route nr_getrandom = if is_some (w.getenv "FAKERANDOM_SEED") then to_getrandom else to_kernel
  route nr_clock_gettime = if requested then to_clock_gettime else to_kernel
  route nr_clock_nanosleep = if requested then to_clock_nanosleep else to_kernel
  route nr_futex = to_futex
  route nr_other = to_kernel

  -- The difference from the user's time, in real time.
  raw_difference : Process F → Time → Time
  raw_difference p t =
      let timeadj = timespecsub t p.user.faked_time in
      if p.user.rate_set then slower F p timeadj else timeadj

  -- real_req of an absolute sleep, with the process after it
  raw_deadline : ClockId → Time → Process F → Time × Process F
  unfolding raw_difference
  raw_deadline realtime t p = (timespecadd p.start.real (raw_difference p t), p)
  raw_deadline monotonic t p =
      let q = record p {
        fake_monotonic_clock = fake_monotonic_setting F w p.fake_monotonic_clock;
      } in
      (if q.fake_monotonic_clock then timespecadd p.start.mon (raw_difference p t) else t, q)
  raw_deadline clk t p = (t, p)

  -- real_req of a relative sleep
  raw_interval : ClockId → Time → Process F → Time
  raw_interval realtime t p = if rated F p then slower F p t else t
  raw_interval monotonic t p = if rated F p then slower F p t else t
  raw_interval clk t p = t

  -- real_req; `absolute` is flags & TIMER_ABSTIME.
  pub raw_request : ClockId → Bool → Time → Process F → Time × Process F
  unfolding raw_deadline raw_interval
  raw_request clk true t p = raw_deadline clk t p
  raw_request clk false t p = (raw_interval clk t p, p)

  -- *rem, where rc is 0
  raw_remaining : Process F → ℤ → Option Time → Option Time
  raw_remaining p rc none = none
  raw_remaining p rc (some rem) =
      some (if eqb_ℤ rc (pos 0) && (is_set rem && rated F p) then faster F p rem else rem)

  -- A raw clock_nanosleep: the kernel's answer is its result and *rem, `none` where rem is NULL.
  pub raw_clock_nanosleep :
      (Option Time → ℤ × Option Time)
      → ClockId
      → Bool
      → Option Time
      → Process F
      → ℤ × Option Time × Process F
  unfolding raw_request raw_remaining
  raw_clock_nanosleep kernel clk absolute none p = let (rc, rem) = kernel none in (rc, rem, p)
  raw_clock_nanosleep kernel clk absolute (some req) p =
      let (real_req, q) = raw_request clk absolute req p in
      let (rc, rem) = kernel (some real_req) in (rc, raw_remaining q rc rem, q)
