-- ===== src/Syscall/Laws.antt =====
-- The raw clock_nanosleep against the function clock_nanosleep, of src/libfaketime.c.
use libfaketime.Base.{Bool, true, false, if◌then◌else◌, ◌≡◌, refl}
use libfaketime.Floats.{Floats}
use libfaketime.TimeOps.{Time}
use libfaketime.Process.{Process, ClockId, realtime, monotonic}
use libfaketime.World.{World}
use libfaketime.Wait.{
  real_interval, sleep_deadline, sleep_interval, reread_monotonic, real_difference,
}
use libfaketime.Syscall.{raw_request, raw_deadline, raw_interval, raw_difference}

module _ (F : Floats) (w : World F) where
  -- The two routines that convert what a program asks of clock_nanosleep, the one in syscall() and
  -- the one behind the C function, agree: for every clock, flag, time and process they ask the
  -- same of the kernel and leave the same process.
  pub raw_request-clock_nanosleep :
      (clk : ClockId) (absolute : Bool) (t : Time) (p : Process F)
      → raw_request F w clk absolute t p ≡ (
        if absolute
            then sleep_deadline F (reread_monotonic F w clk absolute p) clk t
            else sleep_interval F (reread_monotonic F w clk absolute p) clk t,
        reread_monotonic F w clk absolute p,
      )
  unfolding raw_request raw_deadline raw_interval raw_difference sleep_deadline sleep_interval
      reread_monotonic real_interval real_difference
  raw_request-clock_nanosleep realtime true t p = refl
  raw_request-clock_nanosleep realtime false t p = refl
  raw_request-clock_nanosleep monotonic true t p = refl
  raw_request-clock_nanosleep monotonic false t p = refl
  raw_request-clock_nanosleep _ true t p = refl
  raw_request-clock_nanosleep _ false t p = refl
