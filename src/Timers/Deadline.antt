-- ===== src/Timers/Deadline.antt =====
-- The deadlines of the timers of src/libfaketime.c, against the fake clocks.
use libfaketime.Floats.{Floats}
use libfaketime.TimeOps.{Time, timespecadd, timespecsub}
use libfaketime.Process.{Process, ClockId}
use libfaketime.World.{World}
use libfaketime.Clock.Steps.{start_of}

module _ (F : Floats) where
  abbrev plain_deadline : Process F → ClockId → Time → Time
  plain_deadline p clk t = timespecadd (start_of clk p.start) (timespecsub t p.user.faked_time)
