-- ===== src/Tests/Calls.antt =====
-- Raw system calls of the concrete process, and the semaphores of concrete processes.
use libfaketime.Base.{[], some, true, ◌≡◌, if◌then◌else◌}
use libfaketime.Outcome.{ok}
use libfaketime.TimeOps.{Time}
use libfaketime.TimeOps.Total.{nanos_laws}
use libfaketime.Process.{realtime, monotonic}
use libfaketime.Clock.{advanced_time}
use libfaketime.Clock.Calls.{steady_end}
use libfaketime.Wait.{sleep_deadline, sleep_interval, reread_monotonic}
use libfaketime.Syscall.{raw_request}
use libfaketime.Syscall.Laws.{raw_request-clock_nanosleep}
use libfaketime.Syscall.Futex.{handle_futex_syscall, wait_bitset, waits}
use libfaketime.Syscall.Futex.Laws.{handle_futex_syscall_shows}
use libfaketime.Tests.{thousandths, process, world, hundred, at_thousand}
use libfaketime.Tests.Clocks.{first, process-Steady, first-Shifting}
use libfaketime.Tests.Waits.{asked}
use libfaketime.Tests.Alarms.{asked-InReach}

handle_futex_syscall_shows_example :
    (d : Time) × (handle_futex_syscall thousandths world wait_bitset true
        (some asked)
        first
        []
        process
      ≡ ok (waits (some d), steady_end thousandths world process realtime first))
    × (advanced_time thousandths at_thousand hundred realtime d ≡ asked)
handle_futex_syscall_shows_example =
    handle_futex_syscall_shows thousandths world process first asked process-Steady first-Shifting
      asked-InReach (omega nanos_laws) (omega nanos_laws) (omega nanos_laws)

raw_request-clock_nanosleep_example : raw_request thousandths world monotonic true asked process ≡ (
  if true
      then sleep_deadline thousandths
          (reread_monotonic thousandths world monotonic true process)
          monotonic
          asked
      else sleep_interval thousandths
          (reread_monotonic thousandths world monotonic true process)
          monotonic
          asked,
  reread_monotonic thousandths world monotonic true process,
)
raw_request-clock_nanosleep_example =
    raw_request-clock_nanosleep thousandths world monotonic true asked process
