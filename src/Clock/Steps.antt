-- ===== src/Clock/Steps.antt =====
-- The parts of fake_clock_gettime (src/libfaketime.c) that need no conversion of text: the start
-- time of a clock, the limits, the external command, and the age of the request.
pub mod Window
use libfaketime.Base.{◌+◌, Bool, true, false, not, ◌&&◌, ◌||◌, if◌then◌else◌}
use libfaketime.Base.Int.{ℤ, pos, negsuc, ◌+ℤ◌, ◌-ℤ◌, ltb_ℤ, leb_ℤ, eqb_ℤ}
use libfaketime.TimeOps.{Time, time_max}
use libfaketime.Shared.{SystemTime}
use libfaketime.Process.{
  Limits, Spawn, Cache, ClockId, realtime, monotonic, process_cputime, thread_cputime,
  monotonic_raw, realtime_coarse, monotonic_coarse, boottime, other,
}

-- The start time that belongs to a clock: the switches on `clk_id`.
unfoldable pub start_of : ClockId → SystemTime → Time
start_of realtime s = s.real
start_of realtime_coarse s = s.real
start_of monotonic s = s.mon
start_of monotonic_coarse s = s.mon
start_of monotonic_raw s = s.mon_raw
start_of boottime s = s.boot
start_of process_cputime s = s.real
start_of thread_cputime s = s.real
start_of other s = s.real

-- The value -1 of a bound means that it is not set.
abbrev unset : ℤ
unset = negsuc 0

bound_set : ℤ → Bool
bound_set b = not (eqb_ℤ b unset)

-- callcounter is counted up to LONG_MAX, if some bound needs it.
unfoldable pub count_call : Limits → Spawn → Limits
unfolding bound_set
count_call l s =
    if (l.limited_faking && (bound_set l.start_after_ncalls || bound_set l.stop_after_ncalls))
      || (s.support && not (eqb_ℤ s.ncalls (pos 0)))
    then (if ltb_ℤ l.callcounter time_max
        then record l { callcounter = l.callcounter +ℤ pos 1 }
        else l)
    else l

-- Whether the real time is to be returned, `elapsed` seconds after the start.
unfoldable pub outside_limits : Limits → ℤ → Bool
unfolding bound_set
outside_limits l elapsed =
    (bound_set l.start_after_secs && ltb_ℤ elapsed l.start_after_secs)
    || ((bound_set l.stop_after_secs && leb_ℤ l.stop_after_secs elapsed)
        || ((bound_set l.start_after_ncalls && ltb_ℤ l.callcounter l.start_after_ncalls)
            || (bound_set l.stop_after_ncalls && leb_ℤ l.stop_after_ncalls l.callcounter)))

-- system or run_spawn_exec is called, once, when the time or the call of the command has come.
unfoldable pub spawn_step : Spawn → ℤ → ℤ → Spawn
spawn_step s callcounter elapsed =
    if s.support
      && (not s.spawned
          && ((ltb_ℤ (negsuc 0) s.secs && leb_ℤ s.secs elapsed) || eqb_ℤ callcounter s.ncalls))
    then record s { spawned = true; spawn_calls = s.spawn_calls + 1 }
    else s

-- Whether the user's request has to be read again, and the flags after that decision.
unfoldable pub expire : Cache → Time → Cache
expire c now =
    let aged =
      if ltb_ℤ (pos 0) c.last_data_fetch
      then ltb_ℤ c.duration (now.sec -ℤ c.last_data_fetch)
      else c.expired in
    record c { expired = aged || (not c.enabled || c.force_expiration); force_expiration = false }

-- The cached time of a clock; the coarse clocks have none.
unfoldable pub set_clock : ClockId → Time → SystemTime → SystemTime
set_clock realtime t s = record s { real = t }
set_clock monotonic t s = record s { mon = t }
set_clock monotonic_raw t s = record s { mon_raw = t }
set_clock boottime t s = record s { boot = t }
set_clock realtime_coarse t s = s
set_clock monotonic_coarse t s = s
set_clock process_cputime t s = s
set_clock thread_cputime t s = s
set_clock other t s = s

-- The clocks that clock_gettime leaves alone if the monotonic clock is not to be faked.
pub is_monotonic : ClockId → Bool
is_monotonic monotonic = true
is_monotonic monotonic_raw = true
is_monotonic monotonic_coarse = true
is_monotonic boottime = true
is_monotonic realtime = false
is_monotonic realtime_coarse = false
is_monotonic process_cputime = false
is_monotonic thread_cputime = false
is_monotonic other = false
