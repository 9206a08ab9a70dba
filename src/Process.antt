-- ===== src/Process.antt =====
-- The static variables of src/libfaketime.c that the functions of the model read and write.
use libfaketime.Base.{ℕ, Bool, Option, List}
use libfaketime.Base.Int.{ℤ, pos, negsuc}
use libfaketime.Floats.{Floats}
use libfaketime.TimeOps.{Time, time}
use libfaketime.Shared.{SystemTime, Shared}

-- enum ft_mode_t
pub data Mode : Type 0 where
  freeze start_at noop : Mode

-- The clocks that fake_clock_gettime tells apart; `other` is any other clock number.
pub data ClockId : Type 0 where
  realtime monotonic process_cputime thread_cputime monotonic_raw : ClockId
  realtime_coarse monotonic_coarse boottime other : ClockId

-- What a semaphore call returns: 0, -1 with EINTR, or -1 with another error.
pub data SemEvent : Type 0 where
  success interrupted failure : SemEvent

-- limited_faking, callcounter and the ft_start_after and ft_stop_after variables
pub record Limits : Type 0 where
  pub limited_faking : Bool
  pub callcounter : ℤ
  pub start_after_secs : ℤ
  pub stop_after_secs : ℤ
  pub start_after_ncalls : ℤ
  pub stop_after_ncalls : ℤ

-- spawnsupport, the ft_spawn variables, and how often system or run_spawn_exec was called, whether
-- or not a command was run by it
pub record Spawn : Type 0 where
  pub support : Bool
  pub spawned : Bool
  pub secs : ℤ
  pub ncalls : ℤ
  pub spawn_calls : ℕ

-- The user's request, as parse_ft_string leaves it.
pub record User (F : Floats) : Type 0 where
  pub mode : Mode
  pub faked_time : Time
  pub faked_time_set : Bool
  pub faked_time_saved : List ℕ
  pub offset : Time
  pub rate : F.Double
  pub rate_set : Bool
  pub per_tick_inc : Time
  pub per_tick_inc_set : Bool

-- last_data_fetch, cache_expired, cache_enabled, cache_duration and force_cache_expiration
pub record Cache : Type 0 where
  pub last_data_fetch : ℤ
  pub expired : Bool
  pub enabled : Bool
  pub duration : ℤ
  pub force_expiration : Bool

-- What ftpl_timecache and ftpl_faketimecache are when the library is loaded.
abbrev pub at_load : SystemTime
at_load = record {
  real = time (pos 0) (negsuc 0);
  mon = time (pos 0) (negsuc 0);
  mon_raw = time (pos 0) (negsuc 0);
  boot = time (pos 0) (negsuc 0);
}

pub record Process (F : Floats) : Type 0 where
  -- of the calling thread
  pub dont_fake : Bool
  pub limits : Limits
  pub spawn : Spawn
  pub user : User F
  pub cache : Cache
  pub parse_config_file : Bool
  pub fake_monotonic_clock : Bool
  -- ftpl_starttime, ftpl_timecache, ftpl_faketimecache
  pub start : SystemTime
  pub timecache : SystemTime
  pub faketimecache : SystemTime
  -- ft_shared; `none` where shared_sem_initialized is false
  pub shared : Option Shared
  -- what the next calls of ft_sem_lock and ft_sem_unlock return; success when it is used up
  pub sem_events : List SemEvent
  -- stss, as bytes; `none` where infile_set is false
  pub infile : Option (List ℕ)
  -- the bytes written so far; `none` where outfile is -1
  pub outfile : Option (List ℕ)
