-- ===== src/Tests.antt =====
-- A concrete arithmetic, environment and process, on which the theorems are applied.
mod Times
mod Clocks
mod Files
mod Waits
mod Requests
mod Seeds
mod Objects
mod Starts
mod Stamps
mod Alarms
mod Settings
mod Starting
mod Calls
mod Sequences
mod Frozen
mod Offset
mod Sessions
mod Programs
mod Symbols
use libfaketime.Base.{
  ◌*◌, ◌/◌, ◌+◌, ltb, if◌then◌else◌, ℕ, ◌^◌, ◌-◌, Bool, true, false, none, some, List, [],
}
use libfaketime.Base.Int.{
  ℤ, pos, negsuc, pos_part, neg_part, sub_ℕ, ◌+ℤ◌, ◌-ℤ◌, ◌*ℤ◌, ◌/ℤ◌, ◌%ℤ◌, ltb_ℤ, leb_ℤ,
}
use libfaketime.Floats.{Floats}
use libfaketime.TimeOps.{Time, time, clear}
use libfaketime.Shared.{SystemTime, Shared, created}
use libfaketime.Process.{at_load, Process, start_at, Limits, Spawn, Cache, User}
use libfaketime.Replay.Write.{wrote}
use libfaketime.World.{World}

abbrev pub product : ℤ → ℤ → ℤ
product a (pos n) = a *ℤ n
product a (negsuc n) = pos 0 -ℤ (a *ℤ n +ℤ a)

abbrev pub floor_thousand : ℤ → ℤ
floor_thousand a = (if ltb_ℤ (a %ℤ 1000) (pos 0) then a /ℤ 1000 -ℤ pos 1 else a /ℤ 1000) *ℤ 1000

-- Thousandths, unbounded: an arithmetic with no infinities and little rounding.
abbrev pub thousandths : Floats
thousandths = record {
  Double = ℤ;
  LongDouble = ℤ;
  of_ℤ = λ n. n *ℤ 1000;
  of_double = λ d. d;
  mul = λ a b. product a b /ℤ 1000;
  div = λ a b. (a *ℤ 1000) /ℤ pos_part b;
  add = λ a b. a +ℤ b;
  sub = λ a b. a -ℤ b;
  lt = ltb_ℤ;
  le = leb_ℤ;
  is_finite = λ a. true;
  floor = floor_thousand;
  ceil = λ a. pos 0 -ℤ floor_thousand (pos 0 -ℤ a);
  trunc = λ a. a /ℤ 1000;
  inverse = λ a. pos 1000000 /ℤ pos_part a;
  times = λ a b. product a b /ℤ 1000;
  plus = λ a b. a +ℤ b;
  quotient = λ a b. (a *ℤ 1000) /ℤ pos_part b;
  minus = λ a b. a -ℤ b;
  floor_double = floor_thousand;
  is_finite_double = λ a. true;
  is_positive = λ a. ltb_ℤ (pos 0) a;
  double_of_ℤ = λ n. n *ℤ 1000;
  trunc_double = λ a. a /ℤ 1000;
}

-- A positive integer below 2 ^ 93 in the 64 bits of an x87 mantissa: from 2 ^ 92 on it is rounded
-- to the nearest multiple of 2 ^ 29. Smaller ones are left alone.
abbrev rounded : ℤ → ℤ
rounded (pos n) = if ltb n (2 ^ 92) then pos n else pos ((n + 2 ^ 28) / 2 ^ 29 * 2 ^ 29)
rounded (negsuc n) = negsuc n

-- Integers with the x87's rounding of large ones.
abbrev pub x87_integers : Floats
x87_integers = record thousandths {
  of_ℤ = λ n. n;
  mul = λ a b. rounded (product a b);
  add = λ a b. rounded (a +ℤ b);
  trunc = λ a. a;
}

-- All clocks started at 100 s.
abbrev pub hundred : SystemTime
hundred = record {
  real = time (pos 100) (pos 0);
  mon = time (pos 100) (pos 0);
  mon_raw = time (pos 100) (pos 0);
  boot = time (pos 100) (pos 0);
}

-- The user asked for the time 1000.5 s at the start, with ticks of 2 s where they are on.
abbrev pub at_thousand : User thousandths
at_thousand = record {
  mode = start_at;
  faked_time = time (pos 1000) (pos 500000000);
  faked_time_set = true;
  faked_time_saved = [];
  offset = clear;
  rate = pos 1000;
  rate_set = false;
  per_tick_inc = time (pos 2) (pos 0);
  per_tick_inc_set = false;
}

abbrev pub no_limits : Limits
no_limits = record {
  limited_faking = false;
  callcounter = pos 0;
  start_after_secs = negsuc 0;
  stop_after_secs = negsuc 0;
  start_after_ncalls = negsuc 0;
  stop_after_ncalls = negsuc 0;
}

abbrev pub no_spawn : Spawn
no_spawn = record {
  support = false;
  spawned = false;
  secs = negsuc 0;
  ncalls = pos 0;
  spawn_calls = 0;
}

-- The request was read at 100 s and is good for 10 s.
abbrev pub fresh : Cache
fresh = record {
  last_data_fetch = pos 100;
  expired = false;
  enabled = true;
  duration = pos 10;
  force_expiration = false;
}

abbrev pub process : Process thousandths
process = record {
  dont_fake = false;
  limits = no_limits;
  spawn = no_spawn;
  user = at_thousand;
  cache = fresh;
  parse_config_file = false;
  fake_monotonic_clock = true;
  start = hundred;
  timecache = at_load;
  faketimecache = at_load;
  shared = some created;
  sem_events = [];
  infile = none;
  outfile = none;
}

-- It is 105 s; there are no files and no variables.
abbrev pub world : World thousandths
world = record {
  now = time (pos 105) (pos 0);
  system = hundred;
  getenv = λ name. none;
  strtod = λ s. record { value = pos 0; rest = s; converted = false; erange = false };
  strptime = λ s. none;
  mtime = λ path. none;
  open_file = λ path. none;
  disk = λ n. wrote 16;
}
