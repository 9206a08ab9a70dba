-- ===== src/Clock.antt =====
-- fake_clock_gettime of src/libfaketime.c, and the functions on top of it.
pub mod Steps
pub mod Modes
pub mod Calls
pub mod Shift
pub mod Wrappers
pub mod WellFormed
pub mod Internal
use libfaketime.Base.{
  ℕ, ◌+◌, ◌^◌, ◌-◌, Bool, true, false, not, ◌&&◌, ◌||◌, Option, none, some, List, [], ◌∷◌, ◌==◌,
  if◌then◌else◌, take,
}
use libfaketime.Base.Int.{ℤ, pos, negsuc, ◌+ℤ◌, ◌-ℤ◌, ltb_ℤ, leb_ℤ, eqb_ℤ}
use libfaketime.Base.Text.{codes, same_text}
use libfaketime.Floats.{Floats}
use libfaketime.Outcome.{Outcome, ok, exits, ◌>>=◌}
use libfaketime.TimeOps.{Time, time, timespecadd, timespecsub, time_max}
use libfaketime.TimeOps.Scale.{timespecmul, normalize_timespec_value}
use libfaketime.Shared.{SystemTime}
use libfaketime.Process.{
  Process, User, Mode, freeze, start_at, noop, Limits, Spawn, Cache, ClockId, realtime, monotonic,
  process_cputime, thread_cputime, monotonic_raw, realtime_coarse, monotonic_coarse, boottime,
  other,
}
use libfaketime.World.{World}
use libfaketime.Replay.{next_time, load_time, save_time}
use libfaketime.Request.{parse_ft_string, buffer_length}
use libfaketime.Config.{read_config_file}
use Steps.{is_monotonic, start_of, count_call, outside_limits, spawn_step, expire, set_clock}

module _ (F : Floats) where
  open F use {of_double}

  -- The mode FT_START_AT with no tick increment: the time since the start, at the user's rate,
  -- added to the user's time.
  unfoldable pub advanced_time : User F → SystemTime → ClockId → Time → Time
  advanced_time u start clk tp =
      let tdiff = timespecsub tp (start_of clk start) in
      timespecadd u.faked_time
        (if u.rate_set then timespecmul F tdiff (of_double u.rate) else tdiff)

  start_mode : Process F → ClockId → Time → Outcome (Option Time × Process F)
  start_mode p clk tp = do (t, q) ← next_time F p tp; ok (some t, q)

  -- switch (ft_mode); `none` is the return value -1.
  pub fake_by_mode : Mode → Process F → ClockId → Time → Outcome (Option Time × Process F)
  unfolding start_mode
  fake_by_mode freeze p clk tp =
      ok (some (if p.user.faked_time_set then p.user.faked_time else tp), p)
  fake_by_mode start_at p clk tp =
      if p.user.per_tick_inc_set
      then start_mode p clk tp
      else ok (some (advanced_time p.user p.start clk tp), p)
  fake_by_mode noop p clk tp = ok (none, p)

  -- A clock of the CPU time is only sped up or slowed down.
  pub scaled_cputime : User F → Time → Time
  scaled_cputime u tp = if u.rate_set then timespecmul F tp (of_double u.rate) else tp

module _ (F : Floats) (w : World F) where
  -- get_fake_monotonic_setting
  pub fake_monotonic_setting : Bool → Bool
  fake_monotonic_setting current = elim (w.getenv "FAKETIME_DONT_FAKE_MONOTONIC") [
    | some v ↦ not (same_text v (codes "1"))
    | none ↦ elim (w.getenv "DONT_FAKE_MONOTONIC") [
      | some v ↦ not (same_text v (codes "1"))
      | none ↦ current
    ]
  ]

  -- The text of FAKETIME, cut to the buffer, or "+0".
  pub faketime_text : List ℕ
  faketime_text = elim (w.getenv "FAKETIME") [
    | some v ↦ take (buffer_length - 1) v
    | none ↦ codes "+0"
  ]

  -- if (read_config_file() == 0) parse_ft_string(user_faked_time)
  reread_file : Outcome (ℤ × Process F) → Outcome (Process F)
  reread_file (exits n) = exits n
  reread_file (ok (r, p)) = if eqb_ℤ r (pos 0) then parse_ft_string F w faketime_text p else ok p

  reread : Process F → Outcome (Process F)
  reread p =
      if p.parse_config_file
      then reread_file (read_config_file F w p)
      else parse_ft_string F w faketime_text p

  -- if (cache_expired == 1): the request is read again.
  pub refresh : Process F → Outcome (Process F)
  unfolding reread reread_file
  refresh p = do
    let c = p.cache
    q ← reread (record p { cache = record c { last_data_fetch = w.now.sec } })
    ok (record q { fake_monotonic_clock = fake_monotonic_setting q.fake_monotonic_clock })

  refresh_if_expired : Process F → Outcome (Process F)
  refresh_if_expired p =
      let q = record p { cache = expire p.cache w.now } in
      if q.cache.expired then refresh q else ok q

  -- Behind the label abort, for a time that was faked by the rules: it is normalised, saved and
  -- put into the caches, with the real time `tp` that it replaces.
  pub finish : ClockId → Time → Time → Process F → Outcome (ℤ × Time × Process F)
  finish clk tp t p = do
    let t' = normalize_timespec_value t
    q ← save_time F w.disk p t'
    ok (
      pos 0,
      t',
      record q {
        timecache = set_clock clk tp q.timecache;
        faketimecache = set_clock clk t' q.faketimecache;
      },
    )

  pub fake_by_rules : ClockId → Time → Process F → Outcome (ℤ × Time × Process F)
  fake_by_rules clk tp p = do
    (t, q) ← fake_by_mode F p.user.mode p clk tp
    elim t [ none ↦ ok (negsuc 0, tp, q) | some t' ↦ finish clk tp t' q ]

  -- From the reading of the request on.
  pub fake_within_limits : ClockId → Time → Process F → Outcome (ℤ × Time × Process F)
  unfolding fake_by_rules refresh_if_expired
  fake_within_limits clk tp p = do
    q ← refresh_if_expired p
    (loaded, q') ← load_time F w.system q
    elim loaded [ some t ↦ ok (pos 0, t, q') | none ↦ fake_by_rules clk tp q' ]

  counted : Process F → Process F
  counted p = record p { limits = count_call p.limits p.spawn }

  spawned : ℤ → Process F → Process F
  spawned elapsed p = record p { spawn = spawn_step p.spawn p.limits.callcounter elapsed }

  fake_clock : ClockId → Time → Process F → Outcome (ℤ × Time × Process F)
  unfolding counted spawned
  fake_clock clk tp p =
      let q = counted p in
      let elapsed = (timespecsub tp (start_of clk q.start)).sec in
      if q.limits.limited_faking && outside_limits q.limits elapsed
      then ok (pos 0, tp, q)
      else fake_within_limits clk tp (spawned elapsed q)

  -- fake_clock_gettime: the return value, the time, and the new state
  unfoldable pub fake_clock_gettime : ClockId → Time → Process F → Outcome (ℤ × Time × Process F)
  unfolding fake_clock
  fake_clock_gettime process_cputime tp p =
      ok (pos 0, if p.dont_fake then tp else scaled_cputime F p.user tp, p)
  fake_clock_gettime thread_cputime tp p =
      ok (pos 0, if p.dont_fake then tp else scaled_cputime F p.user tp, p)
  fake_clock_gettime clk tp p = if p.dont_fake then ok (pos 0, tp, p) else fake_clock clk tp p

  passed_on : ℤ × Time × Process F → Outcome (ℤ × Option Time × Process F)
  passed_on (r, t, p) = ok (r, some t, p)

  -- clock_gettime; `real` is what the real function stores, or its failure.
  pub clock_gettime : Option Time → ClockId → Process F → Outcome (ℤ × Option Time × Process F)
  unfolding passed_on
  clock_gettime none clk p = ok (negsuc 0, none, p)
  clock_gettime (some real) clk p =
      if p.fake_monotonic_clock || not (is_monotonic clk)
      then (fake_clock_gettime clk real p >>= passed_on)
      else ok (pos 0, some real, p)

  -- time: the seconds of the faked real-time clock
  pub time_of_day : Option Time → Process F → Outcome (ℤ × Process F)
  time_of_day none p = ok (negsuc 0, p)
  time_of_day (some real) p = fake_clock_gettime realtime real p >>= λ r. ok (r.1.sec, r.2)
