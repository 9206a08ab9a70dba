-- ===== src/Clock/Calls.antt =====
-- Whole calls of fake_clock_gettime of src/libfaketime.c with nothing to read again.
pub mod Noop
pub mod Stopped
use libfaketime.Base.{◌∙◌, arith, if◌then◌else◌, false, true, refl, ◌≡◌, ◌≢◌, Bool, none, some}
use libfaketime.Base.Int.{pos}
use libfaketime.Floats.{Floats}
use libfaketime.Outcome.{ok}
use libfaketime.TimeOps.{Time, timespecsub}
use libfaketime.TimeOps.Scale.{normalize_timespec_value}
use libfaketime.Process.{
  User, Process, ClockId, process_cputime, thread_cputime, freeze, start_at, noop, Mode,
}
use libfaketime.Shared.{SystemTime}
use libfaketime.World.{World}
use libfaketime.Clock.Steps.{start_of, count_call, outside_limits, expire, set_clock}
use libfaketime.Clock.Steps.Window.{spawn_step_off, count_call-limited_faking}
use libfaketime.Replay.Laws.{load_time-none, save_time-none}
use libfaketime.Clock.{
  spawned, refresh_if_expired, counted, fake_clock_gettime, fake_clock, fake_within_limits,
  fake_by_rules, advanced_time, fake_by_mode, finish,
}

-- The clocks of the wall, not of the CPU.
abbrev pub is_cputime : ClockId → Bool
is_cputime process_cputime = true
is_cputime thread_cputime = true
is_cputime _ = false

module _ (F : Floats) (w : World F) where
  fake_clock-eq :
      (clk : ClockId) (tp : Time) (p : Process F)
      → is_cputime clk ≡ false
      → p.dont_fake ≡ false
      → fake_clock_gettime F w clk tp p ≡ fake_clock F w clk tp p
  unfolding fake_clock_gettime
  fake_clock-eq process_cputime tp p h e = cc
  fake_clock-eq thread_cputime tp p h e = cc
  fake_clock-eq _ tp p h e = rw e refl

  -- Nothing is read again, replayed, spawned or saved.
  pub record Steady (p : Process F) : Type 0 where
    pub awake : p.dont_fake ≡ false
    pub unlimited : p.limits.limited_faking ≡ false
    pub no_spawn : p.spawn.support ≡ false
    pub cached : (expire p.cache w.now).expired ≡ false
    pub no_infile : p.infile ≡ none
    pub no_outfile : p.outfile ≡ none
    pub no_ticks : p.user.per_tick_inc_set ≡ false

  -- The time by the rules: the user's time if it is frozen, the advanced time otherwise.
  abbrev pub rule_time : Mode → User F → SystemTime → ClockId → Time → Time
  rule_time freeze u start clk tp = if u.faked_time_set then u.faked_time else tp
  rule_time start_at u start clk tp = advanced_time F u start clk tp
  rule_time noop u start clk tp = tp

  fake_by_mode-rule_time :
      (m : Mode) (p : Process F) (clk : ClockId) (tp : Time)
      → m ≢ noop
      → p.user.per_tick_inc_set ≡ false
      → fake_by_mode F m p clk tp ≡ ok (some (rule_time m p.user p.start clk tp), p)
  unfolding fake_by_mode
  fake_by_mode-rule_time freeze p clk tp h e = refl
  fake_by_mode-rule_time start_at p clk tp h e = rw e refl
  fake_by_mode-rule_time noop p clk tp h e = absurd (h refl)

  abbrev pub finished : Process F → ClockId → Time → Time → Process F
  finished p clk tp t = record p {
    timecache = set_clock clk tp p.timecache;
    faketimecache = set_clock clk t p.faketimecache;
  }

  finish-eq :
      (p : Process F) (clk : ClockId) (tp t : Time)
      → p.outfile ≡ none
      → finish F w clk tp t p
        ≡ ok (pos 0, normalize_timespec_value t, finished p clk tp (normalize_timespec_value t))
  unfolding finish
  finish-eq p clk tp t h = rw (save_time-none F p w.disk (normalize_timespec_value t) h) refl

  fake_by_rules-eq :
      (p : Process F) (clk : ClockId) (tp : Time)
      → p.user.mode ≢ noop
      → p.user.per_tick_inc_set ≡ false
      → p.outfile ≡ none
      → fake_by_rules F w clk tp p
        ≡ ok (
          pos 0,
          normalize_timespec_value (rule_time p.user.mode p.user p.start clk tp),
          finished p clk tp
              (normalize_timespec_value (rule_time p.user.mode p.user p.start clk tp)),
        )
  unfolding fake_by_rules
  fake_by_rules-eq p clk tp hm ht ho =
      rw (fake_by_mode-rule_time p.user.mode p clk tp hm ht)
        (finish-eq p clk tp (rule_time p.user.mode p.user p.start clk tp) ho)

  fake_within_limits-eq :
      (p : Process F) (clk : ClockId) (tp : Time)
      → (expire p.cache w.now).expired ≡ false
      → p.infile ≡ none
      → fake_within_limits F w clk tp p
        ≡ fake_by_rules F w clk tp (record p { cache = expire p.cache w.now })
  unfolding fake_within_limits refresh_if_expired
  fake_within_limits-eq p clk tp hc hi =
      simp (hc, load_time-none F (record p { cache = expire p.cache w.now }) w.system hi)

  fake_clock-steady :
      (p : Process F) (clk : ClockId) (tp : Time)
      → p.limits.limited_faking ≡ false
      → p.spawn.support ≡ false
      → fake_clock F w clk tp p
        ≡ fake_within_limits F w clk tp (record p { limits = count_call p.limits p.spawn })
  unfolding fake_clock counted spawned
  fake_clock-steady p clk tp hl hs =
      simp (count_call-limited_faking p.limits p.spawn, hl, spawn_step_off p.spawn _ _ hs)

  abbrev pub steady_result : Process F → ClockId → Time → Time
  steady_result p clk tp = normalize_timespec_value (rule_time p.user.mode p.user p.start clk tp)

  abbrev pub steady_end : Process F → ClockId → Time → Process F
  steady_end p clk tp =
      finished (record p { limits = count_call p.limits p.spawn; cache = expire p.cache w.now }) clk
        tp (steady_result p clk tp)

  pub fake_clock_gettime-Steady :
      (p : Process F) (clk : ClockId) (tp : Time)
      → is_cputime clk ≡ false
      → Steady p
      → p.user.mode ≢ noop
      → fake_clock_gettime F w clk tp p ≡ ok (pos 0, steady_result p clk tp, steady_end p clk tp)
  fake_clock_gettime-Steady p clk tp hc st hm =
      fake_clock-eq clk tp p hc st.awake
      ∙ (fake_clock-steady p clk tp st.unlimited st.no_spawn
          ∙ (fake_within_limits-eq (record p { limits = count_call p.limits p.spawn }) clk tp
                st.cached st.no_infile
              ∙ fake_by_rules-eq
                  (record p { limits = count_call p.limits p.spawn; cache = expire p.cache w.now })
                  clk tp hm st.no_ticks st.no_outfile))
