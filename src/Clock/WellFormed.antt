-- ===== src/Clock/WellFormed.antt =====
-- What stays true of the variables of src/libfaketime.c over every call of fake_clock_gettime: its
-- cached times, its external command and the file that it replays.
pub mod Calls
use mathlib.Core.Path.{subst}
use libfaketime.Base.{
  ◌⊎◌, ℕ, true, false, Bool, Option, some, List, ◌≡◌, ◌∙◌, sym, refl, inl, inr, ◌&&◌, if◌then◌else◌,
}
use libfaketime.Base.Int.{negsuc, ℤ, pos, eqb_ℤ}
use libfaketime.Floats.{Floats}
use libfaketime.Outcome.{Outcome, ok, exits}
use libfaketime.Outcome.Laws.{AllOk, AllOk-bind, AllOk-if, AllOk-option}
use libfaketime.TimeOps.{Time, timespecsub}
use libfaketime.TimeOps.Scale.{normalize_timespec_value}
use libfaketime.TimeOps.Scale.Laws.{normalize-nanos, timespecmul-IsNormal}
use libfaketime.TimeOps.Total.{IsNormal}
use libfaketime.Shared.{SystemTime}
use libfaketime.Process.{
  Process, Spawn, Mode, freeze, start_at, noop, ClockId, realtime, monotonic, process_cputime,
  thread_cputime, monotonic_raw, boottime,
}
use libfaketime.World.{World}
use libfaketime.Replay.{load_time, save_time, next_time}
use libfaketime.Replay.Untouched.{Keeps, Loads, next_time-Keeps, save_time-Keeps, load_time-Loads}
use libfaketime.Request.Untouched.{parse_ft_string-Keeps, Keeps-on}
use libfaketime.Config.{read_config_file}
use libfaketime.Config.Untouched.{read_config_file-Keeps}
use libfaketime.Startup.Files.{load_file_valid}
use libfaketime.Startup.Files.Laws.{saved_at-IsNormal}
use libfaketime.Clock.{
  time, fake_clock_gettime, fake_clock, fake_within_limits, fake_by_rules, fake_by_mode, finish,
  spawned, counted, refresh_if_expired, refresh, reread, reread_file, start_mode, scaled_cputime,
  faketime_text,
}
use libfaketime.Clock.Steps.{set_clock, spawn_step, start_of, count_call, outside_limits, expire}
use libfaketime.Clock.Steps.Window.{RunOnce, spawn_step-RunOnce}

-- A cached time is the one that the library is loaded with, or normalised.
abbrev pub IsCached : Time → Type 0
IsCached t = (t ≡ time (pos 0) (negsuc 0)) ⊎ IsNormal t

pub record AllCached (s : SystemTime) : Type 0 where
  pub real : IsCached s.real
  pub mon : IsCached s.mon
  pub mon_raw : IsCached s.mon_raw
  pub boot : IsCached s.boot

-- Of the two caches, the external command and the file that is replayed.
pub record Sound (times faked : SystemTime) (command : Spawn) (file : Option (List ℕ))
    : Type 0 where
  pub real_times : AllCached times
  pub faked_times : AllCached faked
  pub run_once : RunOnce command
  pub accepted : (bytes : List ℕ) → file ≡ some bytes → load_file_valid bytes ≡ true

pub IsNormal-if : (b : Bool) (t u : Time) → IsNormal t → IsNormal u → IsNormal (if b then t else u)
IsNormal-if true t u h h' = h
IsNormal-if false t u h h' = h'

set_clock-AllCached :
    (clk : ClockId) (t : Time) (s : SystemTime)
    → IsNormal t
    → AllCached s
    → AllCached (set_clock clk t s)
unfolding set_clock
set_clock-AllCached realtime t s h n = record {
  real = inr h;
  mon = n.mon;
  mon_raw = n.mon_raw;
  boot = n.boot;
}
set_clock-AllCached monotonic t s h n = record {
  real = n.real;
  mon = inr h;
  mon_raw = n.mon_raw;
  boot = n.boot;
}
set_clock-AllCached monotonic_raw t s h n = record {
  real = n.real;
  mon = n.mon;
  mon_raw = inr h;
  boot = n.boot;
}
set_clock-AllCached boottime t s h n = record {
  real = n.real;
  mon = n.mon;
  mon_raw = n.mon_raw;
  boot = inr h;
}
set_clock-AllCached _ t s h n = n

module _ (F : Floats) where
  abbrev pub WellFormed : Process F → Type 0
  WellFormed p = Sound p.timecache p.faketimecache p.spawn p.infile

  pub Keeps-WellFormed : (p q : Process F) → WellFormed p → Keeps F p q → WellFormed q
  Keeps-WellFormed p q h k = subst (λ s. Sound s.0 s.1 s.2 s.3) (sym k) h

  -- What a call returns and leaves.
  abbrev pub Good : ℤ × Time × Process F → Type 0
  Good r = IsNormal r.1 × WellFormed r.2

  fake_by_mode-Keeps :
      (m : Mode) (p : Process F) (clk : ClockId) (tp : Time)
      → AllOk (λ r. Keeps F p r.1) (fake_by_mode F m p clk tp)
  unfolding fake_by_mode start_mode
  fake_by_mode-Keeps freeze p clk tp = refl
  fake_by_mode-Keeps start_at p clk tp =
      AllOk-if (λ r. Keeps F p r.1) p.user.per_tick_inc_set _ _
        (AllOk-bind (λ r. Keeps F p r.1) _ (next_time F p tp) _ (next_time-Keeps F p tp) (λ r k. k))
        refl
  fake_by_mode-Keeps noop p clk tp = refl

module _ (F : Floats) (w : World F) where
  finish-Good :
      (clk : ClockId) (tp t : Time) (p : Process F)
      → IsNormal tp
      → WellFormed F p
      → AllOk (Good F) (finish F w clk tp t p)
  unfolding finish
  finish-Good clk tp t p n h =
      let t' = normalize_timespec_value t in
      AllOk-bind (Keeps F p) _ (save_time F w.disk p t') _ (save_time-Keeps F w.disk p t') (λ q k.
        let h' = Keeps-WellFormed F p q h k in
        (
          (normalize-nanos t).0,
          record {
            real_times = set_clock-AllCached clk tp q.timecache n h'.real_times;
            faked_times =
                set_clock-AllCached clk t' q.faketimecache (normalize-nanos t).0 h'.faked_times;
            run_once = h'.run_once;
            accepted = h'.accepted;
          },
        ))

  pub fake_by_rules-Good :
      (clk : ClockId) (tp : Time) (p : Process F)
      → IsNormal tp
      → WellFormed F p
      → AllOk (Good F) (fake_by_rules F w clk tp p)
  unfolding fake_by_rules
  fake_by_rules-Good clk tp p n h =
      AllOk-bind (λ r. Keeps F p r.1) _ (fake_by_mode F p.user.mode p clk tp) _
        (fake_by_mode-Keeps F p.user.mode p clk tp)
        (λ r k.
          let h' = Keeps-WellFormed F p r.1 h k in
          AllOk-option (Good F) r.0 _ _ (n, h') (λ t' e. finish-Good clk tp t' r.1 n h'))

  -- The time that is replayed, or the process that fakes by the rules.
  pub loaded-Good :
      (p q : Process F) (t : Option Time)
      → WellFormed F p
      → Loads F p t q
      → ((r : Time) → t ≡ some r → IsNormal r) × WellFormed F q
  loaded-Good p q t h l =
      let accepted : (bytes : List ℕ) → q.infile ≡ some bytes → load_file_valid bytes ≡ true =
        λ bytes e. elim l.replayed [
          | inl ended ↦ cc
          | inr same ↦ h.accepted bytes (sym same ∙ e)
        ] in
      (
        (λ r e.
            let (file, i, is, lt, at) = l.entry r e in
            subst IsNormal (sym at) (saved_at-IsNormal file i (h.accepted file is) lt)),
        record {
          real_times = rw l.real_times h.real_times;
          faked_times = rw l.faked_times h.faked_times;
          run_once = rw l.command h.run_once;
          accepted = accepted;
        },
      )
