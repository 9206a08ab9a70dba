-- ===== src/Clock/Shift.antt =====
-- Whole calls of fake_clock_gettime in the mode that goes on from a start, without a rate.
use libfaketime.Base.{ap, ◌≡◌, ◌≢◌, ◌∙◌, refl, false}
use libfaketime.Base.Int.{pos, ◌+ℤ◌, ◌-ℤ◌, ◌≤ℤ◌}
use libfaketime.Floats.{Floats}
use libfaketime.Outcome.{ok}
use libfaketime.TimeOps.{Time}
use libfaketime.TimeOps.Total.{nanos, IsNormal, min_nanos, max_nanos}
use libfaketime.TimeOps.Scale.Laws.{normalize-nanos}
use libfaketime.Process.{Process, ClockId, start_at, noop}
use libfaketime.World.{World}
use libfaketime.Clock.{advanced_time, Mode, fake_clock_gettime}
use libfaketime.Clock.Steps.{start_of}
use libfaketime.Clock.Modes.{advanced_time-nanos, advanced_time_mono}
use libfaketime.Clock.Calls.{
  rule_time, is_cputime, Steady, steady_result, steady_end, fake_clock_gettime-Steady,
}

module _ (F : Floats) (w : World F) where
  -- The normalised times that the mode FT_START_AT without a rate works on, at the real time `tp`.
  pub record Shifting (p : Process F) (clk : ClockId) (tp : Time) : Type 0 where
    pub mode : p.user.mode ≡ start_at
    pub no_rate : p.user.rate_set ≡ false
    pub user_normal : IsNormal p.user.faked_time
    pub start_normal : IsNormal (start_of clk p.start)
    pub real_normal : IsNormal tp

  pub start_at_not_noop : {m : Mode} → m ≡ start_at → m ≢ noop
  start_at_not_noop e e' = cc

  pub rule_time_start :
      (p : Process F) (clk : ClockId) (tp : Time)
      → p.user.mode ≡ start_at
      → rule_time F w p.user.mode p.user p.start clk tp ≡ advanced_time F p.user p.start clk tp
  rule_time_start p clk tp h = rw h refl

  -- fake_clock_gettime on a clock that is not of the CPU, in the mode FT_START_AT with a valid
  -- cache, no limits, no external command, no file, no ticks and no rate, where faking is not
  -- suspended, and at normalised times, succeeds with the normalised time that is the user's time
  -- moved by exactly the real nanoseconds that have passed since the start, if neither that
  -- difference nor that sum is out of range.
  pub fake_clock_gettime_shift :
      (p : Process F) (clk : ClockId) (tp : Time)
      → is_cputime clk ≡ false
      → Steady F w p
      → Shifting p clk tp
      → min_nanos ≤ℤ nanos tp -ℤ nanos (start_of clk p.start)
      → nanos tp -ℤ nanos (start_of clk p.start) ≤ℤ max_nanos
      → min_nanos ≤ℤ nanos p.user.faked_time +ℤ (nanos tp -ℤ nanos (start_of clk p.start))
      → nanos p.user.faked_time +ℤ (nanos tp -ℤ nanos (start_of clk p.start)) ≤ℤ max_nanos
      → (t : Time) × (fake_clock_gettime F w clk tp p ≡ ok (pos 0, t, steady_end F w p clk tp))
        × IsNormal t
        × (nanos t ≡ nanos p.user.faked_time +ℤ (nanos tp -ℤ nanos (start_of clk p.start)))
  fake_clock_gettime_shift p clk tp hc st sh lo hi lo' hi' =
      let (normal, total) = normalize-nanos (rule_time F w p.user.mode p.user p.start clk tp) in
      let a =
        advanced_time-nanos F p.user p.start clk tp sh.no_rate sh.user_normal sh.start_normal
          sh.real_normal lo hi lo' hi' in
      (
        steady_result F w p clk tp,
        fake_clock_gettime-Steady F w p clk tp hc st (start_at_not_noop sh.mode),
        normal,
        total ∙ (ap nanos (rule_time_start p clk tp sh.mode) ∙ a.1),
      )

  -- Two calls of fake_clock_gettime in the mode FT_START_AT, each with a valid cache, no limits, no
  -- external command, no file, no ticks and no rate, where faking is not suspended, the second on
  -- the state that the first leaves and in whatever environment it meets then, do not go back
  -- unless the real clock does. This holds where the arithmetic saturates too.
  pub fake_clock_gettime_mono :
      (p : Process F) (w' : World F) (clk : ClockId) (tp tp' : Time)
      → is_cputime clk ≡ false
      → Steady F w p
      → Steady F w' (steady_end F w p clk tp)
      → Shifting p clk tp
      → IsNormal tp'
      → nanos tp ≤ℤ nanos tp'
      → (t t' : Time) × (q : Process F) × (fake_clock_gettime F w clk tp p
          ≡ ok (pos 0, t, steady_end F w p clk tp))
        × (fake_clock_gettime F w' clk tp' (steady_end F w p clk tp) ≡ ok (pos 0, t', q))
        × (nanos t ≤ℤ nanos t')
  fake_clock_gettime_mono p w' clk tp tp' hc st st' sh ht le =
      let q = steady_end F w p clk tp in
      let n = normalize-nanos (rule_time F w p.user.mode p.user p.start clk tp) in
      let n' = normalize-nanos (rule_time F w p.user.mode p.user p.start clk tp') in
      let e = n.1 ∙ ap nanos (rule_time_start p clk tp sh.mode) in
      let e' = n'.1 ∙ ap nanos (rule_time_start p clk tp' sh.mode) in
      (
        steady_result F w p clk tp,
        steady_result F w' q clk tp',
        steady_end F w' q clk tp',
        fake_clock_gettime-Steady F w p clk tp hc st (start_at_not_noop sh.mode),
        fake_clock_gettime-Steady F w' q clk tp' hc st' (start_at_not_noop sh.mode),
        rw (e, e')
            (advanced_time_mono F p.user p.start clk tp tp' sh.no_rate sh.user_normal
              sh.start_normal sh.real_normal ht le),
      )
