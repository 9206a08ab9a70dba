-- ===== src/Wait/Deadline.antt =====
-- The deadlines of clock_nanosleep, sem_timedwait and sem_clockwait, against the fake clock.
use libfaketime.Base.{refl, ap, arith, ◌≡◌, ◌∙◌, false}
use libfaketime.Base.Int.{pos, ◌+ℤ◌, ◌-ℤ◌, ◌≤ℤ◌}
use libfaketime.Floats.{Floats}
use libfaketime.TimeOps.{Time, timespecadd, timespecsub}
use libfaketime.TimeOps.Total.{nanos, IsNormal, FitsTime, min_nanos, max_nanos}
use libfaketime.TimeOps.Laws.{
  subtract-Saturates, timespecadd-timespecsub, timespecsub-timespecadd, timespecadd_comm,
}
use libfaketime.Process.{Process, ClockId, realtime, start_at}
use libfaketime.World.{World}
use libfaketime.Outcome.{ok}
use libfaketime.TimeOps.Scale.Laws.{normalize-Normal}
use libfaketime.Clock.Calls.{
  Steady, steady_result, steady_end, fake_clock_gettime-Steady, is_cputime,
}
use libfaketime.Clock.{advanced_time, fake_clock_gettime}
use libfaketime.Clock.Steps.{start_of}
use libfaketime.Wait.{
  sleep_deadline, sem_timedwait_deadline, sem_clockwait_deadline, real_difference,
}

module _ (F : Floats) where
  -- A point `t` of the fake clock that the arithmetic reaches without saturating.
  pub record Reachable (p : Process F) (base t : Time) : Type 0 where
    pub normal : IsNormal t
    pub fits : FitsTime t
    pub user_normal : IsNormal p.user.faked_time
    pub base_normal : IsNormal base
    pub diff_low : min_nanos ≤ℤ nanos t -ℤ nanos p.user.faked_time
    pub diff_high : nanos t -ℤ nanos p.user.faked_time ≤ℤ max_nanos
    pub real_low : min_nanos ≤ℤ nanos base +ℤ (nanos t -ℤ nanos p.user.faked_time)
    pub real_high : nanos base +ℤ (nanos t -ℤ nanos p.user.faked_time) ≤ℤ max_nanos

  -- The fake clock shows `t` when the real clock shows `d`.
  abbrev pub ReadsAs : World F → Process F → ClockId → Time → Time → Type 0
  ReadsAs w p clk d t = fake_clock_gettime F w clk d p ≡ ok (pos 0, t, steady_end F w p clk d)

  pub deadline_shows :
      (p : Process F) (clk : ClockId) (t : Time)
      → p.user.rate_set ≡ false
      → Reachable p (start_of clk p.start) t
      → advanced_time F p.user p.start clk
          (timespecadd (start_of clk p.start) (timespecsub t p.user.faked_time))
        ≡ t
  unfolding advanced_time timespecsub
  deadline_shows p clk t hr h =
      let d = subtract-Saturates t p.user.faked_time h.normal h.user_normal in
      let e = (d.inside h.diff_low h.diff_high).0 in
      rw hr (
        rw
          (timespecsub-timespecadd (start_of clk p.start) (timespecsub t p.user.faked_time)
            h.base_normal d.normal d.fits (rw e h.real_low) (rw e h.real_high))
          (timespecadd_comm p.user.faked_time (timespecsub t p.user.faked_time)
            ∙ timespecadd-timespecsub t p.user.faked_time h.normal h.user_normal h.fits h.diff_low
                h.diff_high))

  -- A process that only advances reads from the fake clock what advanced_time shows.
  pub advanced_shows :
      (w : World F) (p : Process F) (clk : ClockId) (d t : Time)
      → is_cputime clk ≡ false
      → Steady F w p
      → p.user.mode ≡ start_at
      → IsNormal t
      → advanced_time F p.user p.start clk d ≡ t
      → ReadsAs w p clk d t
  unfolding advanced_time
  advanced_shows w p clk d t hc st hm n e =
      let same : steady_result F w p clk d ≡ t = rw (hm, e) (normalize-Normal t n) in
      fake_clock_gettime-Steady F w p clk d hc st (λ h. cc)
      ∙ ap (λ u. ok (pos 0, u, steady_end F w p clk d)) same

  -- In the mode FT_START_AT with no rate, no ticks, no limits, no files and a valid cache, where
  -- faking is not suspended, the times are normalised and no step is out of range:
  -- fake_clock_gettime on CLOCK_REALTIME, when the real clock shows the deadline that
  -- clock_nanosleep, sem_timedwait or sem_clockwait passes on for that clock, returns the time that
  -- was asked for.
  pub deadlines_show :
      (w : World F) (p : Process F) (t fake_now : Time)
      → p.user.rate_set ≡ false
      → p.user.mode ≡ start_at
      → Steady F w p
      → Reachable p (start_of realtime p.start) t
      → ReadsAs w p realtime (sleep_deadline F p realtime t) t
        × ReadsAs w p realtime (sem_timedwait_deadline F p t) t
        × ReadsAs w p realtime (sem_clockwait_deadline F p realtime fake_now t) t
  unfolding sleep_deadline real_difference sem_timedwait_deadline sem_clockwait_deadline start_of
  deadlines_show w p t fake_now hr hm st h =
      let hd = st.awake in
      let direct = timespecadd p.start.real (timespecsub t p.user.faked_time) in
      let a : sleep_deadline F p realtime t ≡ direct = ground arith in
      let b : sem_timedwait_deadline F p t ≡ direct = ground arith in
      let c : sem_clockwait_deadline F p realtime fake_now t ≡ direct = ground arith in
      let e =
        advanced_shows w p realtime direct t refl st hm h.normal
          (deadline_shows p realtime t hr h) in
      (rw a e, rw b e, rw c e)
