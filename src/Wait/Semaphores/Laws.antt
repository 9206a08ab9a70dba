-- ===== src/Wait/Semaphores/Laws.antt =====
-- What sem_clockwait of src/libfaketime.c waits for on the monotonic clock.
use libfaketime.Base.{true, false, Option, some, ◌≡◌, ◌∙◌, refl}
use libfaketime.Base.Int.{ℤ, pos, ◌+ℤ◌, ◌-ℤ◌, ◌≤ℤ◌, int_laws}
use libfaketime.Floats.{Floats}
use libfaketime.Outcome.{ok}
use libfaketime.TimeOps.{Time, timespecadd, timespecsub}
use libfaketime.TimeOps.Total.{nanos, IsNormal, min_nanos, max_nanos}
use libfaketime.TimeOps.Laws.{add-Saturates, subtract-Saturates}
use libfaketime.Process.{Process, ClockId, monotonic}
use libfaketime.World.{World}
use libfaketime.Clock.Steps.{start_of}
use libfaketime.Clock.Calls.{Steady, steady_end}
use libfaketime.Clock.Shift.{Shifting, fake_clock_gettime_shift}
use libfaketime.Wait.{sem_clockwait_deadline}
use libfaketime.Clock.{fake_clock_gettime}
use libfaketime.Wait.Semaphores.{sem_clockwait, clockwait_until, clockwait_monotonic}

module _ (F : Floats) where
  -- No step of the arithmetic for the deadline `t` is out of range, at the monotonic time `n`.
  pub record Reckoned (p : Process F) (n t : Time) : Type 0 where
    pub since_low : min_nanos ≤ℤ nanos n -ℤ nanos p.start.mon
    pub since_high : nanos n -ℤ nanos p.start.mon ≤ℤ max_nanos
    pub fake_low : min_nanos ≤ℤ nanos p.user.faked_time +ℤ (nanos n -ℤ nanos p.start.mon)
    pub fake_high : nanos p.user.faked_time +ℤ (nanos n -ℤ nanos p.start.mon) ≤ℤ max_nanos
    pub left_low :
        min_nanos ≤ℤ nanos t -ℤ (nanos p.user.faked_time +ℤ (nanos n -ℤ nanos p.start.mon))
    pub left_high :
        nanos t -ℤ (nanos p.user.faked_time +ℤ (nanos n -ℤ nanos p.start.mon)) ≤ℤ max_nanos
    pub sum_low :
        min_nanos
        ≤ℤ nanos p.start.mon
          +ℤ (nanos t -ℤ (nanos p.user.faked_time +ℤ (nanos n -ℤ nanos p.start.mon)))
    pub sum_high :
        nanos p.start.mon
          +ℤ (nanos t -ℤ (nanos p.user.faked_time +ℤ (nanos n -ℤ nanos p.start.mon)))
        ≤ℤ max_nanos

module _ (F : Floats) (w : World F) where
  sem_clockwait-monotonic :
      (p q : Process F) (real : ClockId → Option Time → ℤ) (n t fake : Time)
      → p.dont_fake ≡ false
      → p.fake_monotonic_clock ≡ true
      → fake_clock_gettime F w monotonic n p ≡ ok (pos 0, fake, q)
      → sem_clockwait F w (some real) (some n) monotonic (some t) p
        ≡ ok (real monotonic (some (sem_clockwait_deadline F q monotonic fake t)), q)
  unfolding sem_clockwait clockwait_until clockwait_monotonic
  sem_clockwait-monotonic p q real n t fake hd hm e = simp (hm, hd, e)

  deadline-nanos :
      (q : Process F) (fake t : Time)
      → q.user.rate_set ≡ false
      → q.dont_fake ≡ false
      → q.fake_monotonic_clock ≡ true
      → sem_clockwait_deadline F q monotonic fake t ≡ timespecadd q.start.mon (timespecsub t fake)
  unfolding sem_clockwait_deadline
  deadline-nanos q fake t hr hd hm = rw (hm, hd, hr) refl

  -- sem_clockwait on a fake monotonic clock, in a process in the mode FT_START_AT with no rate, no
  -- ticks, no limits, no files and a valid cache: the deadline that the real function is given is
  -- the point at which the fake clock shows the time that was asked for, less the time that has
  -- passed since the start of the process. The times are normalised, and no step is out of range.
  pub sem_clockwait_early :
      (p : Process F) (real : ClockId → Option Time → ℤ) (n t : Time)
      → p.fake_monotonic_clock ≡ true
      → Steady F w p
      → Shifting F w p monotonic n
      → IsNormal t
      → Reckoned F p n t
      → (d : Time) × (sem_clockwait F w (some real) (some n) monotonic (some t) p
          ≡ ok (real monotonic (some d), steady_end F w p monotonic n))
        × (nanos d
            ≡ (nanos p.start.mon +ℤ (nanos t -ℤ nanos p.user.faked_time))
              -ℤ (nanos n -ℤ nanos p.start.mon))
  unfolding start_of timespecadd timespecsub
  sem_clockwait_early p real n t hm st sh ht h =
      let q = steady_end F w p monotonic n in
      let (fake, e, normal, total) =
        fake_clock_gettime_shift F w p monotonic n refl st sh h.since_low h.since_high h.fake_low
          h.fake_high in
      let left = subtract-Saturates t fake ht normal in
      let l = (left.inside (rw total h.left_low) (rw total h.left_high)).0 ∙ rw total refl in
      let sum = add-Saturates p.start.mon (timespecsub t fake) sh.start_normal left.normal in
      let a = (sum.inside (rw l h.sum_low) (rw l h.sum_high)).0 in
      (
        timespecadd p.start.mon (timespecsub t fake),
        rw
            (
              sem_clockwait-monotonic p q real n t fake st.awake hm e,
              deadline-nanos q fake t sh.no_rate st.awake hm,
            )
            refl,
        a ∙ rw l (omega int_laws),
      )
