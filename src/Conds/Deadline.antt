-- ===== src/Conds/Deadline.antt =====
-- The deadline of pthread_cond_timedwait, of src/libfaketime.c, against the fake clock.
use libfaketime.Base.{◌≡◌, false, some, none, refl, List, ℕ}
use libfaketime.Base.Int.{pos, ℤ}
use libfaketime.Floats.{Floats}
use libfaketime.Outcome.{ok}
use libfaketime.TimeOps.{Time, timespecadd, timespecsub}
use libfaketime.Process.{Process, realtime}
use libfaketime.World.{World}
use libfaketime.Clock.{advanced_time, fake_clock_gettime}
use libfaketime.Clock.Steps.{start_of}
use libfaketime.Clock.Calls.{Steady, steady_end}
use libfaketime.Clock.Shift.{Shifting, fake_clock_gettime_shift}
use libfaketime.Wait.FromNow.{deadline_from_now, InReach}
use libfaketime.Wait.Deadline.{deadline_shows}
use libfaketime.Seeded.{Converted}
use libfaketime.Conds.{
  WaitAnswers, waits, timedwait, choose_wait, wait_until, wait_deadline, time_left,
}

module _ (F : Floats) (w : World F) (strtol : List ℕ → Converted ℤ) where
  choose_wait-waits :
      (a : WaitAnswers) (q : Process F) (now fake abstime : Time) (r : ℤ)
      → w.getenv "FAKETIME_WAIT_MS" ≡ none
      → q.user.rate_set ≡ false
      → choose_wait F w strtol a realtime now abstime (r, fake, q)
        ≡ ok (waits (some (timespecadd now (timespecsub abstime fake))), q)
  unfolding choose_wait wait_until wait_deadline time_left
  choose_wait-waits a q now fake abstime r he hr = rw (he, choose_wait, hr) refl

  timedwait-waits :
      (a : WaitAnswers) (p q : Process F) (now fake abstime : Time) (r : ℤ)
      → a.lock ≡ pos 0
      → a.unlock ≡ pos 0
      → a.now ≡ some now
      → w.getenv "FAKETIME_WAIT_MS" ≡ none
      → q.user.rate_set ≡ false
      → fake_clock_gettime F w realtime now p ≡ ok (r, fake, q)
      → timedwait F w strtol a realtime (some abstime) p
        ≡ ok (waits (some (timespecadd now (timespecsub abstime fake))), q)
  unfolding timedwait
  timedwait-waits a p q now fake abstime r hl hu hn he hr e =
      simp (hl, hu, hn, e) (choose_wait-waits a q now fake abstime r he hr)

  -- pthread_cond_timedwait on a condition variable of CLOCK_REALTIME, with FAKETIME_WAIT_MS not
  -- set, no failure of the lock or of the real clock, and a process in the mode FT_START_AT with no
  -- rate, no ticks, no limits, no files and a valid cache: the real function is given a deadline at
  -- which the fake clock shows the time that was asked for. The times are normalised and no step is
  -- out of range.
  pub timedwait_shows :
      (a : WaitAnswers) (p : Process F) (now abstime : Time)
      → a.lock ≡ pos 0
      → a.unlock ≡ pos 0
      → a.now ≡ some now
      → w.getenv "FAKETIME_WAIT_MS" ≡ none
      → Steady F w p
      → Shifting F w p realtime now
      → InReach F p now abstime
      → (d : Time) × (timedwait F w strtol a realtime (some abstime) p
          ≡ ok (waits (some d), steady_end F w p realtime now))
        × (advanced_time F p.user p.start realtime d ≡ abstime)
  unfolding start_of
  timedwait_shows a p now abstime hl hu hn he st sh h =
      let (fake, eq, normal, total) =
        fake_clock_gettime_shift F w p realtime now refl st sh h.since_low h.since_high h.fake_low
          h.fake_high in
      let r = h.deadline in
      let from_start =
        deadline_from_now now p.start.real p.user.faked_time abstime fake sh.real_normal
          sh.start_normal sh.user_normal r.normal normal total r.diff_low r.diff_high r.real_low
          r.real_high (rw total h.left_low) (rw total h.left_high) in
      (
        timespecadd now (timespecsub abstime fake),
        timedwait-waits a p _ now fake abstime (pos 0) hl hu hn he sh.no_rate eq,
        rw from_start (deadline_shows F p realtime abstime sh.no_rate r),
      )
