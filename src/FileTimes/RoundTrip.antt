-- ===== src/FileTimes/RoundTrip.antt =====
-- utimensat and futimens of src/libfaketime.c against the stat family: fake_two_timespec.
use libfaketime.Base.{arith, ap, [], ◌∙◌, ◌≡◌, false, some, Option}
use libfaketime.Base.Int.{◌+ℤ◌, ◌-ℤ◌, ◌≤ℤ◌, int_laws, eqb_ℤ}
use libfaketime.Floats.{Floats}
use libfaketime.Outcome.{ok}
use libfaketime.TimeOps.{Time, timespecadd, timespecsub}
use libfaketime.TimeOps.Total.{nanos, IsNormal, FitsTime, min_nanos, max_nanos}
use libfaketime.TimeOps.Laws.{subtract-Saturates, add-Saturates, nanos_inj, nanos-FitsTime}
use libfaketime.Process.{Process, realtime, start_at}
use libfaketime.World.{World}
use libfaketime.Clock.{advanced_time}
use libfaketime.Clock.Steps.{start_of}
use libfaketime.TimeOps.Scale.{normalize_timespec_value}
use libfaketime.Clock.Calls.{steady_result, Steady}
use libfaketime.TimeOps.Scale.Laws.{normalize-Normal}
use libfaketime.Clock.Shift.{rule_time_start, start_at_not_noop}
use libfaketime.FileTimes.Laws.{fake_statbuf-Steady}
use libfaketime.FileTimes.{Stat, set_ticking, fake_statbuf}
use libfaketime.FileTimes.{translate, second_timespec, fake_two_timespec, utime_now, utime_omit}

module _ (F : Floats) where
  -- The request is an offset, and `t` is so far from the limits that no step saturates.
  pub record IsPlaced (p : Process F) (t : Time) : Type 0 where
    pub relative : p.user.faked_time ≡ timespecadd p.start.real p.user.offset
    pub normal : IsNormal t
    pub fits : FitsTime t
    pub start_normal : IsNormal p.start.real
    pub offset_normal : IsNormal p.user.offset
    pub start_low : min_nanos ≤ℤ nanos p.start.real +ℤ nanos p.user.offset
    pub start_high : nanos p.start.real +ℤ nanos p.user.offset ≤ℤ max_nanos
    pub time_low : min_nanos ≤ℤ nanos t -ℤ nanos p.user.offset
    pub time_high : nanos t -ℤ nanos p.user.offset ≤ℤ max_nanos
    pub since_low : min_nanos ≤ℤ nanos t -ℤ nanos p.user.offset -ℤ nanos p.start.real
    pub since_high : nanos t -ℤ nanos p.user.offset -ℤ nanos p.start.real ≤ℤ max_nanos

  shown_again :
      (p : Process F) (t : Time)
      → p.user.rate_set ≡ false
      → IsPlaced p t
      → advanced_time F p.user p.start realtime (timespecsub t p.user.offset) ≡ t
  unfolding advanced_time timespecsub timespecadd start_of
  shown_again p t hr h =
      let off = p.user.offset in
      let d = subtract-Saturates t off h.normal h.offset_normal in
      let s = add-Saturates p.start.real off h.start_normal h.offset_normal in
      let e = subtract-Saturates (timespecsub t off) p.start.real d.normal h.start_normal in
      let shifted = (d.inside h.time_low h.time_high).0 in
      let begun = (s.inside h.start_low h.start_high).0 in
      let elapsed = (e.inside (rw shifted h.since_low) (rw shifted h.since_high)).0 in
      let since = timespecsub (timespecsub t off) p.start.real in
      let sum = add-Saturates (timespecadd p.start.real off) since s.normal e.normal in
      let total : nanos (timespecadd p.start.real off) +ℤ nanos since ≡ nanos t =
        rw (elapsed, begun, shifted) (omega int_laws) in
      let range = nanos-FitsTime t h.normal h.fits in
      rw (hr, h.relative)
        (nanos_inj _ _ sum.normal h.normal
          ((sum.inside (rw total range.0) (rw total range.1)).0 ∙ total))

  not_special :
      (t : Time) → IsNormal t → (eqb_ℤ t.sub utime_now ≡ false) × (eqb_ℤ t.sub utime_omit ≡ false)
  not_special t h = ground arith

  fake_two_timespec-Placed :
      (w : World F) (p : Process F) (real : Option Time) (a m : Time)
      → IsNormal a
      → IsNormal m
      → fake_two_timespec F w false real (some (a, m)) p
        ≡ ok (some (timespecsub a p.user.offset, timespecsub m p.user.offset), p)
  unfolding fake_two_timespec second_timespec translate
  fake_two_timespec-Placed w p real a m ha hm =
      let na = not_special a ha in let nm = not_special m hm in simp (na.0, na.1, nm.0, nm.1)

  stored_shows :
      (w : World F) (p : Process F) (t : Time)
      → p.user.rate_set ≡ false
      → p.user.mode ≡ start_at
      → IsPlaced p t
      → steady_result F w (set_ticking F false p) realtime (timespecsub t p.user.offset) ≡ t
  unfolding advanced_time
  stored_shows w p t hr hm h =
      ap normalize_timespec_value (
        rule_time_start F w (set_ticking F false p) realtime (timespecsub t p.user.offset) hm
        ∙ shown_again p t hr h)
      ∙ normalize-Normal t h.normal

  -- utimensat and futimens with the faking of utime on, in a process that follows an offset with no
  -- rate in the mode FT_START_AT: if the real function keeps the two times that it is given, then
  -- fake_statbuf, with the semaphore free and nothing to read again, to replay, to limit or to
  -- save, shows the two times that were asked for. The times are normalised and so far from the
  -- limits that no step saturates.
  pub fake_two_timespec-fake_statbuf :
      (w : World F) (p : Process F) (real : Option Time) (a m c : Time)
      → p.sem_events ≡ []
      → Steady F w (set_ticking F false p)
      → p.user.rate_set ≡ false
      → p.user.mode ≡ start_at
      → IsPlaced p a
      → IsPlaced p m
      → (stored : Time × Time) × (shown : Time) × (q : Process F) × ((fake_two_timespec F w false
              real
              (some (a, m))
              p
            ≡ ok (some stored, p))
          × (fake_statbuf F w (record { ctime = c; atime = stored.0; mtime = stored.1 }) p
              ≡ ok (record { ctime = shown; atime = a; mtime = m }, q)))
  fake_two_timespec-fake_statbuf w p real a m c hs st hr hm ha hb =
      let off = p.user.offset in
      let buf : Stat = record { ctime = c; atime = timespecsub a off; mtime = timespecsub m off } in
      let (q, (shown, rest)) = fake_statbuf-Steady F w p buf hs st (start_at_not_noop F w hm) in
      let k = steady_result F w (set_ticking F false p) realtime c in
      let seen : record {
        ctime = k;
        atime = steady_result F w (set_ticking F false p) realtime (timespecsub a off);
        mtime = steady_result F w (set_ticking F false p) realtime (timespecsub m off);
      }
          ≡ record { ctime = k; atime = a; mtime = m } =
        λ i. record {
          ctime = k;
          atime = stored_shows w p a hr hm ha i;
          mtime = stored_shows w p m hr hm hb i;
        } in
      (
        (timespecsub a off, timespecsub m off),
        k,
        q,
        (
          fake_two_timespec-Placed w p real a m ha.normal hb.normal,
          shown ∙ ap (λ b. ok (b, q)) seen,
        ),
      )
