-- ===== src/Syscall/Futex/Laws.antt =====
-- The timeout of FUTEX_WAIT_BITSET, of src/libfaketime.c, against the fake clock.
use libfaketime.Base.{◌≡◌, ◌∙◌, true, some, refl, [], arith, ap}
use libfaketime.Base.Int.{pos, ◌+ℤ◌, ◌-ℤ◌, ◌≤ℤ◌}
use libfaketime.Floats.{Floats}
use libfaketime.Outcome.{ok}
use libfaketime.TimeOps.{Time, timespecadd, timespecsub}
use libfaketime.TimeOps.Total.{nanos, IsNormal, min_nanos, max_nanos, nanos_parts}
use libfaketime.TimeOps.Laws.{subtract-Saturates, add-Saturates}
use libfaketime.Process.{Process, realtime}
use libfaketime.World.{World}
use libfaketime.Clock.{advanced_time, fake_clock_gettime}
use libfaketime.Clock.Steps.{start_of}
use libfaketime.Clock.Calls.{Steady, steady_end}
use libfaketime.Clock.Shift.{Shifting, fake_clock_gettime_shift}
use libfaketime.Wait.FromNow.{deadline_by_difference, InReach}
use libfaketime.Wait.Deadline.{deadline_shows}
use libfaketime.Syscall.Futex.{
  wait_bitset, not_negative, kernel_timeout, futex_cmd_has_timeout, waits, wait_rounds,
  with_fake_time, handle_futex_syscall,
}

not_negative-Normal : (t : Time) → IsNormal t → pos 0 ≤ℤ nanos t → not_negative t ≡ t
unfolding not_negative
not_negative-Normal t h pos_t = ground (arith, nanos_parts t)

module _ (F : Floats) (w : World F) where
  handle_futex-waits :
      (p q : Process F) (real fake timeout : Time)
      → fake_clock_gettime F w realtime real p ≡ ok (pos 0, fake, q)
      → handle_futex_syscall F w wait_bitset true (some timeout) real [] p
        ≡ ok (waits (some (not_negative (timespecsub timeout (timespecsub fake real)))), q)
  unfolding handle_futex_syscall with_fake_time wait_rounds kernel_timeout futex_cmd_has_timeout
  handle_futex-waits p q real fake timeout e = rw e refl

  -- FUTEX_WAIT_BITSET with FUTEX_CLOCK_REALTIME, in a process in the mode FT_START_AT with no rate,
  -- no ticks, no limits, no files and a valid cache: the first time that the call asks the kernel
  -- to wait, it does so with a timeout at which the fake clock shows the time that was asked for.
  -- Nothing is said of a wait that is repeated. The times are normalised, no step is out of range,
  -- and that point of the real clock is not before its zero.
  pub handle_futex_syscall_shows :
      (p : Process F) (real timeout : Time)
      → Steady F w p
      → Shifting F w p realtime real
      → InReach F p real timeout
      → min_nanos ≤ℤ nanos p.user.faked_time -ℤ nanos p.start.real
      → nanos p.user.faked_time -ℤ nanos p.start.real ≤ℤ max_nanos
      → pos 0 ≤ℤ nanos p.start.real +ℤ (nanos timeout -ℤ nanos p.user.faked_time)
      → (d : Time) × (handle_futex_syscall F w wait_bitset true (some timeout) real [] p
          ≡ ok (waits (some d), steady_end F w p realtime real))
        × (advanced_time F p.user p.start realtime d ≡ timeout)
  unfolding start_of timespecadd timespecsub
  handle_futex_syscall_shows p real timeout st sh h ol oh dn =
      let (fake, eq, normal, total) =
        fake_clock_gettime_shift F w p realtime real refl st sh h.since_low h.since_high h.fake_low
          h.fake_high in
      let r = h.deadline in
      let from_start =
        deadline_by_difference real p.start.real p.user.faked_time timeout fake sh.real_normal
          sh.start_normal sh.user_normal r.normal normal total r.diff_low r.diff_high r.real_low
          r.real_high ol oh in
      let diff = subtract-Saturates timeout p.user.faked_time r.normal sh.user_normal in
      let d = timespecadd p.start.real (timespecsub timeout p.user.faked_time) in
      let sum =
        add-Saturates p.start.real (timespecsub timeout p.user.faked_time) sh.start_normal
          diff.normal in
      let left = (diff.inside r.diff_low r.diff_high).0 in
      let whole = (sum.inside (rw left r.real_low) (rw left r.real_high)).0 in
      let same : not_negative d ≡ d = not_negative-Normal d sum.normal (rw (whole, left) dn) in
      (
        d,
        handle_futex-waits p _ real fake timeout eq
            ∙ ap (λ t. ok (waits (some t), steady_end F w p realtime real))
                (ap not_negative from_start ∙ same),
        deadline_shows F p realtime timeout sh.no_rate r,
      )
