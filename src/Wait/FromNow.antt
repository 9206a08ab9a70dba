-- ===== src/Wait/FromNow.antt =====
-- Deadlines that the functions of src/libfaketime.c reckon from the present.
use libfaketime.Base.{◌≡◌, ◌∙◌, sym}
use libfaketime.Base.Int.{◌+ℤ◌, ◌-ℤ◌, ◌≤ℤ◌, int_laws}
use libfaketime.Floats.{Floats}
use libfaketime.TimeOps.{Time, timespecadd, timespecsub}
use libfaketime.TimeOps.Total.{nanos, IsNormal, min_nanos, max_nanos}
use libfaketime.TimeOps.Laws.{subtract-Saturates, add-Saturates, nanos_inj}
use libfaketime.Process.{Process}
use libfaketime.Wait.Deadline.{Reachable}

-- From the present: where the fake clock shows `f + (n - s)` at the real time `n`, the deadline
-- for `t` is the one that is reckoned from the start.
pub deadline_from_now :
    (n s f t fake : Time)
    → IsNormal n
    → IsNormal s
    → IsNormal f
    → IsNormal t
    → IsNormal fake
    → nanos fake ≡ nanos f +ℤ (nanos n -ℤ nanos s)
    → min_nanos ≤ℤ nanos t -ℤ nanos f
    → nanos t -ℤ nanos f ≤ℤ max_nanos
    → min_nanos ≤ℤ nanos s +ℤ (nanos t -ℤ nanos f)
    → nanos s +ℤ (nanos t -ℤ nanos f) ≤ℤ max_nanos
    → min_nanos ≤ℤ nanos t -ℤ nanos fake
    → nanos t -ℤ nanos fake ≤ℤ max_nanos
    → timespecadd n (timespecsub t fake) ≡ timespecadd s (timespecsub t f)
unfolding timespecadd timespecsub
deadline_from_now n s f t fake hn hs hf ht hfake e dl dh rl rh ll lh =
    let left = subtract-Saturates t fake ht hfake in
    let diff = subtract-Saturates t f ht hf in
    let a = add-Saturates n (timespecsub t fake) hn left.normal in
    let b = add-Saturates s (timespecsub t f) hs diff.normal in
    let l = (left.inside ll lh).0 in
    let d = (diff.inside dl dh).0 in
    let same : nanos n +ℤ nanos (timespecsub t fake) ≡ nanos s +ℤ nanos (timespecsub t f) =
      rw (l, d, e) (omega int_laws) in
    let x = (a.inside (rw (same, d) rl) (rw (same, d) rh)).0 in
    let y = (b.inside (rw d rl) (rw d rh)).0 in nanos_inj _ _ a.normal b.normal (x ∙ (same ∙ sym y))

-- The same with the difference between the clocks, `fake - n`, taken off the deadline.
pub deadline_by_difference :
    (n s f t fake : Time)
    → IsNormal n
    → IsNormal s
    → IsNormal f
    → IsNormal t
    → IsNormal fake
    → nanos fake ≡ nanos f +ℤ (nanos n -ℤ nanos s)
    → min_nanos ≤ℤ nanos t -ℤ nanos f
    → nanos t -ℤ nanos f ≤ℤ max_nanos
    → min_nanos ≤ℤ nanos s +ℤ (nanos t -ℤ nanos f)
    → nanos s +ℤ (nanos t -ℤ nanos f) ≤ℤ max_nanos
    → min_nanos ≤ℤ nanos f -ℤ nanos s
    → nanos f -ℤ nanos s ≤ℤ max_nanos
    → timespecsub t (timespecsub fake n) ≡ timespecadd s (timespecsub t f)
unfolding timespecadd timespecsub
deadline_by_difference n s f t fake hn hs hf ht hfake e dl dh rl rh ol oh =
    let shift = subtract-Saturates fake n hfake hn in
    let diff = subtract-Saturates t f ht hf in
    let a = subtract-Saturates t (timespecsub fake n) ht shift.normal in
    let b = add-Saturates s (timespecsub t f) hs diff.normal in
    let offset : nanos fake -ℤ nanos n ≡ nanos f -ℤ nanos s = rw e (omega int_laws) in
    let o = (shift.inside (rw offset ol) (rw offset oh)).0 in
    let d = (diff.inside dl dh).0 in
    let same : nanos t -ℤ nanos (timespecsub fake n) ≡ nanos s +ℤ nanos (timespecsub t f) =
      rw (o, d, offset) (omega int_laws) in
    let x = (a.inside (rw (same, d) rl) (rw (same, d) rh)).0 in
    let y = (b.inside (rw d rl) (rw d rh)).0 in nanos_inj _ _ a.normal b.normal (x ∙ (same ∙ sym y))

module _ (F : Floats) where
  -- The real time `n` and the deadline `t` are so far from the limits that no step saturates.
  pub record InReach (p : Process F) (n t : Time) : Type 0 where
    pub since_low : min_nanos ≤ℤ nanos n -ℤ nanos p.start.real
    pub since_high : nanos n -ℤ nanos p.start.real ≤ℤ max_nanos
    pub fake_low : min_nanos ≤ℤ nanos p.user.faked_time +ℤ (nanos n -ℤ nanos p.start.real)
    pub fake_high : nanos p.user.faked_time +ℤ (nanos n -ℤ nanos p.start.real) ≤ℤ max_nanos
    pub left_low :
        min_nanos ≤ℤ nanos t -ℤ (nanos p.user.faked_time +ℤ (nanos n -ℤ nanos p.start.real))
    pub left_high :
        nanos t -ℤ (nanos p.user.faked_time +ℤ (nanos n -ℤ nanos p.start.real)) ≤ℤ max_nanos
    pub deadline : Reachable F p p.start.real t
