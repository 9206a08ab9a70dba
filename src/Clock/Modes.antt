-- ===== src/Clock/Modes.antt =====
-- advanced_time: the fake clock in the mode FT_START_AT, in nanoseconds.
use libfaketime.Base.{false, refl, ◌≡◌, ◌∙◌}
use libfaketime.Base.Int.{◌+ℤ◌, ◌-ℤ◌, ◌≤ℤ◌, int_laws}
use libfaketime.Floats.{Floats}
use libfaketime.TimeOps.{Time, timespecadd, timespecsub}
use libfaketime.TimeOps.Total.{nanos, IsNormal, min_nanos, max_nanos}
use libfaketime.TimeOps.Laws.{Saturates_mono, add-Saturates, subtract-Saturates}
use libfaketime.Shared.{SystemTime}
use libfaketime.Process.{User, ClockId}
use libfaketime.Clock.Steps.{start_of}
use libfaketime.Clock.{advanced_time}

module _ (F : Floats) where
  -- With no rate the fake clock is the real clock, moved by the same number of nanoseconds
  -- whatever is read: the user's time less the start time of the clock.
  pub advanced_time-nanos :
      (u : User F) (start : SystemTime) (clk : ClockId) (tp : Time)
      → u.rate_set ≡ false
      → IsNormal u.faked_time
      → IsNormal (start_of clk start)
      → IsNormal tp
      → min_nanos ≤ℤ nanos tp -ℤ nanos (start_of clk start)
      → nanos tp -ℤ nanos (start_of clk start) ≤ℤ max_nanos
      → min_nanos ≤ℤ nanos u.faked_time +ℤ (nanos tp -ℤ nanos (start_of clk start))
      → nanos u.faked_time +ℤ (nanos tp -ℤ nanos (start_of clk start)) ≤ℤ max_nanos
      → IsNormal (advanced_time F u start clk tp)
        × (nanos (advanced_time F u start clk tp)
            ≡ nanos u.faked_time +ℤ (nanos tp -ℤ nanos (start_of clk start)))
  unfolding advanced_time timespecadd timespecsub
  advanced_time-nanos u start clk tp hr hf hs ht lo hi lo' hi' =
      let d = subtract-Saturates tp (start_of clk start) ht hs in
      let e = (d.inside lo hi).0 in
      let a = add-Saturates u.faked_time (timespecsub tp (start_of clk start)) hf d.normal in
      rw hr (a.normal, (a.inside (rw e lo') (rw e hi')).0 ∙ rw e refl)

  -- In the mode FT_START_AT without a rate, at normalised times, the fake clock does not go back
  -- where the real clock does not, also where the arithmetic saturates.
  pub advanced_time_mono :
      (u : User F) (start : SystemTime) (clk : ClockId) (tp tp' : Time)
      → u.rate_set ≡ false
      → IsNormal u.faked_time
      → IsNormal (start_of clk start)
      → IsNormal tp
      → IsNormal tp'
      → nanos tp ≤ℤ nanos tp'
      → nanos (advanced_time F u start clk tp) ≤ℤ nanos (advanced_time F u start clk tp')
  unfolding advanced_time timespecadd timespecsub
  advanced_time_mono u start clk tp tp' hr hf hs ht ht' le =
      let d = subtract-Saturates tp (start_of clk start) ht hs in
      let d' = subtract-Saturates tp' (start_of clk start) ht' hs in
      rw hr (
        Saturates_mono (add-Saturates u.faked_time _ hf d.normal)
          (add-Saturates u.faked_time _ hf d'.normal)
          (omega (int_laws, Saturates_mono d d' (omega int_laws))))
