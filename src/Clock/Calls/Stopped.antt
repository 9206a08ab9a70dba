-- ===== src/Clock/Calls/Stopped.antt =====
-- fake_clock_gettime of src/libfaketime.c where the bound on the calls has been reached.
use mathlib.Core.Path.{subst}
use libfaketime.Base.{Bool, true, false, ◌≡◌, ◌∙◌, ◌⊎◌, inl, inr, refl, sym, arith, if◌then◌else◌}
use libfaketime.Base.Int.{ℤ, pos, ◌≤ℤ◌, ◌+ℤ◌, +ℤ_parts}
use libfaketime.Floats.{Floats}
use libfaketime.Outcome.{ok}
use libfaketime.TimeOps.{Time, timespecsub}
use libfaketime.Process.{Process, ClockId, Limits, Spawn}
use libfaketime.World.{World}
use libfaketime.Clock.{fake_clock_gettime, fake_clock, counted}
use libfaketime.Clock.Steps.{start_of, count_call, outside_limits}
use libfaketime.Clock.Calls.{is_cputime, fake_clock-eq}

-- Faking is limited to a number of calls, and as many have been counted.
pub record HasStopped (l : Limits) : Type 0 where
  pub limited : l.limited_faking ≡ true
  pub bound : pos 0 ≤ℤ l.stop_after_ncalls
  pub reached : l.stop_after_ncalls ≤ℤ l.callcounter

one_of :
    (b c : Bool) (x y : Limits)
    → ((if b then (if c then x else y) else y) ≡ y) ⊎ ((if b then (if c then x else y) else y) ≡ x)
one_of true true x y = inr refl
one_of true false x y = inl refl
one_of false c x y = inl refl

count_call-one_of :
    (l : Limits) (s : Spawn)
    → (count_call l s ≡ l) ⊎ (count_call l s ≡ record l { callcounter = l.callcounter +ℤ pos 1 })
unfolding count_call
count_call-one_of l s = one_of _ _ (record l { callcounter = l.callcounter +ℤ pos 1 }) l

pub count_call-HasStopped : (l : Limits) (s : Spawn) → HasStopped l → HasStopped (count_call l s)
count_call-HasStopped l s h = elim (count_call-one_of l s) [
  | inl same ↦ subst HasStopped (sym same) h
  | inr more ↦ subst HasStopped (sym more) (record {
    limited = h.limited;
    bound = h.bound;
    reached = ground (arith, h.reached, +ℤ_parts l.callcounter (pos 1));
  })
]

outside_limits-HasStopped :
    (l : Limits) (elapsed : ℤ) → HasStopped l → outside_limits l elapsed ≡ true
unfolding outside_limits
outside_limits-HasStopped l elapsed h = ground (arith, h.bound, h.reached)

module _ (F : Floats) where
  abbrev pub counted_once : Process F → Process F
  counted_once p = record p { limits = count_call p.limits p.spawn }

  fake_clock-HasStopped :
      (w : World F) (clk : ClockId) (tp : Time) (p : Process F)
      → HasStopped p.limits
      → fake_clock F w clk tp p ≡ ok (pos 0, tp, counted_once p)
  unfolding fake_clock counted
  fake_clock-HasStopped w clk tp p h =
      let later = count_call-HasStopped p.limits p.spawn h in
      ground (
        arith,
        later.limited,
        outside_limits-HasStopped (count_call p.limits p.spawn)
            (timespecsub tp (start_of clk p.start)).sec later,
      )

  -- A call counts itself, and returns the real time.
  pub fake_clock_gettime-HasStopped :
      (w : World F) (clk : ClockId) (tp : Time) (p : Process F)
      → is_cputime clk ≡ false
      → p.dont_fake ≡ false
      → HasStopped p.limits
      → fake_clock_gettime F w clk tp p ≡ ok (pos 0, tp, counted_once p)
  fake_clock_gettime-HasStopped w clk tp p hc hd h =
      fake_clock-eq F w clk tp p hc hd ∙ fake_clock-HasStopped w clk tp p h
