-- ===== src/Clock/Wrappers/Laws.antt =====
-- gettimeofday of src/libfaketime.c on a clock that goes on from a start.
use libfaketime.Base.{ap, ◌≡◌, ◌∙◌, refl, arith, some}
use libfaketime.Base.Int.{
  ℤ, pos, negsuc, ◌+ℤ◌, ◌-ℤ◌, ◌*ℤ◌, ◌/ℤ◌, ◌%ℤ◌, ◌≤ℤ◌, ◌<ℤ◌, pos_part, neg_part, int_laws,
}
use libfaketime.Floats.{Floats}
use libfaketime.Outcome.{ok}
use libfaketime.TimeOps.{Time, time}
use libfaketime.TimeOps.Total.{nanos, IsNormal, min_nanos, max_nanos}
use libfaketime.Process.{Process, realtime}
use libfaketime.World.{World}
use libfaketime.Clock.Steps.{start_of}
use libfaketime.Clock.Calls.{Steady, steady_end}
use libfaketime.Clock.Shift.{Shifting, fake_clock_gettime_shift}
use libfaketime.Clock.Wrappers.{with_start, gettimeofday}

-- The microseconds of a struct timeval.
abbrev pub micros : Time → ℤ
micros t = t.sec *ℤ 1000000 +ℤ t.sub

abbrev in_micros : Time → Time
in_micros t = time t.sec (t.sub /ℤ 1000)

rest_below : (a : ℤ) → pos 0 ≤ℤ a → (pos 0 ≤ℤ a %ℤ 1000) × (a %ℤ 1000 <ℤ pos 1000)
unfolding ◌%ℤ◌
rest_below (pos n) h = (omega arith, omega arith)
rest_below (negsuc n) h = absurd (omega arith)

whole_and_rest : (a : ℤ) → pos 0 ≤ℤ a → a ≡ (a /ℤ 1000) *ℤ 1000 +ℤ a %ℤ 1000
unfolding ◌%ℤ◌ ◌/ℤ◌
whole_and_rest (pos n) h = omega int_laws
whole_and_rest (negsuc n) h = absurd (omega arith)

-- Numbers that differ by whole thousands, and what is left of them without the rests.
same_thousands :
    (m m' r r' a v v' : ℤ)
    → (pos 0 ≤ℤ r) × (r <ℤ pos 1000)
    → (pos 0 ≤ℤ r') × (r' <ℤ pos 1000)
    → m *ℤ 1000 +ℤ r ≡ a +ℤ v *ℤ 1000
    → m' *ℤ 1000 +ℤ r' ≡ a +ℤ v' *ℤ 1000
    → m' -ℤ m ≡ v' -ℤ v
same_thousands m m' r r' a v v' h h' e e' =
    omega
      (int_laws, h.0, h.1, h'.0, h'.1, ap pos_part e, ap neg_part e, ap pos_part e', ap neg_part e')

nanos-in_micros : (t : Time) → IsNormal t → micros (in_micros t) *ℤ 1000 +ℤ t.sub %ℤ 1000 ≡ nanos t
unfolding nanos
nanos-in_micros t h =
    let e = whole_and_rest t.sub h.0 in omega (int_laws, ap pos_part e, ap neg_part e)

module _ (F : Floats) where
  nanos-with_start :
      (p : Process F) (tv : Time)
      → nanos (with_start F p tv) ≡ micros tv *ℤ 1000 +ℤ p.start.real.sub %ℤ 1000
  unfolding nanos with_start
  nanos-with_start p tv = omega int_laws

  abbrev shift : Process F → ℤ
  shift p = nanos p.user.faked_time +ℤ (p.start.real.sub %ℤ 1000 -ℤ nanos p.start.real)

  shown :
      (p : Process F) (t tv : Time)
      → IsNormal t
      → nanos t ≡ nanos p.user.faked_time +ℤ (nanos (with_start F p tv) -ℤ nanos p.start.real)
      → micros (in_micros t) *ℤ 1000 +ℤ t.sub %ℤ 1000 ≡ shift p +ℤ micros tv *ℤ 1000
  shown p t tv h e =
      let total = nanos-with_start p tv in nanos-in_micros t h ∙ (e ∙ rw total (omega int_laws))

module _ (F : Floats) where
  -- What fake_clock_gettime is given for the time `tv` is normalised, and no step of its
  -- arithmetic is out of range.
  pub record Follows (p : Process F) (tv : Time) : Type 0 where
    pub since_low : min_nanos ≤ℤ nanos (with_start F p tv) -ℤ nanos p.start.real
    pub since_high : nanos (with_start F p tv) -ℤ nanos p.start.real ≤ℤ max_nanos
    pub fake_low :
        min_nanos ≤ℤ nanos p.user.faked_time +ℤ (nanos (with_start F p tv) -ℤ nanos p.start.real)
    pub fake_high :
        nanos p.user.faked_time +ℤ (nanos (with_start F p tv) -ℤ nanos p.start.real) ≤ℤ max_nanos

  gettimeofday-shown :
      (w : World F) (p : Process F) (tv : Time)
      → Steady F w p
      → Shifting F w p realtime (with_start F p tv)
      → Follows p tv
      → (t : Time) × (gettimeofday F w (some tv) p
          ≡ ok (pos 0, some (in_micros t), steady_end F w p realtime (with_start F p tv)))
        × IsNormal t
        × (micros (in_micros t) *ℤ 1000 +ℤ t.sub %ℤ 1000 ≡ shift F p +ℤ micros tv *ℤ 1000)
  unfolding gettimeofday start_of
  gettimeofday-shown w p tv st sh h =
      let (t, e, normal, total) =
        fake_clock_gettime_shift F w p realtime (with_start F p tv) refl st sh h.since_low
          h.since_high h.fake_low h.fake_high in
      (t, rw e refl, normal, shown F p t tv normal total)

  -- Two calls of gettimeofday, the second in the state that the first leaves and in whatever
  -- environment it meets then, each with a valid cache, no limits, no file and no ticks, in the
  -- mode FT_START_AT without a rate: between the two times that the program sees there are exactly
  -- as many microseconds as between the two real ones, although the start and the user's time may
  -- lie within a microsecond. The times are normalised, and no step is out of range.
  pub gettimeofday_elapsed :
      (w w' : World F) (p : Process F) (tv tv' : Time)
      → Steady F w p
      → Steady F w' (steady_end F w p realtime (with_start F p tv))
      → Shifting F w p realtime (with_start F p tv)
      → IsNormal (with_start F p tv')
      → Follows p tv
      → Follows p tv'
      → (u u' : Time) × (q q' : Process F) × (gettimeofday F w (some tv) p ≡ ok (pos 0, some u, q))
        × (gettimeofday F w' (some tv') q ≡ ok (pos 0, some u', q'))
        × (micros u' -ℤ micros u ≡ micros tv' -ℤ micros tv)
  unfolding with_start
  gettimeofday_elapsed w w' p tv tv' st st' sh normal' h h' =
      let q = steady_end F w p realtime (with_start F p tv) in
      let sh' : Shifting F w' q realtime (with_start F q tv') = record {
        mode = sh.mode;
        no_rate = sh.no_rate;
        user_normal = sh.user_normal;
        start_normal = sh.start_normal;
        real_normal = normal';
      } in
      let f' : Follows q tv' = record {
        since_low = h'.since_low;
        since_high = h'.since_high;
        fake_low = h'.fake_low;
        fake_high = h'.fake_high;
      } in
      let (t, e, n, total) = gettimeofday-shown w p tv st sh h in
      let (t', e', n', total') = gettimeofday-shown w' q tv' st' sh' f' in
      (
        in_micros t,
        in_micros t',
        q,
        steady_end F w' q realtime (with_start F q tv'),
        e,
        e',
        same_thousands (micros (in_micros t)) (micros (in_micros t')) (t.sub %ℤ 1000)
            (t'.sub %ℤ 1000) (shift F p) (micros tv) (micros tv') (rest_below t.sub n.0)
            (rest_below t'.sub n'.0) total total',
      )
