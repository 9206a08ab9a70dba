-- ===== src/TimeOps/Scale/Laws.antt =====
-- timermul2 and normalize_timespec_value, against the numbers of nanoseconds.
use libfaketime.Base.{
  ◌^◌, false, true, refl, tests, inr, inl, ◌*◌, ◌+◌, Bool-cases, ◌<◌, ◌&&◌, ◌≡◌, arith,
}
use libfaketime.Base.Int.{
  ltb_ℤ, leb_ℤ, pos_part, neg_part, ℤ, pos, negsuc, ◌+ℤ◌, ◌-ℤ◌, ◌*ℤ◌, ◌/ℤ◌, ◌%ℤ◌, wrap64, ◌≤ℤ◌,
}
use libfaketime.TimeOps.{time_min, time, Time, sec_to_nsec}
use libfaketime.TimeOps.Laws.{nanos_inj}
use libfaketime.TimeOps.Total.{nanos_laws, nanos, IsNormal, nanos_parts, min_nanos, max_nanos}
use libfaketime.TimeOps.Scale.{
  max_total, scaled, out_of_range, clamped, timespecmul, multiply, Floats, split,
  normalize_timespec_value,
}

-- In the range of a `Time` the split at the end of timermul2 loses nothing.
pub split-nanos :
    (t : ℤ)
    → min_nanos ≤ℤ t
    → t ≤ℤ max_nanos
    → IsNormal (split sec_to_nsec t) × (nanos (split sec_to_nsec t) ≡ t)
unfolding split ◌+ℤ◌ ◌-ℤ◌ ◌*ℤ◌ ◌/ℤ◌ ◌%ℤ◌ wrap64
split-nanos (pos n) lo hi = ground (arith, nanos_parts (split sec_to_nsec (pos n)))
split-nanos (negsuc n) lo hi = ground (arith, nanos_parts (split sec_to_nsec (negsuc n)))

-- The split is normalised, whatever it loses.
pub split-IsNormal : (t : ℤ) → IsNormal (split sec_to_nsec t)
unfolding split ◌+ℤ◌ ◌%ℤ◌
split-IsNormal (pos n) = ground arith
split-IsNormal (negsuc n) = ground arith

quotient_remainder :
    (a : ℤ)
    → (pos_part a + neg_part (a /ℤ sec_to_nsec) * 1000000000 + neg_part (a %ℤ sec_to_nsec)
        ≡ neg_part a + pos_part (a /ℤ sec_to_nsec) * 1000000000 + pos_part (a %ℤ sec_to_nsec))
      × (pos_part (a %ℤ sec_to_nsec) < 1000000000)
      × (neg_part (a %ℤ sec_to_nsec) < 1000000000)
unfolding ◌/ℤ◌ ◌%ℤ◌
quotient_remainder (pos n) = ground arith
quotient_remainder (negsuc n) = ground arith

-- normalize_timespec_value yields a second part in 0 ... 999999999 and keeps the number of
-- nanoseconds, where the seconds do not overflow.
pub normalize-nanos :
    (t : Time)
    → IsNormal (normalize_timespec_value t) × (nanos (normalize_timespec_value t) ≡ nanos t)
unfolding normalize_timespec_value
normalize-nanos t = elim (Bool-cases (leb_ℤ (pos 0) t.sub && ltb_ℤ t.sub (pos sec_to_nsec))) [
  | inl normal ↦ rw normal (ground arith, refl)
  | inr other ↦ rw other (elim (Bool-cases (ltb_ℤ (t.sub %ℤ sec_to_nsec) (pos 0))) [
    | inl negative ↦ rw negative (omega (tests, nanos_laws, quotient_remainder t.sub))
    | inr positive ↦ rw positive (omega (tests, nanos_laws, quotient_remainder t.sub))
  ])
]

split_wraps : split sec_to_nsec (pos (2 ^ 63 * 1000000000)) ≡ time time_min (pos 0)
unfolding split ◌+ℤ◌ ◌-ℤ◌ ◌*ℤ◌ ◌/ℤ◌ ◌%ℤ◌ wrap64
split_wraps = refl

module _ (F : Floats) (t : Time) (c : F.LongDouble) where
  pub timespecmul-IsNormal : IsNormal (timespecmul F t c)
  unfolding timespecmul multiply
  timespecmul-IsNormal = split-IsNormal _

  -- Where the scaled number of nanoseconds is finite and in range, timespecmul stores its whole
  -- part, normalised.
  pub timespecmul-nanos :
      out_of_range F sec_to_nsec (scaled F sec_to_nsec t c) ≡ false
      → min_nanos ≤ℤ F.trunc (scaled F sec_to_nsec t c)
      → F.trunc (scaled F sec_to_nsec t c) ≤ℤ max_nanos
      → IsNormal (timespecmul F t c)
        × (nanos (timespecmul F t c) ≡ F.trunc (scaled F sec_to_nsec t c))
  unfolding timespecmul multiply clamped
  timespecmul-nanos h lo hi = rw h (split-nanos (F.trunc (scaled F sec_to_nsec t c)) lo hi)

  -- Where `long double` rounds the greatest number of nanoseconds up to 2 ^ 63 * 10 ^ 9, as the
  -- 64-bit mantissa of the x87 does, timermul2 stores the least second, with EOVERFLOW, for a
  -- product that is out of range and not negative.
  pub multiply_overflow_wraps :
      out_of_range F sec_to_nsec (scaled F sec_to_nsec t c) ≡ true
      → F.lt (scaled F sec_to_nsec t c) (F.of_ℤ (pos 0)) ≡ false
      → F.trunc (max_total F sec_to_nsec) ≡ pos (2 ^ 63 * 1000000000)
      → multiply F sec_to_nsec t c ≡ record { value = time time_min (pos 0); eoverflow = true }
  unfolding multiply clamped
  multiply_overflow_wraps h nonneg rounds = rw h (rw nonneg (rw rounds (rw split_wraps refl)))

pub normalize-Normal : (t : Time) → IsNormal t → normalize_timespec_value t ≡ t
normalize-Normal t h = nanos_inj _ _ (normalize-nanos t).0 h (normalize-nanos t).1
