-- ===== src/Request/Double.antt =====
-- The conversions of doubles: parse_finite_double_prefix, parse_finite_double,
-- scale_finite_double and double_to_timespec. `none` is the source's `false`.
use libfaketime.Base.{ℕ, not, ◌&&◌, ◌||◌, Option, none, some, List, [], ◌∷◌, if◌then◌else◌}
use libfaketime.Base.Int.{ℤ, pos, ◌+ℤ◌, leb_ℤ}
use libfaketime.Floats.{Floats}
use libfaketime.TimeOps.{Time, time, sec_to_nsec, time_min, time_max}
use libfaketime.World.{World}

module _ (F : Floats) where
  open F use {
    Double, of_ℤ, of_double, floor, sub, mul, le, lt, trunc, times, minus, floor_double,
    is_finite_double, double_of_ℤ, trunc_double,
  }

  unfoldable pub parse_finite_double_prefix : World F → List ℕ → Option (Double × List ℕ)
  parse_finite_double_prefix w text =
      let r = w.strtod text in
      if r.converted && (not r.erange && is_finite_double r.value)
      then some (r.value, r.rest)
      else none

  pub parse_finite_double : World F → List ℕ → Option Double
  unfolding parse_finite_double_prefix
  parse_finite_double w text = elim (parse_finite_double_prefix w text) [
    | none ↦ none
    | some (d, end) ↦ elim end [ [] ↦ some d | c ∷ cs ↦ none ]
  ]

  pub scale_finite_double : Double → Double → Option Double
  scale_finite_double value factor =
      let scaled = times value factor in if is_finite_double scaled then some scaled else none

  -- (nstime - floor(nstime)) * SEC_TO_nSEC, converted to long
  pub fraction_nsec : Double → ℤ
  fraction_nsec d = trunc_double (times (minus d (floor_double d)) (double_of_ℤ (pos sec_to_nsec)))

  unfoldable pub double_to_timespec : Double → Option Time
  double_to_timespec value =
      let whole = floor (of_double value) in
      let zero = of_ℤ (pos 0) in
      let s = trunc whole in
      let n = trunc (mul (sub (of_double value) whole) (of_ℤ (pos sec_to_nsec))) in
      if not (is_finite_double value)
      then none
      else if (le zero whole && le (of_ℤ time_max) whole)
          || (lt whole zero && le whole (of_ℤ time_min))
      then none
      else if leb_ℤ (pos sec_to_nsec) n
      then some (time (s +ℤ pos 1) (pos 0))
      else some (time s n)
