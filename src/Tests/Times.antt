-- ===== src/Tests/Times.antt =====
-- The laws of the arithmetic at concrete times.
use libfaketime.Base.{◌^◌, ◌≡◌, true, refl, arith}
use libfaketime.Base.Int.{negsuc, pos, ◌+ℤ◌, ◌-ℤ◌, ◌*ℤ◌, ◌/ℤ◌, ◌%ℤ◌, ltb_ℤ, leb_ℤ}
use libfaketime.TimeOps.{
  time_min, timespecsub, timespecadd, cmp, Time, time, add, subtract, sec_to_nsec, time_max,
}
use libfaketime.TimeOps.Total.{IsNormal, nanos, nanos_laws, Saturates}
use libfaketime.TimeOps.Laws.{timespecadd-timespecsub, cmp-nanos, add-Saturates, subtract-Saturates}
use libfaketime.TimeOps.Scale.{
  split, scaled, multiply, out_of_range, max_total, min_total, normalize_timespec_value,
  timespecmul,
}
use libfaketime.TimeOps.Scale.Laws.{
  split-nanos, normalize-nanos, timespecmul-nanos, multiply_overflow_wraps,
}
use libfaketime.Tests.{thousandths, x87_integers}

-- The last nanosecond that a `Time` can hold, and half a second.
abbrev last : Time
last = time time_max (pos 999999999)

abbrev half : Time
half = time (pos 0) (pos 500000000)

add-Saturates_example : Saturates (nanos last +ℤ nanos half) (add sec_to_nsec last half)
add-Saturates_example =
    add-Saturates last half (omega arith, omega arith) (omega arith, omega arith)

subtract-Saturates_example : Saturates (nanos half -ℤ nanos last) (subtract sec_to_nsec half last)
subtract-Saturates_example =
    subtract-Saturates half last (omega arith, omega arith) (omega arith, omega arith)

timespecadd-timespecsub_example : timespecadd (timespecsub last half) half ≡ last
timespecadd-timespecsub_example =
    timespecadd-timespecsub last half (omega arith, omega arith) (omega arith, omega arith)
      (omega arith, omega arith) (omega nanos_laws) (omega nanos_laws)

cmp-nanos_example :
    (cmp ltb_ℤ half last ≡ ltb_ℤ (nanos half) (nanos last))
    × (cmp leb_ℤ half last ≡ leb_ℤ (nanos half) (nanos last))
cmp-nanos_example = cmp-nanos half last (omega arith, omega arith) (omega arith, omega arith)

split-nanos_example :
    IsNormal (split sec_to_nsec (negsuc 1499999999))
    × (nanos (split sec_to_nsec (negsuc 1499999999)) ≡ negsuc 1499999999)
split-nanos_example = split-nanos (negsuc 1499999999) (omega arith) (omega arith)

normalize-nanos_example :
    IsNormal (normalize_timespec_value (time (pos 3) (negsuc 0)))
    × (nanos (normalize_timespec_value (time (pos 3) (negsuc 0))) ≡ nanos (time (pos 3) (negsuc 0)))
normalize-nanos_example = normalize-nanos (time (pos 3) (negsuc 0))

-- Half a second at twice the rate.
timespecmul-nanos_example :
    IsNormal (timespecmul thousandths half (pos 2000))
    × (nanos (timespecmul thousandths half (pos 2000))
        ≡ thousandths.trunc (scaled thousandths sec_to_nsec half (pos 2000)))
unfolding out_of_range scaled max_total min_total ◌+ℤ◌ ◌-ℤ◌ ◌*ℤ◌ ◌/ℤ◌ ◌%ℤ◌
timespecmul-nanos_example =
    timespecmul-nanos thousandths half (pos 2000) refl (omega arith) (omega arith)

multiply_overflow_wraps_example :
    multiply x87_integers sec_to_nsec (time (pos (2 ^ 62)) (pos 0)) (pos 4)
    ≡ record { value = time time_min (pos 0); eoverflow = true }
unfolding out_of_range scaled max_total min_total ◌+ℤ◌ ◌-ℤ◌ ◌*ℤ◌
multiply_overflow_wraps_example =
    multiply_overflow_wraps x87_integers (time (pos (2 ^ 62)) (pos 0)) (pos 4) refl refl refl
