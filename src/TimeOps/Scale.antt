-- ===== src/TimeOps/Scale.antt =====
-- timermul2 of src/time_ops.h, and normalize_timespec_value of src/libfaketime.c.
pub mod Laws
use libfaketime.Base.{ℕ, ◌-◌, Bool, true, false, not, ◌&&◌, ◌||◌, if◌then◌else◌}
use libfaketime.Base.Int.{ℤ, pos, ◌+ℤ◌, ◌-ℤ◌, ◌/ℤ◌, ◌%ℤ◌, wrap64, ltb_ℤ, leb_ℤ}
use libfaketime.Floats.{Floats}
use libfaketime.TimeOps.{Time, time, Stored, sec_to_nsec, time_max, time_min}

-- The end of timermul2: `_ft_time` is split into seconds and units, and the seconds are converted
-- from 128 bits to the field's 64.
pub split : ℕ → ℤ → Time
split unit t =
    let n = t %ℤ unit in
    let s = wrap64 ((t -ℤ n) /ℤ unit) in
    if ltb_ℤ n (pos 0) then time (s -ℤ pos 1) (n +ℤ pos unit) else time s n

module _ (F : Floats) where
  open F use {LongDouble, of_ℤ, mul, add, lt, is_finite, trunc}

  unfoldable pub scaled : ℕ → Time → LongDouble → LongDouble
  scaled unit t c = mul (add (mul (of_ℤ t.sec) (of_ℤ (pos unit))) (of_ℤ t.sub)) c

  unfoldable pub max_total : ℕ → LongDouble
  max_total unit = add (mul (of_ℤ time_max) (of_ℤ (pos unit))) (of_ℤ (pos (unit - 1)))

  unfoldable pub min_total : ℕ → LongDouble
  min_total unit = mul (of_ℤ time_min) (of_ℤ (pos unit))

  unfoldable pub out_of_range : ℕ → LongDouble → Bool
  out_of_range unit x = not (is_finite x) || lt (max_total unit) x || lt x (min_total unit)

  pub clamped : ℕ → LongDouble → LongDouble
  clamped unit x =
      if out_of_range unit x
      then (if lt x (of_ℤ (pos 0)) then min_total unit else max_total unit)
      else x

  -- timermul2; `c` is its argument after the conversion to long double.
  pub multiply : ℕ → Time → LongDouble → Stored
  multiply unit t c =
      let x = scaled unit t c in
      record { value = split unit (trunc (clamped unit x)); eoverflow = out_of_range unit x }

  unfoldable pub timespecmul : Time → LongDouble → Time
  timespecmul t c = (multiply sec_to_nsec t c).value

-- The carry of the seconds into a time_t does not overflow where the time is in range.
pub normalize_timespec_value : Time → Time
normalize_timespec_value t =
    if leb_ℤ (pos 0) t.sub && ltb_ℤ t.sub (pos sec_to_nsec)
    then t
    else let s = t.sub /ℤ sec_to_nsec in
      let n = t.sub %ℤ sec_to_nsec in
      if ltb_ℤ n (pos 0)
      then time (t.sec +ℤ (s -ℤ pos 1)) (n +ℤ pos sec_to_nsec)
      else time (t.sec +ℤ s) n
