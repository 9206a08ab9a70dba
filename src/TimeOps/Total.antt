-- ===== src/TimeOps/Total.antt =====
-- What a `Time` stands for: its number of nanoseconds.
use libfaketime.Base.{◌+◌, ◌-◌, ◌*◌, ◌^◌, ◌≡◌, true, false}
use libfaketime.Base.Int.{ℤ, pos, negsuc, pos_part, neg_part, ◌+ℤ◌, ◌*ℤ◌, ◌≤ℤ◌, ◌<ℤ◌, int_laws}
use libfaketime.TimeOps.{Time, time, Stored, sec_to_nsec, time_max, time_min}

unfoldable pub nanos : Time → ℤ
nanos t = t.sec *ℤ sec_to_nsec +ℤ t.sub

-- The second part lies in 0 ... 999999999.
abbrev pub IsNormal : Time → Type 0
IsNormal t = (pos 0 ≤ℤ t.sub) × (t.sub <ℤ pos sec_to_nsec)

abbrev pub FitsTime : Time → Type 0
FitsTime t = (time_min ≤ℤ t.sec) × (t.sec ≤ℤ time_max)

-- The greatest and the least number of nanoseconds that a `Time` can hold.
abbrev pub max_nanos : ℤ
max_nanos = pos (2 ^ 63 * 1000000000 - 1)

abbrev pub min_nanos : ℤ
min_nanos = negsuc (2 ^ 63 * 1000000000 - 1)

pub nanos_parts :
    (t : Time)
    → pos_part (nanos t) + neg_part t.sec * 1000000000 + neg_part t.sub
      ≡ neg_part (nanos t) + pos_part t.sec * 1000000000 + pos_part t.sub
unfolding nanos
nanos_parts t = omega int_laws

pub ruleset nanos_laws = (int_laws, nanos_parts)

-- `r` holds `z` nanoseconds, normalised, or the nearest value that a `Time` can hold, with
-- EOVERFLOW exactly in the second case.
pub record Saturates (z : ℤ) (r : Stored) : Type 0 where
  pub normal : IsNormal r.value
  pub fits : FitsTime r.value
  pub inside : min_nanos ≤ℤ z → z ≤ℤ max_nanos → (nanos r.value ≡ z) × (r.eoverflow ≡ false)
  pub above : max_nanos <ℤ z → (r.value ≡ time time_max (pos 999999999)) × (r.eoverflow ≡ true)
  pub below : z <ℤ min_nanos → (r.value ≡ time time_min (pos 0)) × (r.eoverflow ≡ true)
