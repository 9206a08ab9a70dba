-- ===== src/TimeOps.antt =====
-- The macros of src/time_ops.h. `Time` stands for struct timespec and for struct timeval: the
-- macros take the field's prefix, and with it the number of units in a second, as an argument. The
-- fields are 64-bit; the macros compute in 128 bits (FT_WIDE_INT), so their sums are those of ℤ.
pub mod Total
pub mod Laws
pub mod Scale
use libfaketime.Base.{ℕ, ◌-◌, ◌^◌, Bool, true, false, not, ◌||◌, if◌then◌else◌}
use libfaketime.Base.Int.{ℤ, pos, negsuc, ◌+ℤ◌, ◌-ℤ◌, ltb_ℤ, leb_ℤ, eqb_ℤ}

pub record Time : Type 0 where
  pub sec : ℤ
  pub sub : ℤ

abbrev pub time : ℤ → ℤ → Time
time s n = record { sec = s; sub = n }

-- SEC_TO_uSEC and SEC_TO_nSEC.
abbrev pub sec_to_usec : ℕ
sec_to_usec = 1000000

abbrev pub sec_to_nsec : ℕ
sec_to_nsec = 1000000000

-- FT_TIME_MAX and FT_TIME_MIN of a signed 64-bit field.
abbrev pub time_max : ℤ
time_max = pos (2 ^ 63 - 1)

abbrev pub time_min : ℤ
time_min = negsuc (2 ^ 63 - 1)

-- The value that a macro stores, and whether it set errno to EOVERFLOW.
pub record Stored : Type 0 where
  pub value : Time
  pub eoverflow : Bool

abbrev pub is_set : Time → Bool
is_set t = not (eqb_ℤ t.sec (pos 0)) || not (eqb_ℤ t.sub (pos 0))

-- timerclear2
pub clear : Time
clear = time (pos 0) (pos 0)

-- timercmp2, whose last argument is the comparison operator.
pub cmp : (ℤ → ℤ → Bool) → Time → Time → Bool
cmp op a b = if eqb_ℤ a.sec b.sec then op a.sub b.sub else op a.sec b.sec

unfoldable pub store_add : ℕ → ℤ → ℤ → Stored
store_add unit s n =
    if ltb_ℤ time_max s
    then record { value = time time_max (pos (unit - 1)); eoverflow = true }
    else if ltb_ℤ s time_min
    then record { value = time time_min (pos 0); eoverflow = true }
    else record { value = time s n; eoverflow = false }

-- timeradd2
unfoldable pub add : ℕ → Time → Time → Stored
add unit a b =
    let s = a.sec +ℤ b.sec in
    let n = a.sub +ℤ b.sub in
    if leb_ℤ (pos unit) n
    then store_add unit (s +ℤ pos 1) (n -ℤ pos unit)
    else if ltb_ℤ n (pos 0)
    then store_add unit (s -ℤ pos 1) (n +ℤ pos unit)
    else store_add unit s n

store_sub : ℕ → ℤ → ℤ → Stored
store_sub unit s n =
    if ltb_ℤ time_max s || ltb_ℤ s time_min
    then record {
      value =
          time (if ltb_ℤ (pos 0) s then time_max else time_min)
            (if ltb_ℤ (pos 0) s then pos (unit - 1) else pos 0);
      eoverflow = true;
    }
    else record { value = time s n; eoverflow = false }

-- timersub2
pub subtract : ℕ → Time → Time → Stored
subtract unit a b =
    let s = a.sec -ℤ b.sec in
    let n = a.sub -ℤ b.sub in
    if ltb_ℤ n (pos 0)
    then store_sub unit (s -ℤ pos 1) (n +ℤ pos unit)
    else if leb_ℤ (pos unit) n
    then store_sub unit (s +ℤ pos 1) (n -ℤ pos unit)
    else store_sub unit s n

-- timespecadd and timespecsub, by the value that they store.
unfoldable pub timespecadd : Time → Time → Time
timespecadd a b = (add sec_to_nsec a b).value

unfoldable pub timespecsub : Time → Time → Time
timespecsub a b = (subtract sec_to_nsec a b).value
