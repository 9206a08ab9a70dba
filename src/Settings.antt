-- ===== src/Settings.antt =====
-- Numeric settings in the environment: parse_long_setting and parse_nonnegative_long_setting of
-- src/libfaketime.c. strtol belongs to the C library and is a parameter.
use libfaketime.Base.{List, ℕ, Option, none, some, if◌then◌else◌}
use libfaketime.Base.Int.{ℤ, pos, ltb_ℤ}
use libfaketime.Outcome.{Outcome, ok, exits, ◌>>=◌}
use libfaketime.Seeded.{Converted, whole_text}

-- parse_long_setting
pub parse_long_setting : (List ℕ → Converted ℤ) → List ℕ → Outcome ℤ
parse_long_setting strtol value =
    if whole_text (strtol value) then ok (strtol value).value else exits 1

pub parse_nonnegative_long_setting : (List ℕ → Converted ℤ) → List ℕ → Outcome ℤ
unfolding parse_long_setting
parse_nonnegative_long_setting strtol value = do
  n ← parse_long_setting strtol value
  if ltb_ℤ n (pos 0) then exits 1 else ok n

-- A setting that keeps its value where the variable is not set.
pub long_or : (List ℕ → Converted ℤ) → ℤ → Option (List ℕ) → Outcome ℤ
unfolding parse_long_setting
long_or strtol old none = ok old
long_or strtol old (some value) = parse_long_setting strtol value
