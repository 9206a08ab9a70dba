-- ===== src/Startup/Flags.antt =====
-- The settings of ftpl_really_init that stand alone: the stat, utime and cache flags, the
-- commands, and the limits, of src/libfaketime.c.
use libfaketime.Base.{
  Bool, true, false, not, ◌&&◌, ◌||◌, Option, none, some, List, [], ◌∷◌, ℕ, ◌==◌, ◌^◌, ◌-◌,
  if◌then◌else◌,
}
use libfaketime.Base.Int.{ℤ, pos, negsuc, eqb_ℤ, leb_ℤ}
use libfaketime.Base.Text.{codes, same_text}
use libfaketime.Floats.{Floats}
use libfaketime.Outcome.{Outcome, ok, exits, ◌>>=◌}
use libfaketime.Process.{Cache, Limits}
use libfaketime.World.{World}
use libfaketime.Wait.{int_max}
use libfaketime.Seeded.{Converted}
use libfaketime.Settings.{parse_long_setting, long_or}
use libfaketime.Startup.Commands.{names_command}

abbrev pub is_some {ℓ} : {A : Type ℓ} → Option A → Bool
is_some none = false
is_some (some a) = true

-- INT_MIN
abbrev int_min : ℤ
int_min = negsuc (2 ^ 31 - 1)

module _ (strtol : List ℕ → Converted ℤ) where
  -- fake_utime_disabled, from FAKE_UTIME; 1 by default, where the variable is not set
  pub utime_disabled : Option (List ℕ) → Outcome Bool
  utime_disabled none = ok true
  utime_disabled (some []) = ok false
  utime_disabled (some (c ∷ cs)) =
      if (c == b'y' || c == b'Y') || (c == b't' || c == b'T')
      then ok false
      else (parse_long_setting strtol (c ∷ cs) >>= λ n. ok (eqb_ℤ n (pos 0)))

  -- cache_duration, from FAKETIME_CACHE_DURATION
  duration : Option (List ℕ) → ℤ → Outcome ℤ
  duration none old = ok old
  duration (some value) old = do
    n ← parse_long_setting strtol value
    if leb_ℤ int_min n && leb_ℤ n int_max then ok n else exits 1

  -- cache_enabled, from FAKETIME_NO_CACHE
  enabled : Option (List ℕ) → Bool → Bool
  enabled none old = old
  enabled (some value) old = if same_text value (codes "1") then false else old

module _ (F : Floats) (w : World F) (strtol : List ℕ → Converted ℤ) where
  pub cache_settings : Cache → Outcome Cache
  unfolding duration enabled
  cache_settings c = do
    d ← duration strtol (w.getenv "FAKETIME_CACHE_DURATION") c.duration
    ok (record c {
      duration = d;
      enabled = enabled strtol (w.getenv "FAKETIME_NO_CACHE") c.enabled;
    })

  -- Whether faking is off for the command: FAKETIME_SKIP_CMDS and FAKETIME_ONLY_CMDS.
  unfoldable pub command_skipped : List ℕ → Outcome Bool
  command_skipped progname = elim (w.getenv "FAKETIME_ONLY_CMDS") [
    | none ↦ elim (w.getenv "FAKETIME_SKIP_CMDS") [
      | none ↦ ok false
      | some list ↦ ok (names_command progname list)
    ]
    | some only ↦ elim (w.getenv "FAKETIME_SKIP_CMDS") [
      | none ↦ ok (not (names_command progname only))
      | some list ↦ exits 1
    ]
  ]

  -- The limits of faking.
  pub limit_settings : Limits → Outcome Limits
  limit_settings l = do
    start_secs ← long_or strtol l.start_after_secs (w.getenv "FAKETIME_START_AFTER_SECONDS")
    stop_secs ← long_or strtol l.stop_after_secs (w.getenv "FAKETIME_STOP_AFTER_SECONDS")
    start_calls ← long_or strtol l.start_after_ncalls (w.getenv "FAKETIME_START_AFTER_NUMCALLS")
    stop_calls ← long_or strtol l.stop_after_ncalls (w.getenv "FAKETIME_STOP_AFTER_NUMCALLS")
    ok (record l {
      limited_faking =
          l.limited_faking
          || ((is_some (w.getenv "FAKETIME_START_AFTER_SECONDS")
                || is_some (w.getenv "FAKETIME_STOP_AFTER_SECONDS"))
              || (is_some (w.getenv "FAKETIME_START_AFTER_NUMCALLS")
                  || is_some (w.getenv "FAKETIME_STOP_AFTER_NUMCALLS")));
      start_after_secs = start_secs;
      stop_after_secs = stop_secs;
      start_after_ncalls = start_calls;
      stop_after_ncalls = stop_calls;
    })
