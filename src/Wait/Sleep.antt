-- ===== src/Wait/Sleep.antt =====
-- usleep, sleep and alarm of src/libfaketime.c. A real function that was not found is `none`.
use libfaketime.Base.{ℕ, ◌-◌, ◌^◌, Option, none, some, if◌then◌else◌}
use libfaketime.Base.Int.{ℤ, pos, negsuc, eqb_ℤ}
use libfaketime.Floats.{Floats}
use libfaketime.TimeOps.{Time, time, is_set}
use libfaketime.Process.{Process}
use libfaketime.Wait.{rated, slower, faster, usleep_interval}

module _ (F : Floats) where
  open F use {inverse, times, double_of_ℤ, trunc_double}

  -- (1.0 / user_rate) * n and user_rate * n, as integers
  pub real_count : Process F → ℤ → ℤ
  real_count p n = trunc_double (times (inverse p.user.rate) (double_of_ℤ n))

  pub fake_count : Process F → ℤ → ℤ
  fake_count p n = trunc_double (times p.user.rate (double_of_ℤ n))

  -- usleep, for the real nanosleep and usleep; `none` is a call of a function that is missing.
  pub usleep : Process F → Option (Time → ℤ) → Option (ℤ → ℤ) → ℕ → Option ℤ
  unfolding real_count
  usleep p (some real) real_usleep usec =
      if rated F p
      then some (real (usleep_interval F p usec))
      else elim real_usleep [ none ↦ none | some f ↦ some (f (pos usec)) ]
  usleep p none none usec = if rated F p then some (negsuc 0) else none
  usleep p none (some f) usec = some (f (if rated F p then real_count p (pos usec) else pos usec))

  -- The end of sleep behind the call of nanosleep: its result, and what is in `rem` then.
  slept : Process F → ℤ × Time → ℤ
  slept p (r, rem) =
      if eqb_ℤ r (negsuc 0) then pos 0 else if is_set rem then (faster F p rem).sec else rem.sec

  -- sleep, for the real nanosleep and sleep. nanosleep is given what is in the uninitialised `rem`,
  -- and returns what is in it then.
  pub sleep : Process F → Option (Time → Time → ℤ × Time) → Option (ℤ → ℤ) → Time → ℕ → Option ℤ
  unfolding real_count fake_count slept
  sleep p (some real) real_sleep rem seconds =
      if rated F p
      then some (slept p (real (slower F p (time (pos seconds) (pos 0))) rem))
      else elim real_sleep [ none ↦ none | some f ↦ some (f (pos seconds)) ]
  sleep p none none rem seconds = if rated F p then some (pos 0) else none
  sleep p none (some f) rem seconds =
      some (if rated F p then fake_count p (f (real_count p (pos seconds))) else f (pos seconds))

  -- alarm, in the state `p` before the library is initialised, and `q` behind that
  pub alarm : Process F → Process F → Option (ℤ → ℤ) → ℕ → ℤ
  unfolding real_count fake_count
  alarm p q none seconds = pos (2 ^ 32 - 1)
  alarm p q (some f) seconds =
      let ret = f (if rated F p then real_count p (pos seconds) else pos seconds) in
      if rated F q then fake_count q ret else ret
