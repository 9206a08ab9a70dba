-- ===== src/FileTimes/Family.antt =====
-- The functions of the stat family in src/libfaketime.c, each with its real function, and
-- ft_real_stat and ft_real_fstat, which the library itself calls.
use libfaketime.Base.{Bool, Option, none, some, List, ℕ}
use libfaketime.Floats.{Floats}
use libfaketime.Outcome.{Outcome}
use libfaketime.Process.{Process}
use libfaketime.World.{World}
use libfaketime.FileTimes.{Stat, stat_handler}
use libfaketime.Startup.Symbols.{
  Linker, Real, real_function, real_stat, real_lstat, real_fstat, real_xstat, real_fxstat,
  real_fxstatat, real_lxstat, real_stat64, real_lstat64, real_fstat64, real_fstatat, real_fstatat64,
  real_xstat64, real_fxstat64, real_fxstatat64, real_lxstat64,
}

-- The functions that hand their buffer to STAT_HANDLER or STAT64_HANDLER.
pub data StatFunction : Type 0 where
  stat fstat lstat xstat fxstat fxstatat lxstat : StatFunction
  stat64 lstat64 fstat64 fstatat fstatat64 : StatFunction
  xstat64 fxstat64 fxstatat64 lxstat64 : StatFunction

-- The first argument of the macro.
pub real_of : StatFunction → Real
real_of stat = real_stat
real_of fstat = real_fstat
real_of lstat = real_lstat
real_of xstat = real_xstat
real_of fxstat = real_fxstat
real_of fxstatat = real_fxstatat
real_of lxstat = real_lxstat
real_of stat64 = real_stat64
real_of lstat64 = real_lstat64
real_of fstat64 = real_fstat64
real_of fstatat = real_fstatat
real_of fstatat64 = real_fstatat64
real_of xstat64 = real_xstat64
real_of fxstat64 = real_fxstat64
real_of fxstatat64 = real_fxstatat64
real_of lxstat64 = real_lxstat64

module _ {ℓ} {A : Type ℓ} (linker : Linker A) (ignore_list : Option (List ℕ)) where
  -- The real function that is called; `none` is the failure with ENOSYS.
  pub ft_real_stat : Option A
  ft_real_stat = elim (real_function linker ignore_list real_stat) [
    | some f ↦ some f
    | none ↦ real_function linker ignore_list real_xstat
  ]

  pub ft_real_fstat : Option A
  ft_real_fstat = elim (real_function linker ignore_list real_fstat) [
    | some f ↦ some f
    | none ↦ real_function linker ignore_list real_fxstat
  ]

  -- A call; `answer` is what a real function stores, `none` for its failure.
  pub stat_call :
      (F : Floats)
      → World F
      → StatFunction
      → Bool
      → (A → Option Stat)
      → Process F
      → Outcome (Option Stat × Process F)
  unfolding real_of
  stat_call F w f disabled answer p =
      stat_handler F w disabled
        (elim (real_function linker ignore_list (real_of f)) [ none ↦ none | some g ↦ answer g ]) p
