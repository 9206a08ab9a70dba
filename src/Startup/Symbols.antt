-- ===== src/Startup/Symbols.antt =====
-- The search for the real functions at the start of ftpl_really_init, with ft_dlvsym, of
-- src/libfaketime.c, on x86-64 with every feature compiled in. dlsym and dlvsym are parameters.
use Prim.Native.String.{String}
use libfaketime.Base.{
  Bool, false, Option, none, some, List, [], ◌∷◌, ◌++◌, ℕ, if◌then◌else◌, ◌≡◌, ap, ◌∙◌, refl,
  Bool-cases, inl, inr,
}
use libfaketime.Base.Text.{codes}
use libfaketime.Config.SymbolList.{str_array_contains}

-- A symbol, and its version where it is asked for with dlvsym.
pub record Symbol : Type 0 where
  pub name : List ℕ
  pub version : Option (List ℕ)

abbrev plain : String → Symbol
plain name = record { name = codes name; version = none }

abbrev versioned : String → String → Symbol
versioned name version = record { name = codes name; version = some (codes version) }

-- symbol, or symbol "@" version
abbrev pub full_name : Symbol → List ℕ
full_name s = elim s.version [ none ↦ s.name | some v ↦ s.name ++ b'@' ∷ v ]

-- The variables that hold the real functions; real___ftime and its like are real_internal_ftime.
pub data Real : Type 0 where
  real_stat real_lstat real_fstat real_xstat real_fxstat real_fxstatat real_lxstat : Real
  real_stat64 real_lstat64 real_fstat64 real_fstatat real_fstatat64 real_xstat64 : Real
  real_fxstat64 real_fxstatat64 real_lxstat64 real_statx real_time real_ftime : Real
  real_timespec_get real_utimes real_utime real_utimensat real_futimens real_gettimeofday : Real
  real_nanosleep real_clock_nanosleep real_usleep real_sleep real_alarm real_poll : Real
  real_ppoll real_epoll_wait real_epoll_pwait real_select real_pselect real_sem_timedwait : Real
  real_sem_clockwait real_internal_ftime real_internal_gettimeofday : Real
  real_internal_clock_gettime real_getrandom real_getentropy real_getpid real_syscall : Real
  real_timerfd_create real_timerfd_gettime real_timerfd_settime : Real
  real_pthread_cond_timedwait_225 real_pthread_cond_timedwait_232 : Real
  real_pthread_cond_init_232 real_pthread_cond_destroy_232 real_clock_gettime : Real
  real_clock_gettime64 real_timer_settime_22 real_timer_settime_233 real_timer_gettime_22 : Real
  real_timer_gettime_233 : Real

-- The symbols that are looked up for a variable, one after another until one is found.
pub symbols : Real → List Symbol
symbols real_stat = plain "stat" ∷ []
symbols real_lstat = plain "lstat" ∷ []
symbols real_fstat = plain "fstat" ∷ []
symbols real_xstat = plain "__xstat" ∷ []
symbols real_fxstat = plain "__fxstat" ∷ []
symbols real_fxstatat = plain "__fxstatat" ∷ []
symbols real_lxstat = plain "__lxstat" ∷ []
symbols real_stat64 = plain "stat64" ∷ []
symbols real_lstat64 = plain "lstat64" ∷ []
symbols real_fstat64 = plain "fstat64" ∷ []
symbols real_fstatat = plain "fstatat" ∷ []
symbols real_fstatat64 = plain "fstatat64" ∷ []
symbols real_xstat64 = plain "__xstat64" ∷ []
symbols real_fxstat64 = plain "__fxstat64" ∷ []
symbols real_fxstatat64 = plain "__fxstatat64" ∷ []
symbols real_lxstat64 = plain "__lxstat64" ∷ []
symbols real_statx = plain "statx" ∷ []
symbols real_time = plain "time" ∷ []
symbols real_ftime = plain "ftime" ∷ []
symbols real_timespec_get = plain "timespec_get" ∷ []
symbols real_utimes = plain "utimes" ∷ []
symbols real_utime = plain "utime" ∷ []
symbols real_utimensat = plain "utimensat" ∷ []
symbols real_futimens = plain "futimens" ∷ []
symbols real_gettimeofday = plain "gettimeofday" ∷ []
symbols real_nanosleep = plain "nanosleep" ∷ []
symbols real_clock_nanosleep = plain "clock_nanosleep" ∷ []
symbols real_usleep = plain "usleep" ∷ []
symbols real_sleep = plain "sleep" ∷ []
symbols real_alarm = plain "alarm" ∷ []
symbols real_poll = plain "poll" ∷ []
symbols real_ppoll = plain "ppoll" ∷ []
symbols real_epoll_wait = plain "epoll_wait" ∷ []
symbols real_epoll_pwait = plain "epoll_pwait" ∷ []
symbols real_select = plain "select" ∷ []
symbols real_pselect = plain "pselect" ∷ []
symbols real_sem_timedwait = plain "sem_timedwait" ∷ []
symbols real_sem_clockwait = plain "sem_clockwait" ∷ []
symbols real_internal_ftime = plain "__ftime" ∷ []
symbols real_internal_gettimeofday = plain "__gettimeofday" ∷ []
symbols real_internal_clock_gettime = plain "__clock_gettime" ∷ []
symbols real_getrandom = plain "getrandom" ∷ []
symbols real_getentropy = plain "getentropy" ∷ []
symbols real_getpid = plain "getpid" ∷ []
symbols real_syscall = plain "syscall" ∷ []
symbols real_timerfd_create = plain "timerfd_create" ∷ []
symbols real_timerfd_gettime = plain "timerfd_gettime" ∷ []
symbols real_timerfd_settime = plain "timerfd_settime" ∷ []
symbols real_pthread_cond_timedwait_225 = versioned "pthread_cond_timedwait" "GLIBC_2.2.5" ∷ []
symbols real_pthread_cond_timedwait_232 =
    versioned "pthread_cond_timedwait" "GLIBC_2.3.2" ∷ plain "pthread_cond_timedwait" ∷ []
symbols real_pthread_cond_init_232 =
    versioned "pthread_cond_init" "GLIBC_2.3.2" ∷ plain "pthread_cond_init" ∷ []
symbols real_pthread_cond_destroy_232 =
    versioned "pthread_cond_destroy" "GLIBC_2.3.2" ∷ plain "pthread_cond_destroy" ∷ []
symbols real_clock_gettime = plain "__clock_gettime" ∷ plain "clock_gettime" ∷ []
symbols real_clock_gettime64 = plain "clock_gettime64" ∷ plain "__clock_gettime64" ∷ []
symbols real_timer_settime_22 = versioned "timer_settime" "GLIBC_2.2" ∷ []
symbols real_timer_settime_233 =
    versioned "timer_settime" "GLIBC_2.3.3" ∷ plain "timer_settime" ∷ []
symbols real_timer_gettime_22 = versioned "timer_gettime" "GLIBC_2.2" ∷ []
symbols real_timer_gettime_233 =
    versioned "timer_gettime" "GLIBC_2.3.3" ∷ plain "timer_gettime" ∷ []

-- The linker: what dlsym and dlvsym find behind RTLD_NEXT.
pub record Linker {ℓ} (A : Type ℓ) : Type ℓ where
  pub dlsym : List ℕ → Option A
  pub dlvsym : List ℕ → List ℕ → Option A

abbrev pub found {ℓ} : {A : Type ℓ} → Linker A → Symbol → Option A
found linker s = elim s.version [ none ↦ linker.dlsym s.name | some v ↦ linker.dlvsym s.name v ]

abbrev or_later {ℓ} : {A : Type ℓ} → Option A → Option A → Option A
or_later none later = later
or_later (some a) later = some a

module _ {ℓ} {A : Type ℓ} (linker : Linker A) (ignore_list : Option (List ℕ)) where
  -- FAKETIME_IGNORE_SYMBOLS
  abbrev pub is_ignored : Symbol → Bool
  is_ignored s = elim ignore_list [
    | none ↦ false
    | some list ↦ str_array_contains list (full_name s)
  ]

  pub ft_dlvsym : Symbol → Option A
  ft_dlvsym s = if is_ignored s then none else found linker s

  first_found : List Symbol → Option A
  unfolding ft_dlvsym
  first_found [] = none
  first_found (s ∷ rest) = or_later (ft_dlvsym s) (first_found rest)

  -- The value of a variable; `none` for NULL.
  pub real_function : Real → Option A
  unfolding first_found symbols
  real_function r = first_found (symbols r)

module _ {ℓ} {A : Type ℓ} (l l' : Linker A) (list : List ℕ) where
  ft_dlvsym-agrees :
      (s : Symbol)
      → (str_array_contains list (full_name s) ≡ false → found l s ≡ found l' s)
      → ft_dlvsym l (some list) s ≡ ft_dlvsym l' (some list) s
  unfolding ft_dlvsym
  ft_dlvsym-agrees s h = elim (Bool-cases (str_array_contains list (full_name s))) [
    | inl ignored ↦ rw ignored refl
    | inr asked ↦ rw (asked, h asked) refl
  ]

  first_found-agrees :
      (ss : List Symbol)
      → ((s : Symbol) → str_array_contains list (full_name s) ≡ false → found l s ≡ found l' s)
      → first_found l (some list) ss ≡ first_found l' (some list) ss
  unfolding first_found
  first_found-agrees [] h = refl
  first_found-agrees (s ∷ rest) h =
      ap (λ a. or_later a (first_found l (some list) rest)) (ft_dlvsym-agrees s (h s))
      ∙ ap (λ b. or_later (ft_dlvsym l' (some list) s) b) (first_found-agrees rest h)

  -- With a list in FAKETIME_IGNORE_SYMBOLS, what dlsym and dlvsym would find for a symbol that the
  -- list names, by its full name, has no influence: two linkers that agree on all other symbols
  -- give every real function the same value.
  pub real_function_ignores :
      ((s : Symbol) → str_array_contains list (full_name s) ≡ false → found l s ≡ found l' s)
      → (r : Real) → real_function l (some list) r ≡ real_function l' (some list) r
  unfolding real_function
  real_function_ignores h r = first_found-agrees (symbols r) h
