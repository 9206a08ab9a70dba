-- ===== src/Conds.antt =====
-- Condition variables: pthread_cond_init, pthread_cond_destroy and pthread_cond_timedwait of
-- src/libfaketime.c. The hash table of src/uthash.h is an
-- interface; strtol belongs to the C library and is a parameter.
pub mod Laws
pub mod Deadline
use libfaketime.Base.{
  ℕ, suc, ◌-◌, ◌+◌, ◌^◌, Bool, true, false, not, ◌&&◌, ◌||◌, Option, none, some, List, [], ◌∷◌, ltb,
  ◌==◌, if◌then◌else◌, ◌≡◌,
}
use libfaketime.Base.Int.{ℤ, pos, negsuc, eqb_ℤ, ltb_ℤ, ◌/ℤ◌, ◌%ℤ◌, ◌*ℤ◌}
use libfaketime.Floats.{Floats}
use libfaketime.Outcome.{Outcome, ok, exits, ◌>>=◌}
use libfaketime.TimeOps.{Time, time, timespecadd, timespecsub}
use libfaketime.Process.{Process, ClockId, realtime, monotonic}
use libfaketime.World.{World}
use libfaketime.Seeded.{Converted, whole_text, wrap32}
use libfaketime.Settings.{parse_nonnegative_long_setting}
use libfaketime.Clock.{fake_clock_gettime}
use libfaketime.Wait.{slower}

-- What the functions need of the hash table of pointers: how often a pointer is in it.
pub record PointerTable : Type 1 where
  pub Table : Type 0
  pub count : ℕ → Table → ℕ
  pub add : ℕ → Table → Table
  pub delete : ℕ → Table → Table
  pub count-add :
      (k : ℕ) (t : Table) (l : ℕ)
      → count l (add k t) ≡ (if l == k then suc (count l t) else count l t)
  pub count-delete :
      (k : ℕ) (t : Table) (l : ℕ)
      → count l (delete k t) ≡ (if l == k then count l t - 1 else count l t)

-- EINVAL, ENOMEM
abbrev pub einval : ℤ
einval = pos 22

abbrev pub enomem : ℤ
enomem = pos 12

-- The answers to pthread_cond_init: the real function, pthread_condattr_getclock with the clock
-- (if `attr` is not NULL), malloc, and the two calls of the lock.
pub record InitAnswers : Type 0 where
  pub real : ℤ
  pub attr : Option (ℤ × ClockId)
  pub malloc : Bool
  pub lock : ℤ
  pub unlock : ℤ

-- The clock of a condition variable is monotonic.
abbrev pub is_monotonic_id : ClockId → Bool
is_monotonic_id monotonic = true
is_monotonic_id _ = false

module _ (P : PointerTable) where
  open P use {Table, count, add, delete}

  -- The registration of a monotonic condition variable: the result, whether the condition variable
  -- is alive, and the table.
  register : InitAnswers → ℕ → Table → ℤ × Bool × Table
  register a cond t =
      if not a.malloc
      then (enomem, false, t)
      else if not (eqb_ℤ a.lock (pos 0))
      then (a.lock, false, t)
      else if not (eqb_ℤ a.unlock (pos 0))
      then (a.unlock, false, delete cond (add cond t))
      else (pos 0, true, add cond t)

  -- From the test of `attr` on.
  use_attr : Option (ℤ × ClockId) → InitAnswers → ℕ → Table → ℤ × Bool × Table
  unfolding register
  use_attr none a cond t = (pos 0, true, t)
  use_attr (some (r, clock)) a cond t =
      if not (eqb_ℤ r (pos 0))
      then (r, true, t)
      else if is_monotonic_id clock
      then register a cond t
      else (pos 0, true, t)

  -- pthread_cond_init_232
  pub cond_init : InitAnswers → ℕ → Table → ℤ × Bool × Table
  unfolding use_attr
  cond_init a cond t =
      if not (eqb_ℤ a.real (pos 0)) then (a.real, false, t) else use_attr a.attr a cond t

  -- pthread_cond_destroy_232, for the results of the real function and of the lock
  pub cond_destroy : ℤ → ℤ → ℤ → ℕ → Table → ℤ × Table
  cond_destroy real lock unlock cond t =
      if not (eqb_ℤ real (pos 0))
      then (real, t)
      else if not (eqb_ℤ lock (pos 0))
      then (lock, t)
      else (unlock, if ltb 0 (count cond t) then delete cond t else t)

  -- The clock that pthread_cond_timedwait_common finds for a condition variable.
  pub cond_clock : ℕ → Table → ClockId
  cond_clock cond t = if ltb 0 (count cond t) then monotonic else realtime

-- needs_forced_monotonic_fix, on Linux: whatever the version of glibc is, the fix is on unless the
-- variable begins with 0.
pub needs_forced_monotonic_fix : Option (List ℕ) → Bool
needs_forced_monotonic_fix none = true
needs_forced_monotonic_fix (some []) = true
needs_forced_monotonic_fix (some (c ∷ cs)) = not (c == b'0')

-- The function returns at once, or the real function waits up to a deadline (`none` for NULL).
pub data Wait : Type 0 where
  returns : ℤ → Wait
  waits : Option Time → Wait

-- What the real clock_gettime stores in its up to four calls, and the results of the lock.
pub record WaitAnswers : Type 0 where
  pub lock : ℤ
  pub unlock : ℤ
  pub now : Option Time
  pub now_again : Option Time
  pub monotonic_now : Option Time
  pub monotonic_again : Option Time

module _ (F : Floats) (w : World F) (strtol : List ℕ → Converted ℤ) where
  -- The milliseconds of FAKETIME_WAIT_MS, as the int wait_ms.
  wait_ms_time : ℤ → Time
  wait_ms_time n = let ms = wrap32 n in time (ms /ℤ 1000) (ms %ℤ 1000 *ℤ 1000000)

  -- tdiff_actual without FAKETIME_WAIT_MS: from the faked or the monotonic time to `abstime`.
  pub time_left : Process F → Time → Time → Time
  time_left p abstime now =
      let d = timespecsub abstime now in if p.user.rate_set then slower F p d else d

  -- The deadline for the real function; `now` is realtime, `fake` is faketime.
  pub wait_deadline : Process F → ClockId → Time → Time → Option Time → Time → Wait
  wait_deadline p monotonic now fake again left =
      if not p.fake_monotonic_clock
      then elim again [ none ↦ returns (negsuc 0) | some m ↦ waits (some (timespecadd m left)) ]
      else if needs_forced_monotonic_fix (w.getenv "FAKETIME_FORCE_MONOTONIC_FIX")
      then waits (some (timespecadd now left))
      else waits (some (timespecadd fake left))
  wait_deadline p clk now fake again left = waits (some (timespecadd now left))

  -- With FAKETIME_WAIT_MS.
  wait_ms : WaitAnswers → Process F → ClockId → Time → List ℕ → Outcome Wait
  unfolding wait_ms_time wait_deadline
  wait_ms a p clk fake text = do
    n ← parse_nonnegative_long_setting strtol text
    elim a.now_again [
      | none ↦ ok (returns einval)
      | some again ↦ ok (wait_deadline p clk again fake a.monotonic_again (wait_ms_time n))
    ]

  -- Without it.
  pub wait_until : WaitAnswers → Process F → ClockId → Time → Time → Time → Wait
  unfolding time_left wait_deadline
  wait_until a p monotonic now fake abstime =
      if not p.fake_monotonic_clock
      then elim a.monotonic_now [
        | none ↦ returns (negsuc 0)
        | some m ↦ wait_deadline p monotonic now fake a.monotonic_again (time_left p abstime m)
      ]
      else wait_deadline p monotonic now fake a.monotonic_again (time_left p abstime fake)
  wait_until a p clk now fake abstime =
      wait_deadline p clk now fake a.monotonic_again (time_left p abstime fake)

  choose_wait :
      WaitAnswers → ClockId → Time → Time → ℤ × Time × Process F → Outcome (Wait × Process F)
  unfolding wait_ms wait_until
  choose_wait a clk now abstime (r, fake, p) = elim (w.getenv "FAKETIME_WAIT_MS") [
    | some text ↦ (wait_ms a p clk fake text >>= λ x. ok (x, p))
    | none ↦ ok (wait_until a p clk now fake abstime, p)
  ]

  -- pthread_cond_timedwait_common, up to the call of the real function
  pub timedwait : WaitAnswers → ClockId → Option Time → Process F → Outcome (Wait × Process F)
  unfolding choose_wait
  timedwait a clk none p = ok (waits none, p)
  timedwait a clk (some abstime) p =
      if not (eqb_ℤ a.lock (pos 0))
      then ok (returns a.lock, p)
      else if not (eqb_ℤ a.unlock (pos 0))
      then ok (returns a.unlock, p)
      else elim a.now [
        | none ↦ ok (returns einval, p)
        | some now ↦ (fake_clock_gettime F w clk now p >>= choose_wait a clk now abstime)
      ]

-- enum ft_lib_compat_pthread
pub data Compat : Type 0 where
  glibc_225 glibc_232 : Compat

-- The end of pthread_cond_timedwait_common: the result, for the two versions of the real function.
pub timedwait_result : Compat → (Option Time → ℤ) → (Option Time → ℤ) → Wait → ℤ
timedwait_result compat real_225 real_232 (returns r) = r
timedwait_result glibc_225 real_225 real_232 (waits t) = real_225 t
timedwait_result glibc_232 real_225 real_232 (waits t) = real_232 t
