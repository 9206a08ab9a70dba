-- ===== src/Clock/Steps/Window.antt =====
-- The limits within which the clock is faked, the age of the request, and the external command.
use libfaketime.Base.{refl, if◌then◌else◌, false, true, ◌≡◌, ◌↔◌, ◌⊎◌, arith}
use libfaketime.Base.Int.{+ℤ_parts, ℤ, pos, negsuc, ◌+ℤ◌, ◌≤ℤ◌, ◌<ℤ◌, -ℤ_parts}
use libfaketime.TimeOps.{Time}
use libfaketime.Process.{Limits, Spawn, Cache}
use libfaketime.Clock.Steps.{count_call, outside_limits, expire, spawn_step}

-- The bounds, where they are set, as the manual states them.
pub record InWindow (l : Limits) (elapsed : ℤ) : Type 0 where
  pub started : (l.start_after_secs ≡ negsuc 0) ⊎ (l.start_after_secs ≤ℤ elapsed)
  pub running : (l.stop_after_secs ≡ negsuc 0) ⊎ (elapsed <ℤ l.stop_after_secs)
  pub started_calls : (l.start_after_ncalls ≡ negsuc 0) ⊎ (l.start_after_ncalls ≤ℤ l.callcounter)
  pub running_calls : (l.stop_after_ncalls ≡ negsuc 0) ⊎ (l.callcounter <ℤ l.stop_after_ncalls)

-- The limits are open exactly where each bound that is set (that is not -1) holds: the seconds
-- since the start are at least start_after_secs and below stop_after_secs, and the counted calls
-- are at least start_after_ncalls and below stop_after_ncalls.
pub outside_limits-InWindow :
    (l : Limits) (elapsed : ℤ) → (outside_limits l elapsed ≡ false) ↔ InWindow l elapsed
unfolding outside_limits
outside_limits-InWindow l elapsed = (
  λ h. record {
    started = ground arith;
    running = ground arith;
    started_calls = ground arith;
    running_calls = ground arith;
  },
  λ v. ground (arith, v.started, v.running, v.started_calls, v.running_calls),
)

-- The request is taken from the cache exactly while the cache is enabled, no expiration is forced
-- and the last reading is at most the cache's duration old (before the first reading, if the
-- cache was not expired before).
pub expire_iff :
    (c : Cache) (now : Time)
    → ((expire c now).expired ≡ false) ↔ (
        (c.enabled ≡ true)
        × (c.force_expiration ≡ false)
        × ((pos 1 ≤ℤ c.last_data_fetch) × (now.sec ≤ℤ c.last_data_fetch +ℤ c.duration)
            ⊎ (c.last_data_fetch ≤ℤ pos 0) × (c.expired ≡ false)))
unfolding expire
expire_iff c now = (
  λ h. (
    ground arith,
    ground arith,
    ground (arith, -ℤ_parts now.sec c.last_data_fetch, +ℤ_parts c.last_data_fetch c.duration),
  ),
  λ h. ground (arith, -ℤ_parts now.sec c.last_data_fetch, +ℤ_parts c.last_data_fetch c.duration),
)

-- The function that runs the command has been called once if `spawned` is set, and not at all
-- otherwise.
abbrev pub RunOnce : Spawn → Type 0
RunOnce s = s.spawn_calls ≡ (if s.spawned then 1 else 0)

-- If the function that runs the external command has been called once where `spawned` is set and
-- not at all otherwise, so it has after one more call, whatever the time and the count of calls.
pub spawn_step-RunOnce :
    (s : Spawn) (callcounter elapsed : ℤ) → RunOnce s → RunOnce (spawn_step s callcounter elapsed)
unfolding spawn_step
spawn_step-RunOnce s callcounter elapsed h = ground arith

pub count_call-limited_faking :
    (l : Limits) (s : Spawn) → (count_call l s).limited_faking ≡ l.limited_faking
unfolding count_call
count_call-limited_faking l s = ground arith

pub spawn_step_off :
    (s : Spawn) (callcounter elapsed : ℤ) → s.support ≡ false → spawn_step s callcounter elapsed ≡ s
unfolding spawn_step
spawn_step_off s callcounter elapsed h = rw h refl
