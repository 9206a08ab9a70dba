-- ===== src/FileTimes.antt =====
-- File timestamps: fake_statbuf, fake_statxbuf and the handlers of the stat family, utime, utimes,
-- utimensat and futimens of src/libfaketime.c. `statbuf` stands for struct stat and struct stat64.
-- Where a file is replayed or written, the semaphore is taken again within lock_for_stat; the
-- answers of the semaphore are then those of calls that returned.
pub mod Laws
pub mod RoundTrip
pub mod Family
use libfaketime.Base.{
  ℕ, ◌-◌, ◌^◌, Bool, true, false, not, ◌&&◌, ◌||◌, Option, none, some, List, if◌then◌else◌,
}
use libfaketime.Base.Int.{ℤ, pos, negsuc, ◌-ℤ◌, ◌/ℤ◌, eqb_ℤ}
use libfaketime.Floats.{Floats}
use libfaketime.Outcome.{Outcome, ok, exits, ◌>>=◌}
use libfaketime.TimeOps.{Time, time, subtract, sec_to_usec, timespecsub}
use libfaketime.Shared.{Shared}
use libfaketime.Process.{Process, User, SemEvent, ClockId, realtime}
use libfaketime.World.{World}
use libfaketime.Replay.{acquire, once}
use libfaketime.Clock.{fake_clock_gettime}

-- st_ctim, st_atim and st_mtim
pub record Stat : Type 0 where
  pub ctime : Time
  pub atime : Time
  pub mtime : Time

-- struct statx: for each timestamp, its bit in stx_mask and its value
pub record Statx : Type 0 where
  pub has_atime : Bool
  pub has_ctime : Bool
  pub has_mtime : Bool
  pub has_btime : Bool
  pub atime : Time
  pub ctime : Time
  pub mtime : Time
  pub btime : Time

-- UTIME_NOW and UTIME_OMIT of Linux
abbrev pub utime_now : ℤ
utime_now = pos (2 ^ 30 - 1)

abbrev pub utime_omit : ℤ
utime_omit = pos (2 ^ 30 - 2)

-- The shared data's semaphore, where there is one: `if (shared_sem_initialized)`.
take_semaphore : Option Shared → List SemEvent → Outcome (List SemEvent)
take_semaphore none events = ok events
take_semaphore (some s) events = acquire events

give_semaphore : Option Shared → List SemEvent → Outcome (List SemEvent)
give_semaphore none events = ok events
give_semaphore (some s) events = once events

module _ (F : Floats) where
  abbrev pub set_ticking : Bool → Process F → Process F
  set_ticking b p = let u = p.user in record p { user = record u { per_tick_inc_set = b } }

  -- lock_for_stat, but for the backup of user_per_tick_inc_set, which its caller keeps
  pub lock_for_stat : Process F → Outcome (Process F)
  unfolding take_semaphore
  lock_for_stat p = do
    events ← take_semaphore p.shared p.sem_events
    ok (set_ticking false (record p { sem_events = events }))

  -- unlock_for_stat, with that backup
  pub unlock_for_stat : Bool → Process F → Outcome (Process F)
  unfolding give_semaphore
  unlock_for_stat backup p = do
    events ← give_semaphore p.shared p.sem_events
    ok (set_ticking backup (record p { sem_events = events }))

module _ (F : Floats) (w : World F) where
  -- FAKE_STRUCT_STAT_TIME and fake_statx_timestamp
  pub fake_timestamp : Time → Process F → Outcome (Time × Process F)
  fake_timestamp t p = do (result, t', q) ← fake_clock_gettime F w realtime t p; ok (t', q)

  fake_timestamp_if : Bool → Time → Process F → Outcome (Time × Process F)
  unfolding fake_timestamp
  fake_timestamp_if true t p = fake_timestamp t p
  fake_timestamp_if false t p = ok (t, p)

  pub fake_statbuf : Stat → Process F → Outcome (Stat × Process F)
  unfolding lock_for_stat unlock_for_stat
  fake_statbuf buf p = do
    locked ← lock_for_stat F p
    (c, p1) ← fake_timestamp buf.ctime locked
    (a, p2) ← fake_timestamp buf.atime p1
    (m, p3) ← fake_timestamp buf.mtime p2
    q ← unlock_for_stat F p.user.per_tick_inc_set p3
    ok (record { ctime = c; atime = a; mtime = m }, q)

  pub fake_statxbuf : Statx → Process F → Outcome (Statx × Process F)
  unfolding lock_for_stat unlock_for_stat fake_timestamp_if
  fake_statxbuf buf p = do
    locked ← lock_for_stat F p
    (a, p1) ← fake_timestamp_if buf.has_atime buf.atime locked
    (c, p2) ← fake_timestamp_if buf.has_ctime buf.ctime p1
    (m, p3) ← fake_timestamp_if buf.has_mtime buf.mtime p2
    (b, p4) ← fake_timestamp_if buf.has_btime buf.btime p3
    q ← unlock_for_stat F p.user.per_tick_inc_set p4
    ok (record buf { atime = a; ctime = c; mtime = m; btime = b }, q)

  -- STAT_HANDLER_COMMON; `none` is the return value -1, of a missing or of a failing function.
  pub stat_handler : Bool → Option Stat → Process F → Outcome (Option Stat × Process F)
  stat_handler disabled none p = ok (none, p)
  stat_handler disabled (some buf) p =
      if disabled || p.dont_fake
      then ok (some buf, p)
      else (fake_statbuf buf p >>= λ r. ok (some r.0, r.1))

  -- fake_current_realtime; `real` is what the real clock_gettime stores.
  pub fake_current_realtime : Option Time → Process F → Outcome (Option Time × Process F)
  fake_current_realtime none p = ok (none, p)
  fake_current_realtime (some real) p = do
    (result, t, q) ← fake_clock_gettime F w realtime real p
    ok (if eqb_ℤ result (negsuc 0) then none else some t, q)

  -- fake_current_timeval
  pub fake_current_timeval : Option Time → Process F → Outcome (Option Time × Process F)
  unfolding fake_current_realtime
  fake_current_timeval real p = do
    (t, q) ← fake_current_realtime real p
    ok (elim t [ none ↦ none | some ts ↦ some (time ts.sec (ts.sub /ℤ 1000)) ], q)

  -- utime: the actime and the modtime for the real function (`none` for NULL); `disabled` is
  -- fake_utime_disabled. The outer `none` is the return value -1.
  pub utime :
      Bool
      → Option Time
      → Option (ℤ × ℤ)
      → Process F
      → Outcome (Option (Option (ℤ × ℤ)) × Process F)
  unfolding fake_current_realtime
  utime true real none p = do
    (t, q) ← fake_current_realtime real p
    ok (elim t [ none ↦ none | some now ↦ some (some (now.sec, now.sec)) ], q)
  utime true real (some times) p = ok (some (some times), p)
  utime false real none p = ok (some none, p)
  utime false real (some (actime, modtime)) p =
      ok (some (some (actime -ℤ p.user.offset.sec, modtime -ℤ p.user.offset.sec)), p)

  -- utimes, likewise with struct timeval
  pub utimes :
      Bool
      → Option Time
      → Option (Time × Time)
      → Process F
      → Outcome (Option (Option (Time × Time)) × Process F)
  unfolding fake_current_timeval
  utimes true real none p = do
    (t, q) ← fake_current_timeval real p
    ok (elim t [ none ↦ none | some now ↦ some (some (now, now)) ], q)
  utimes true real (some times) p = ok (some (some times), p)
  utimes false real none p = ok (some none, p)
  utimes false real (some (atime, mtime)) p =
      let offset = time p.user.offset.sec (p.user.offset.sub /ℤ 1000) in
      ok (
        some (
            some (
              (subtract sec_to_usec atime offset).value,
              (subtract sec_to_usec mtime offset).value,
            )),
        p,
      )

  -- The fake current time, fetched once for both times.
  fetch_now :
      Option Time → Option Time → Process F → Outcome (Option (Time × Option Time) × Process F)
  unfolding fake_current_realtime
  fetch_now real (some n) p = ok (some (n, some n), p)
  fetch_now real none p = do
    (n, q) ← fake_current_realtime real p
    ok (elim n [ none ↦ none | some n' ↦ some (n', some n') ], q)

  -- One round of the loop of fake_two_timespec: the time for the real function, and `now` if it
  -- has been fetched; `none` is the return value -1.
  pub translate :
      Bool
      → Option Time
      → Option Time
      → Time
      → Process F
      → Outcome (Option (Time × Option Time) × Process F)
  unfolding fetch_now
  translate disabled real now t p =
      if disabled && eqb_ℤ t.sub utime_now
      then fetch_now real now p
      else if disabled || (eqb_ℤ t.sub utime_omit || eqb_ℤ t.sub utime_now)
      then ok (some (t, now), p)
      else ok (some (timespecsub t p.user.offset, now), p)

  second_timespec :
      Bool
      → Option Time
      → Time
      → Option (Time × Option Time) × Process F
      → Outcome (Option (Time × Time) × Process F)
  unfolding translate
  second_timespec disabled real t (none, p) = ok (none, p)
  second_timespec disabled real t (some (first, now), p) = do
    (r, q) ← translate disabled real now t p
    ok (elim r [ none ↦ none | some (second, now') ↦ some (first, second) ], q)

  -- fake_two_timespec, for utimensat and futimens; NULL stands for UTIME_NOW twice.
  pub fake_two_timespec :
      Bool
      → Option Time
      → Option (Time × Time)
      → Process F
      → Outcome (Option (Time × Time) × Process F)
  unfolding translate second_timespec
  fake_two_timespec disabled real none p =
      translate disabled real none (time (pos 0) utime_now) p
      >>= second_timespec disabled real (time (pos 0) utime_now)
  fake_two_timespec disabled real (some (atime, mtime)) p =
      translate disabled real none atime p >>= second_timespec disabled real mtime

  -- utimensat and futimens: the result, for the real function with the other arguments given
  pub utimensat :
      Bool
      → Option (Time × Time → ℤ)
      → Option Time
      → Option (Time × Time)
      → Process F
      → Outcome (ℤ × Process F)
  unfolding fake_two_timespec
  utimensat disabled none now times p = ok (negsuc 0, p)
  utimensat disabled (some real) now times p = do
    (tn, q) ← fake_two_timespec disabled now times p
    ok (elim tn [ none ↦ negsuc 0 | some t ↦ real t ], q)
