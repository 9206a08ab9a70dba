-- ===== src/FileTimes/Laws.antt =====
-- The stat family of src/libfaketime.c: the three times of fake_statbuf.
use libfaketime.Base.{◌∙◌, arith, false, refl, ◌≡◌, ◌≢◌, Bool, Option, none, some, []}
use libfaketime.Floats.{Floats}
use libfaketime.Outcome.{ok}
use libfaketime.TimeOps.{Time}
use libfaketime.Process.{Process, Cache, realtime, noop}
use libfaketime.Shared.{Shared}
use libfaketime.World.{World}
use libfaketime.Replay.{acquire, once}
use libfaketime.Clock.Steps.{expire}
use libfaketime.Clock.Steps.Window.{count_call-limited_faking}
use libfaketime.Clock.Calls.{Steady, steady_result, steady_end, fake_clock_gettime-Steady}
use libfaketime.FileTimes.{
  take_semaphore, give_semaphore, Stat, set_ticking, lock_for_stat, unlock_for_stat, fake_timestamp,
  fake_statbuf,
}

-- A request that need not be read again is not read again at the same time.
expire_again :
    (c : Cache) (now : Time)
    → (expire c now).expired ≡ false
    → (expire (expire c now) now).expired ≡ false
unfolding expire
expire_again c now h = ground arith

take_semaphore_free : (s : Option Shared) → take_semaphore s [] ≡ ok []
unfolding take_semaphore acquire
take_semaphore_free none = refl
take_semaphore_free (some s) = refl

give_semaphore_free : (s : Option Shared) → give_semaphore s [] ≡ ok []
unfolding give_semaphore once
give_semaphore_free none = refl
give_semaphore_free (some s) = refl

module _ (F : Floats) where
  lock_for_stat_free :
      (p : Process F) → p.sem_events ≡ [] → lock_for_stat F p ≡ ok (set_ticking F false p)
  unfolding lock_for_stat
  lock_for_stat_free p h = rw (h, take_semaphore_free p.shared) refl

  unlock_for_stat_free :
      (b : Bool) (p : Process F)
      → p.sem_events ≡ []
      → unlock_for_stat F b p ≡ ok (set_ticking F b p)
  unfolding unlock_for_stat
  unlock_for_stat_free b p h = rw (h, give_semaphore_free p.shared) refl

module _ (F : Floats) (w : World F) where
  steady_end-Steady :
      (p : Process F) (t : Time) → Steady F w p → Steady F w (steady_end F w p realtime t)
  steady_end-Steady p t st = record {
    awake = st.awake;
    unlimited = count_call-limited_faking p.limits p.spawn ∙ st.unlimited;
    no_spawn = st.no_spawn;
    cached = expire_again p.cache w.now st.cached;
    no_infile = st.no_infile;
    no_outfile = st.no_outfile;
    no_ticks = st.no_ticks;
  }

  fake_timestamp-Steady :
      (p : Process F) (t : Time)
      → Steady F w p
      → p.user.mode ≢ noop
      → fake_timestamp F w t p ≡ ok (steady_result F w p realtime t, steady_end F w p realtime t)
  unfolding fake_timestamp
  fake_timestamp-Steady p t st hm = rw (fake_clock_gettime-Steady F w p realtime t refl st hm) refl

  -- fake_statbuf with the semaphore free, or with no shared memory, in a process that but for its
  -- ticks has nothing to read again, to replay, to limit or to save, and whose mode is not
  -- FT_NOOP: it returns each of the three times as the rules without a tick give it, and changes
  -- neither the request, the tick switch included, nor the shared data, so that no tick is
  -- counted.
  pub fake_statbuf-Steady :
      (p : Process F) (buf : Stat)
      → p.sem_events ≡ []
      → Steady F w (set_ticking F false p)
      → p.user.mode ≢ noop
      → (q : Process F) × ((fake_statbuf F w buf p
            ≡ ok (
              record {
                ctime = steady_result F w (set_ticking F false p) realtime buf.ctime;
                atime = steady_result F w (set_ticking F false p) realtime buf.atime;
                mtime = steady_result F w (set_ticking F false p) realtime buf.mtime;
              },
              q,
            ))
          × ((q.user ≡ p.user) × (q.shared ≡ p.shared)))
  unfolding fake_statbuf
  fake_statbuf-Steady p buf hs st hm =
      let p0 = set_ticking F false p in
      let p1 = steady_end F w p0 realtime buf.ctime in
      let p2 = steady_end F w p1 realtime buf.atime in
      let p3 = steady_end F w p2 realtime buf.mtime in
      let st1 = steady_end-Steady p0 buf.ctime st in
      let locked = lock_for_stat_free F p hs in
      let c = fake_timestamp-Steady p0 buf.ctime st hm in
      let a = fake_timestamp-Steady p1 buf.atime st1 hm in
      let m = fake_timestamp-Steady p2 buf.mtime (steady_end-Steady p1 buf.atime st1) hm in
      let unlocked = unlock_for_stat_free F p.user.per_tick_inc_set p3 hs in
      (
        set_ticking F p.user.per_tick_inc_set p3,
        (rw (locked, c, a, m, unlocked) refl, (refl, refl)),
      )
