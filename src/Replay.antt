-- ===== src/Replay.antt =====
-- Saving and loading time: struct saved_timestamp, write_all, save_time, load_time, next_time and
-- reset_time of src/libfaketime.c, with the semaphore that guards the shared data.
pub mod Sections
pub mod Bytes
pub mod Write
pub mod Laws
pub mod Untouched
use libfaketime.Base.{
  ℕ, zero, suc, ◌+◌, ◌-◌, ◌*◌, ◌/◌, Bool, true, false, Option, none, some, List, [], ◌∷◌, ◌++◌, leb,
  ◌==◌, if◌then◌else◌, length,
}
use libfaketime.Base.Int.{ℤ, pos}
use libfaketime.Floats.{Floats}
use libfaketime.Outcome.{Outcome, ok, exits, ◌>>=◌}
use libfaketime.TimeOps.{Time, sec_to_nsec, timespecadd}
use libfaketime.TimeOps.Scale.{timespecmul}
use libfaketime.Shared.{SystemTime, Shared, system_time_to_shared, shared_to_system_time}
use libfaketime.Process.{Process, User, SemEvent, success, interrupted, failure}
use Bytes.{saved_size, encode_saved, timespec_from_saved, saved_at}
use Write.{WriteResult, write_all, write_fuel}

-- ft_sem_lock in the callers' loops: EINTR is retried, another error ends the process.
unfoldable pub acquire : List SemEvent → Outcome (List SemEvent)
acquire [] = ok []
acquire (success ∷ events) = ok events
acquire (interrupted ∷ events) = acquire events
acquire (failure ∷ events) = exits 1

-- ft_sem_lock in reset_time, and ft_sem_unlock everywhere: any error ends the process.
unfoldable pub once : List SemEvent → Outcome (List SemEvent)
once [] = ok []
once (success ∷ events) = ok events
once (interrupted ∷ events) = exits 1
once (failure ∷ events) = exits 1

-- A critical section on the shared data.
unfoldable pub locked {ℓ} :
    {A : Type ℓ}
    → (List SemEvent → Outcome (List SemEvent))
    → List SemEvent
    → A
    → Outcome (A × List SemEvent)
unfolding acquire once
locked take events a = do events' ← take events; events'' ← once events'; ok (a, events'')

abbrev pub next_tick : Shared → Shared
next_tick s = record s { ticks = s.ticks + 1 }

abbrev pub next_index : Shared → Shared
next_index s = record s { file_idx = s.file_idx + 1 }

module _ (F : Floats) where
  open F use {of_ℤ}

  -- The arithmetic of next_time: the user's time and `ticks` increments.
  pub tick_time : User F → Shared → Time
  tick_time u s = timespecadd u.faked_time (timespecmul F u.per_tick_inc (of_ℤ (pos s.ticks)))

  -- next_time(tp, &user_per_tick_inc)
  pub next_time : Process F → Time → Outcome (Time × Process F)
  unfolding tick_time
  next_time p tp = elim p.shared [
    | none ↦ ok (tp, p)
    | some s ↦ do
      (t, events) ← locked acquire p.sem_events (tick_time p.user s)
      ok (t, record p { shared = some (next_tick s); sem_events = events })
  ]

  -- reset_time, where `now` is what system_time_from_system reads
  pub reset_time : SystemTime → Process F → Outcome (Process F)
  reset_time now p = elim p.shared [
    | none ↦ ok (record p { start = now })
    | some s ↦ do
      (s', events) ← locked once p.sem_events (system_time_to_shared now s)
      ok (record p { start = now; shared = some s'; sem_events = events })
  ]

  -- save_time; `disk` says what each write() returns
  pub save_time : (ℕ → WriteResult) → Process F → Time → Outcome (Process F)
  save_time disk p tp = elim p.shared [
    | none ↦ ok p
    | some s ↦ elim p.outfile [
      | none ↦ ok p
      | some bytes ↦ do
        let record_bytes = encode_saved tp
        (result, events) ←
            locked acquire p.sem_events (write_all disk (write_fuel record_bytes) 0 record_bytes 0)
        ok (record p { outfile = some (bytes ++ result.1); sem_events = events })
    ]
  ]

  -- The timestamps have run out: fake by rules from now on, from the last timestamp of the file.
  unfoldable pub replay_ends : SystemTime → Process F → Shared → List ℕ → Process F
  replay_ends now p s file =
      let u = p.user in
      let last = saved_at file (length file / saved_size - 1) in
      let fresh = s.ticks == 0 in
      record p {
        user = record u { faked_time = last };
        start = if fresh then now else shared_to_system_time s;
        shared = some (if fresh then system_time_to_shared now (record s { ticks = 1 }) else s);
        infile = none;
      }

  -- load_time: the time read from the file, if there is one left, and the new state
  unfoldable pub load_time : SystemTime → Process F → Outcome (Option Time × Process F)
  unfolding replay_ends
  load_time now p = elim p.shared [
    | none ↦ ok (none, p)
    | some s ↦ elim p.infile [
      | none ↦ ok (none, p)
      | some file ↦ do
        ((t, q), events) ← locked acquire p.sem_events (
            if leb (length file / saved_size) s.file_idx
            then (none, replay_ends now p s file)
            else (some (saved_at file s.file_idx), record p { shared = some (next_index s) }))
        ok (t, record q { sem_events = events })
    ]
  ]
