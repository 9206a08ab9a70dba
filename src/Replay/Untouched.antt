-- ===== src/Replay/Untouched.antt =====
-- What save_time, next_time, load_time and reset_time of src/libfaketime.c leave alone: the cached
-- times, the external command and, all but load_time, the file that is replayed.
use mathlib.Core.Path.{subst}
use libfaketime.Base.{
  sym, ℕ, List, Option, none, some, ◌≡◌, refl, ◌⊎◌, inl, inr, Bool-cases, arith, ◌<◌, leb, length,
  ◌/◌, if◌then◌else◌,
}
use libfaketime.Floats.{Floats}
use libfaketime.Outcome.{Outcome}
use libfaketime.Outcome.Laws.{AllOk, AllOk-then, AllOk-bind, AllOk-option}
use libfaketime.TimeOps.{Time}
use libfaketime.Shared.{SystemTime, Shared, system_time_to_shared}
use libfaketime.Process.{Spawn, Process, SemEvent}
use libfaketime.Replay.{
  reset_time, next_time, save_time, load_time, replay_ends, next_index, locked, acquire, once,
  tick_time,
}
use libfaketime.Replay.Bytes.{saved_size, saved_at, encode_saved}
use libfaketime.Replay.Write.{WriteResult, write_all, write_fuel}

locked-value :
    {A : Type 0} (take : List SemEvent → Outcome (List SemEvent)) (events : List SemEvent) (a : A)
    → AllOk (λ r. r.0 ≡ a) (locked take events a)
unfolding locked
locked-value take events a =
    AllOk-then _ (take events) _ (λ events'. AllOk-then _ (once events') _ (λ events''. refl))

module _ (F : Floats) where
  abbrev pub kept : Process F → SystemTime × SystemTime × Spawn × Option (List ℕ)
  kept p = (p.timecache, p.faketimecache, p.spawn, p.infile)

  abbrev pub Keeps : Process F → Process F → Type 0
  Keeps p q = kept q ≡ kept p

  pub reset_time-Keeps : (now : SystemTime) (p : Process F) → AllOk (Keeps p) (reset_time F now p)
  unfolding reset_time
  reset_time-Keeps now p = AllOk-option (Keeps p) p.shared _ _ refl (λ s e.
      AllOk-then (Keeps p) (locked once p.sem_events (system_time_to_shared now s)) _ (λ r. refl))

  pub next_time-Keeps : (p : Process F) (tp : Time) → AllOk (λ r. Keeps p r.1) (next_time F p tp)
  unfolding next_time
  next_time-Keeps p tp =
      AllOk-option (λ r. Keeps p r.1) p.shared _ _ refl
        (λ s e.
          AllOk-then (λ r. Keeps p r.1) (locked acquire p.sem_events (tick_time F p.user s)) _
            (λ r. refl))

  pub save_time-Keeps :
      (disk : ℕ → WriteResult) (p : Process F) (tp : Time) → AllOk (Keeps p) (save_time F disk p tp)
  unfolding save_time
  save_time-Keeps disk p tp = AllOk-option (Keeps p) p.shared _ _ refl (λ s e.
      AllOk-option (Keeps p) p.outfile _ _ refl (λ bytes e'.
        AllOk-then (Keeps p)
          (locked acquire p.sem_events
            (write_all disk (write_fuel (encode_saved tp)) 0 (encode_saved tp) 0))
          _ (λ r. refl)))

  -- load_time keeps the file, or is done with it.
  pub record Loads (p : Process F) (t : Option Time) (q : Process F) : Type 0 where
    pub real_times : q.timecache ≡ p.timecache
    pub faked_times : q.faketimecache ≡ p.faketimecache
    pub command : q.spawn ≡ p.spawn
    pub replayed : (q.infile ≡ none) ⊎ (q.infile ≡ p.infile)
    pub entry :
        (r : Time)
        → t ≡ some r
        → (file : List ℕ) × (i : ℕ) × (p.infile ≡ some file)
          × (i < length file / saved_size)
          × (r ≡ saved_at file i)

  Loads-nothing : (p : Process F) → Loads p none p
  Loads-nothing p = record {
    real_times = refl;
    faked_times = refl;
    command = refl;
    replayed = inr refl;
    entry = λ r e. cc;
  }

  loaded_or_ended :
      (now : SystemTime) (p : Process F) (s : Shared) (file : List ℕ) (events : List SemEvent)
      → p.infile ≡ some file
      → let r : Option Time × Process F =
          (if leb (length file / saved_size) s.file_idx
            then (none, replay_ends F now p s file)
            else (some (saved_at file s.file_idx), record p { shared = some (next_index s) })) in
        Loads p r.0 (let q = r.1 in record q { sem_events = events })
  unfolding replay_ends
  loaded_or_ended now p s file events h =
      elim (Bool-cases (leb (length file / saved_size) s.file_idx)) [
        | inl over ↦ rw over (record {
          real_times = refl;
          faked_times = refl;
          command = refl;
          replayed = inl refl;
          entry = λ r e. cc;
        })
        | inr more ↦ rw more (record {
          real_times = refl;
          faked_times = refl;
          command = refl;
          replayed = inr refl;
          entry = λ r e. (file, s.file_idx, h, ground arith, cc);
        })
      ]

  pub load_time-Loads :
      (now : SystemTime) (p : Process F) → AllOk (λ r. Loads p r.0 r.1) (load_time F now p)
  unfolding load_time locked
  load_time-Loads now p = AllOk-option _ p.shared _ _ (Loads-nothing p) (λ s e.
      AllOk-option _ p.infile _ _ (Loads-nothing p) (λ file e'.
        let loaded : Option Time × Process F =
          (if leb (length file / saved_size) s.file_idx
            then (none, replay_ends F now p s file)
            else (some (saved_at file s.file_idx), record p { shared = some (next_index s) })) in
        AllOk-bind (λ r. r.0 ≡ loaded) _ _ _ (locked-value acquire p.sem_events loaded)
          (λ r same.
            subst (λ y. Loads p y.0 (let q = y.1 in record q { sem_events = r.1 })) (sym same)
              (loaded_or_ended now p s file r.1 e'))))
