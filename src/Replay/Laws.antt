-- ===== src/Replay/Laws.antt =====
-- Ticks and replayed timestamps, call after call.
use libfaketime.Base.{
  Bool-cases, inr, inl, true, ◌==◌, if◌then◌else◌, none, false, ◌/◌, ◌-◌, ◌≤◌, leb, ◌<◌, length,
  get_elem?, ℕ, zero, suc, ◌≡◌, refl, List, [], ◌∷◌, some, arith,
}
use libfaketime.Floats.{Floats}
use libfaketime.Outcome.{Outcome, ok, ◌>>=◌}
use libfaketime.TimeOps.{Time}
use libfaketime.Shared.Laws.{shared_to_system_time-system_time_to_shared}
use libfaketime.Shared.{shared_to_system_time, system_time_to_shared, Shared}
use libfaketime.Process.{User, Process, SemEvent, interrupted}
use libfaketime.Replay.Bytes.File.{encode_all, AllFit64, length-encode_all, saved_at-encode_all}
use libfaketime.Replay.Write.{WriteResult}
use libfaketime.Replay.{
  save_time, replay_ends, next_index, load_time, SystemTime, acquire, locked, tick_time, next_time,
  next_tick,
}

module _ (F : Floats) where
  -- n calls of next_time one after another, by any process that shares the data: the times.
  abbrev pub call_ticks : ℕ → Process F → Time → Outcome (List Time)
  call_ticks zero p tp = ok []
  call_ticks (suc n) p tp = do (t, q) ← next_time F p tp; ts ← call_ticks n q tp; ok (t ∷ ts)

  abbrev pub expected_ticks : ℕ → User F → Shared → List Time
  expected_ticks zero u s = []
  expected_ticks (suc n) u s = tick_time F u s ∷ expected_ticks n u (next_tick s)

  next_time-granted :
      (p : Process F) (s : Shared) (tp : Time)
      → p.shared ≡ some s
      → p.sem_events ≡ []
      → next_time F p tp
        ≡ ok (tick_time F p.user s, record p { shared = some (next_tick s); sem_events = [] })
  unfolding next_time locked
  next_time-granted p s tp hs he = rw (hs, he) refl

  -- In next_time, an interrupted wait for the semaphore is tried again, and the call has the
  -- result and the effect of one that was not interrupted.
  pub next_time-interrupted :
      (p : Process F) (s : Shared) (events : List SemEvent) (tp : Time)
      → p.shared ≡ some s
      → next_time F (record p { sem_events = interrupted ∷ events }) tp
        ≡ next_time F (record p { sem_events = events }) tp
  unfolding next_time locked acquire
  next_time-interrupted p s events tp h = rw h refl

  -- Where the semaphore is free, n calls of next_time in a row return n successive ticks, each of
  -- them once.
  pub call_ticks_lem :
      (n : ℕ) (p : Process F) (s : Shared) (tp : Time)
      → p.shared ≡ some s
      → p.sem_events ≡ []
      → call_ticks n p tp ≡ ok (expected_ticks n p.user s)
  call_ticks_lem zero p s tp hs he = refl
  call_ticks_lem (suc n) p s tp hs he = rw (next_time-granted p s tp hs he) (
      rw
        (call_ticks_lem n (record p { shared = some (next_tick s); sem_events = [] }) (next_tick s)
          tp refl refl)
        refl)

get_elem?-lt {ℓ} :
    {A : Type ℓ} (xs : List A) (i : ℕ) {a : A} → get_elem? xs i ≡ some a → i < length xs
get_elem?-lt [] i h = cc
get_elem?-lt (x ∷ xs) zero h = omega arith
get_elem?-lt (x ∷ xs) (suc i) h = omega (arith, get_elem?-lt xs i h)

module _ (F : Floats) (now : SystemTime) (p : Process F) (s : Shared) (ts : List Time) where
  -- Where the semaphore is free and the file holds the times `ts`, of fields that fit in 64 bits,
  -- as save_time writes them, load_time returns the time at `file_idx`, if there is one, and of
  -- the state it advances only that index.
  pub load_time_next :
      {t : Time}
      → p.shared ≡ some s
      → p.sem_events ≡ []
      → p.infile ≡ some (encode_all ts)
      → AllFit64 ts
      → get_elem? ts s.file_idx ≡ some t
      → load_time F now p ≡ ok (some t, record p { shared = some (next_index s); sem_events = [] })
  unfolding load_time locked
  load_time_next hs he hf fits hi =
      let more : leb (length (encode_all ts) / 16) s.file_idx ≡ false =
        ground (arith, length-encode_all ts, get_elem?-lt ts s.file_idx hi) in
      rw (hs, hf)
        (rw more (rw he (rw (saved_at-encode_all ts s.file_idx fits hi) (rw (← hf) refl))))

  -- Where the semaphore is free and `file_idx` is behind the last of the times `ts` in the file,
  -- of fields that fit in 64 bits, load_time returns no time. The file is closed and its last time
  -- becomes the user's. The start times are the current ones if no tick was counted, and those of
  -- the shared data otherwise; the shared data holds the same ones afterwards, and a tick.
  pub load_time_end :
      {t : Time}
      → p.shared ≡ some s
      → p.sem_events ≡ []
      → p.infile ≡ some (encode_all ts)
      → AllFit64 ts
      → length ts ≤ s.file_idx
      → get_elem? ts (length ts - 1) ≡ some t
      → (q : Process F) × (load_time F now p ≡ ok (none, q))
        × (q.infile ≡ none)
        × (q.user.faked_time ≡ t)
        × (q.start ≡ (if s.ticks == 0 then now else shared_to_system_time s))
        × ((s' : Shared) × (q.shared ≡ some s')
            × (shared_to_system_time s' ≡ q.start)
            × (1 ≤ s'.ticks))
  unfolding load_time locked replay_ends
  load_time_end hs he hf fits hi hl =
      let done : leb (length (encode_all ts) / 16) s.file_idx ≡ true =
        ground (arith, length-encode_all ts) in
      let last : length (encode_all ts) / 16 - 1 ≡ length ts - 1 =
        omega (arith, length-encode_all ts) in
      rw (hs, hf)
        (rw done (
          rw he (
            _,
            refl,
            refl,
            rw last (saved_at-encode_all ts (length ts - 1) fits hl),
            refl,
            resumed,
          )))
    where
      resumed :
          let s' = if s.ticks == 0 then system_time_to_shared now (record s { ticks = 1 }) else s in
          (u : Shared) × (some s' ≡ some u)
          × (shared_to_system_time u ≡ (if s.ticks == 0 then now else shared_to_system_time s))
          × (1 ≤ u.ticks)
      resumed = elim (Bool-cases (s.ticks == 0)) [
        | inl fresh ↦ rw fresh (
          system_time_to_shared now (record s { ticks = 1 }),
          refl,
          shared_to_system_time-system_time_to_shared now _,
          unfold system_time_to_shared in omega arith,
        )
        | inr later ↦ rw later (s, refl, refl, ground arith)
      ]

-- Without a file to replay, or one to write, nothing happens.
module _ (F : Floats) (p : Process F) where
  pub load_time-none : (now : SystemTime) → p.infile ≡ none → load_time F now p ≡ ok (none, p)
  unfolding load_time
  load_time-none now h = ground arith

  pub save_time-none :
      (disk : ℕ → WriteResult) (t : Time) → p.outfile ≡ none → save_time F disk p t ≡ ok p
  unfolding save_time
  save_time-none disk t h = ground arith
