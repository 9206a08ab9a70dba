-- ===== src/Startup/Laws.antt =====
-- ftpl_really_init of src/libfaketime.c: the start time that processes share, and the commands for
-- which faking is off.
use libfaketime.Base.{
  ◌≢◌, ◌⊎◌, Bool, true, false, some, List, [], ◌∷◌, ℕ, if◌then◌else◌, ◌≡◌, ◌∙◌, refl, arith,
  Bool-cases, Option-cases, inl, inr,
}
use libfaketime.Base.Int.{ℤ, pos, negsuc, eqb_ℤ}
use libfaketime.Floats.{Floats}
use libfaketime.Outcome.{ok, ◌>>=◌}
use libfaketime.Outcome.Laws.{AllOk, AllOk-bind, AllOk-then, bind-AllOk}
use libfaketime.TimeOps.{Time}
use libfaketime.TimeOps.Total.{IsNormal}
use libfaketime.Shared.{Shared, SystemTime, system_time_to_shared, shared_to_system_time}
use libfaketime.SharedMemory.{Objects}
use libfaketime.Process.{Process, ClockId, process_cputime, thread_cputime}
use libfaketime.World.{World}
use libfaketime.Seeded.{Converted}
use libfaketime.Replay.{once, locked}
use libfaketime.Config.SymbolList.{str_array_contains}
use libfaketime.Clock.{fake_clock_gettime}
use libfaketime.Startup.{
  Answers, set_start, read_settings, ftpl_really_init, attach_shared, open_and_start,
}
use libfaketime.Startup.Flags.{command_skipped, cache_settings, limit_settings, utime_disabled}
use libfaketime.Startup.Spawning.{spawn_settings}
use libfaketime.Startup.Commands.Laws.{IsPlain, names_command-str_array_contains}

module _ (F : Floats) where
  abbrev is_fresh : Shared → Bool
  is_fresh s = eqb_ℤ s.start_time_real.sub (negsuc 0)

  set_start-shared :
      (now : SystemTime) (p : Process F) (s : Shared)
      → p.shared ≡ some s
      → p.sem_events ≡ []
      → set_start F now p
        ≡ ok (record p {
          start = if is_fresh s then now else shared_to_system_time s;
          shared = some (if is_fresh s then system_time_to_shared now s else s);
          sem_events = [];
        })
  unfolding set_start locked once
  set_start-shared now p s hs he = rw (hs, he) refl

  not_fresh :
      (now : SystemTime) (s : Shared)
      → IsNormal now.real
      → is_fresh (if is_fresh s then system_time_to_shared now s else s) ≡ false
  unfolding system_time_to_shared
  not_fresh now s h = elim (Bool-cases (is_fresh s)) [
    | inl fresh ↦ rw fresh (ground arith)
    | inr later ↦ rw later later
  ]

  start_of_shared :
      (now : SystemTime) (s : Shared)
      → shared_to_system_time (if is_fresh s then system_time_to_shared now s else s)
        ≡ (if is_fresh s then now else shared_to_system_time s)
  unfolding system_time_to_shared shared_to_system_time
  start_of_shared now s = elim (Bool-cases (is_fresh s)) [
    | inl fresh ↦ rw fresh refl
    | inr later ↦ rw later refl
  ]

  -- The start time and the data behind set_start.
  first_or_later :
      (now : SystemTime) (s : Shared)
      → (s.start_time_real.sub ≡ negsuc 0)
          × ((if is_fresh s then now else shared_to_system_time s) ≡ now)
        ⊎ (s.start_time_real.sub ≢ negsuc 0)
          × ((if is_fresh s then now else shared_to_system_time s) ≡ shared_to_system_time s)
          × (some (if is_fresh s then system_time_to_shared now s else s) ≡ some s)
  first_or_later now s = elim (Bool-cases (is_fresh s)) [
    | inl fresh ↦ inl (rw fresh (ground arith, refl))
    | inr later ↦ inr (rw later ((λ e. ground arith), refl, refl))
  ]

  -- A process that starts on shared data that hold no start time yet, that is whose nanoseconds are
  -- -1, takes its own clocks for its start time; one that starts on data that hold one takes over
  -- that, and leaves the data as they are. Either way the data hold its start time then, and a
  -- process that starts on the same data, whatever its clocks show by then, takes over that start
  -- time and leaves the data as they are. The lock is at hand and the first process's real time is
  -- normalised.
  pub set_start_agrees :
      (now now' : SystemTime) (p q : Process F) (s : Shared)
      → p.shared ≡ some s
      → p.sem_events ≡ []
      → q.sem_events ≡ []
      → IsNormal now.real
      → (p' q' : Process F) × (s' : Shared) × (set_start F now p ≡ ok p')
        × ((s.start_time_real.sub ≡ negsuc 0) × (p'.start ≡ now)
            ⊎ (s.start_time_real.sub ≢ negsuc 0)
              × (p'.start ≡ shared_to_system_time s)
              × (p'.shared ≡ some s))
        × (p'.shared ≡ some s')
        × (shared_to_system_time s' ≡ p'.start)
        × (set_start F now' (record q { shared = p'.shared }) ≡ ok q')
        × (q'.start ≡ p'.start)
        × (q'.shared ≡ p'.shared)
  set_start_agrees now now' p q s hs he he' normal =
      let s' = if is_fresh s then system_time_to_shared now s else s in
      let q1 = record q { shared = some s' } in
      let old = not_fresh now s normal in
      (
        _,
        _,
        s',
        set_start-shared now p s hs he,
        first_or_later now s,
        refl,
        start_of_shared now s,
        set_start-shared now' q1 s' refl he',
        rw old (start_of_shared now s),
        rw old refl,
      )

module _ (F : Floats) (w : World F) (strtol : List ℕ → Converted ℤ) where
  -- In the list of FAKETIME_SKIP_CMDS.
  command_skipped-listed :
      (x : ℕ) (name list : List ℕ)
      → w.getenv "FAKETIME_SKIP_CMDS" ≡ some list
      → IsPlain (x ∷ name)
      → str_array_contains list (x ∷ name) ≡ true
      → AllOk (λ b. b ≡ true) (command_skipped F w strtol (x ∷ name))
  unfolding command_skipped
  command_skipped-listed x name list hs hp hc =
      elim (Option-cases (w.getenv "FAKETIME_ONLY_CMDS")) [
        | inl none_set ↦
            rw (none_set, command_skipped, hs)
              (names_command-str_array_contains x name list hp ∙ hc)
        | inr (only, set) ↦ rw (set, command_skipped, hs) tt
      ]

  read_settings-skipped :
      (progname : List ℕ) (p : Process F)
      → AllOk (λ b. b ≡ true) (command_skipped F w strtol progname)
      → AllOk (λ r. r.0 ≡ true) (read_settings F w strtol progname p)
  unfolding read_settings
  read_settings-skipped progname p h = AllOk-then _ (cache_settings F w strtol p.cache) _ (λ c.
      AllOk-bind (λ b. b ≡ true) _ (command_skipped F w strtol progname) _ h
        (λ b e.
          AllOk-then _ (limit_settings F w strtol p.limits) _
            (λ l. AllOk-then _ (spawn_settings F w strtol p.spawn) _ (λ s. e))))

  ftpl_really_init-skipped :
      (a : Answers) (progname : List ℕ) (objects : Objects) (p : Process F)
      → AllOk (λ b. b ≡ true) (command_skipped F w strtol progname)
      → AllOk (λ r. r.1.dont_fake ≡ true) (ftpl_really_init F w strtol a progname objects p)
  unfolding ftpl_really_init
  ftpl_really_init-skipped a progname objects p h =
      AllOk-then _ (attach_shared a (w.getenv "FAKETIME_DISABLE_SHM") objects) _ (λ page.
        AllOk-then _ (utime_disabled strtol (w.getenv "FAKE_UTIME")) _ (λ disabled.
          AllOk-bind (λ r. r.0 ≡ true) _
            (read_settings F w strtol progname (record p { dont_fake = true; shared = page })) _
            (read_settings-skipped progname (record p { dont_fake = true; shared = page }) h)
            (λ r e. AllOk-then _ (open_and_start F w strtol a r.2) _ (λ s. e))))

  fake_clock_gettime-skipped :
      (w' : World F) (clk : ClockId) (tp : Time) (p : Process F)
      → p.dont_fake ≡ true
      → fake_clock_gettime F w' clk tp p ≡ ok (pos 0, tp, p)
  unfolding fake_clock_gettime
  fake_clock_gettime-skipped w' process_cputime tp p e = rw e refl
  fake_clock_gettime-skipped w' thread_cputime tp p e = rw e refl
  fake_clock_gettime-skipped w' _ tp p e = rw e refl

  -- A command whose name, which has no comma, str_array_contains finds in FAKETIME_SKIP_CMDS sees
  -- the real time on every clock and in whatever environment it meets, in the thread that starts
  -- the library: the library starts, whatever its other settings are, unless they end the process,
  -- and fake_clock_gettime then returns the time that it is given and changes nothing.
  pub skipped_command_real_time :
      (w' : World F) (a : Answers) (x : ℕ) (name list : List ℕ) (objects : Objects) (p : Process F)
      (clk : ClockId) (tp : Time)
      → w.getenv "FAKETIME_SKIP_CMDS" ≡ some list
      → IsPlain (x ∷ name)
      → str_array_contains list (x ∷ name) ≡ true
      → (ftpl_really_init F w strtol a (x ∷ name) objects p >>= λ r.
          fake_clock_gettime F w' clk tp r.1)
        ≡ (ftpl_really_init F w strtol a (x ∷ name) objects p >>= λ r. ok (pos 0, tp, r.1))
  skipped_command_real_time w' a x name list objects p clk tp hs hp hc =
      bind-AllOk (λ r. r.1.dont_fake ≡ true) (ftpl_really_init F w strtol a (x ∷ name) objects p) _
        _
        (ftpl_really_init-skipped a (x ∷ name) objects p
          (command_skipped-listed x name list hs hp hc))
        (λ r e. fake_clock_gettime-skipped w' clk tp r.1 e)
