-- ===== src/Startup/Session.antt =====
-- A process from ftpl_really_init of src/libfaketime.c on, and its calls of fake_clock_gettime.
use libfaketime.Base.{inl, ℕ, true, false, List, [], ◌∷◌, ◌≡◌, refl}
use libfaketime.Base.Int.{ℤ}
use libfaketime.Floats.{Floats}
use libfaketime.Outcome.{Outcome, ok, ◌>>=◌}
use libfaketime.Outcome.Laws.{AllOk, AllOk-then, AllOk-bind, AllOk-option}
use libfaketime.TimeOps.{Time}
use libfaketime.TimeOps.Total.{IsNormal}
use libfaketime.SharedMemory.{Objects}
use libfaketime.Shared.{SystemTime}
use libfaketime.Process.{at_load, Process, ClockId}
use libfaketime.World.{World}
use libfaketime.Seeded.{Converted}
use libfaketime.Replay.{locked, once}
use libfaketime.Replay.Untouched.{Keeps}
use libfaketime.Request.Untouched.{parse_ft_string-Keeps}
use libfaketime.Config.{read_config_file}
use libfaketime.Config.Untouched.{read_config_file-Keeps}
use libfaketime.Clock.{fake_clock_gettime}
use libfaketime.Clock.Steps.Window.{RunOnce}
use libfaketime.Clock.WellFormed.{WellFormed, AllCached, Keeps-WellFormed, Good}
use libfaketime.Clock.WellFormed.Calls.{fake_clock_gettime-Good}
use libfaketime.Startup.{
  Answers, ftpl_really_init, set_start, first_request, read_settings, open_and_start, attach_shared,
  time_format,
}
use libfaketime.Startup.Flags.{utime_disabled, cache_settings, command_skipped, limit_settings}
use libfaketime.Startup.Spawning.{spawn_settings}
use libfaketime.Startup.Spawning.Laws.{spawn_settings-RunOnce}
use libfaketime.Startup.Files.{open_save_file, open_load_file}
use libfaketime.Startup.Files.Laws.{open_load_file-valid}

-- One call: what the system answers to it, the clock, and the real time.
pub record Call (F : Floats) : Type 0 where
  pub answers : World F
  pub clock : ClockId
  pub real : Time

abbrev pub AllReal : {F : Floats} → List (Call F) → Type 0
AllReal [] = Unit
AllReal (c ∷ cs) = IsNormal c.real × AllReal cs

abbrev pub AllShown : List Time → Type 0
AllShown [] = Unit
AllShown (t ∷ ts) = IsNormal t × AllShown ts

at_load-AllCached : AllCached at_load
at_load-AllCached = record { real = inl refl; mon = inl refl; mon_raw = inl refl; boot = inl refl }

module _ (F : Floats) where
  -- The calls one after another: the times that they return.
  abbrev pub calls : List (Call F) → Process F → Outcome (List Time × Process F)
  calls [] p = ok ([], p)
  calls (c ∷ cs) p = do
    (r, t, q) ← fake_clock_gettime F c.answers c.clock c.real p
    (ts, q') ← calls cs q
    ok (t ∷ ts, q')

  calls-WellFormed :
      (cs : List (Call F)) (p : Process F)
      → AllReal cs
      → WellFormed F p
      → AllOk (λ r. AllShown r.0 × WellFormed F r.1) (calls cs p)
  calls-WellFormed [] p n h = (tt, h)
  calls-WellFormed (c ∷ cs) p n h =
      AllOk-bind (Good F) _ (fake_clock_gettime F c.answers c.clock c.real p) _
        (fake_clock_gettime-Good F c.answers c.clock c.real p n.0 h)
        (λ r g.
          AllOk-bind (λ s. AllShown s.0 × WellFormed F s.1) _ (calls cs r.2) _
            (calls-WellFormed cs r.2 n.1 g.1) (λ s g'. ((g.0, g'.0), g'.1)))

module _ (F : Floats) (w : World F) (strtol : List ℕ → Converted ℤ) where
  set_start-Keeps : (now : SystemTime) (p : Process F) → AllOk (Keeps F p) (set_start F now p)
  unfolding set_start
  set_start-Keeps now p =
      AllOk-option (Keeps F p) p.shared _ _ refl
        (λ s e. AllOk-then (Keeps F p) (locked once p.sem_events _) _ (λ r. refl))

  first_request-Keeps : (p : Process F) → AllOk (Keeps F p) (first_request F w strtol p)
  unfolding first_request
  first_request-Keeps p =
      AllOk-option (Keeps F p) (w.getenv "FAKETIME") _ _
        (AllOk-bind (λ r. Keeps F p r.1) _ (read_config_file F w p) _ (read_config_file-Keeps F w p)
          (λ r k. k))
        (λ text e. parse_ft_string-Keeps F w text (record p { parse_config_file = false }))

  open_and_start-WellFormed :
      (a : Answers) (p : Process F)
      → AllCached p.timecache
      → AllCached p.faketimecache
      → RunOnce p.spawn
      → AllOk (λ r. WellFormed F r.1) (open_and_start F w strtol a p)
  unfolding open_and_start
  open_and_start-WellFormed a p t f s =
      AllOk-then _ (open_save_file (w.getenv "FAKETIME_SAVE_FILE") a.save_opens) _ (λ out.
        AllOk-bind _ _ (open_load_file (w.getenv "FAKETIME_LOAD_FILE") a.load_content) _
          (open_load_file-valid (w.getenv "FAKETIME_LOAD_FILE") a.load_content)
          (λ file valid. AllOk-then _ (time_format (w.getenv "FAKETIME_FMT")) _ (λ format.
            let opened = record p { outfile = out; infile = file } in
            let h : WellFormed F opened = record {
              real_times = t;
              faked_times = f;
              run_once = s;
              accepted = valid;
            } in
            AllOk-bind (Keeps F opened) _ (set_start F w.system opened) _
              (set_start-Keeps w.system opened)
              (λ started k.
                AllOk-bind (Keeps F started) _ (first_request F w strtol started) _
                  (first_request-Keeps started)
                  (λ q k'.
                    Keeps-WellFormed F started q (Keeps-WellFormed F opened started h k) k')))))

  read_settings-RunOnce :
      (progname : List ℕ) (p : Process F)
      → RunOnce p.spawn
      → AllOk
          (λ r.
            (r.2.timecache ≡ p.timecache)
            × (r.2.faketimecache ≡ p.faketimecache)
            × RunOnce r.2.spawn)
          (read_settings F w strtol progname p)
  unfolding read_settings
  read_settings-RunOnce progname p h = AllOk-then _ (cache_settings F w strtol p.cache) _ (λ c.
      AllOk-then _ (command_skipped F w strtol progname) _ (λ skipped.
        AllOk-then _ (limit_settings F w strtol p.limits) _ (λ l.
          AllOk-bind (λ r. RunOnce r.1) _ (spawn_settings F w strtol p.spawn) _
            (spawn_settings-RunOnce F w strtol p.spawn h) (λ r h'. (refl, refl, h')))))

  ftpl_really_init-WellFormed :
      (a : Answers) (progname : List ℕ) (objects : Objects) (p : Process F)
      → AllCached p.timecache
      → AllCached p.faketimecache
      → RunOnce p.spawn
      → AllOk (λ r. WellFormed F r.1) (ftpl_really_init F w strtol a progname objects p)
  unfolding ftpl_really_init
  ftpl_really_init-WellFormed a progname objects p t f s =
      AllOk-then _ (attach_shared a (w.getenv "FAKETIME_DISABLE_SHM") objects) _ (λ page.
        AllOk-then _ (utime_disabled strtol (w.getenv "FAKE_UTIME")) _ (λ disabled.
          let q = record p { dont_fake = true; shared = page } in
          AllOk-bind _ _ (read_settings F w strtol progname q) _
            (read_settings-RunOnce progname q s)
            (λ r k.
              AllOk-bind (λ o. WellFormed F o.1) _ (open_and_start F w strtol a r.2) _
                (open_and_start-WellFormed a r.2 (rw k.0 t) (rw k.1 f) k.2) (λ o h. h))))

  -- A process whose cached times are still as the library is loaded, and in which the function that
  -- runs the external command has been called once where `spawned` is set and not at all otherwise,
  -- starts and then calls fake_clock_gettime any number of times: for any clocks, any normalised
  -- real times, any environment, files and disk in each call, and whatever the calls on the
  -- semaphore return. Unless it exits, every time that it returns has 0 to 999999999 nanoseconds,
  -- every cached time has so too or is still as loaded, the function that runs the command has been
  -- called at most once, as `spawned` says, and a file that is still replayed is one that the start
  -- has accepted.
  pub calls-ftpl_really_init-WellFormed :
      (a : Answers) (progname : List ℕ) (objects : Objects) (p : Process F) (cs : List (Call F))
      → p.timecache ≡ at_load
      → p.faketimecache ≡ at_load
      → RunOnce p.spawn
      → AllReal cs
      → AllOk
          (λ r. AllShown r.0 × WellFormed F r.1)
          (ftpl_really_init F w strtol a progname objects p >>= λ started. calls F cs started.1)
  calls-ftpl_really_init-WellFormed a progname objects p cs t f s n =
      AllOk-bind (λ r. WellFormed F r.1) _ (ftpl_really_init F w strtol a progname objects p) _
        (ftpl_really_init-WellFormed a progname objects p (rw t at_load-AllCached)
          (rw f at_load-AllCached) s)
        (λ started h. calls-WellFormed F cs started.1 n h)
