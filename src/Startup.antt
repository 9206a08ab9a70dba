-- ===== src/Startup.antt =====
-- ftpl_really_init of src/libfaketime.c behind its search for the real functions, which is in
-- Startup/Symbols: what the environment sets, the attachment to the shared objects, the start time,
-- and the first request. strdup and pthread_rwlock_init are taken to succeed.
pub mod Commands
pub mod Flags
pub mod Spawning
pub mod Files
pub mod Session
pub mod Stopped
pub mod Symbols
pub mod Laws
use libfaketime.Base.{
  Bool, true, false, not, ◌&&◌, ◌||◌, Option, none, some, List, [], ◌∷◌, ℕ, ◌==◌, ltb, length,
  if◌then◌else◌,
}
use libfaketime.Base.Int.{ℤ, negsuc, eqb_ℤ}
use libfaketime.Base.Text.{codes}
use libfaketime.Floats.{Floats}
use libfaketime.Outcome.{Outcome, ok, exits, ◌>>=◌}
use libfaketime.Shared.{Shared, SystemTime, system_time_to_shared, shared_to_system_time}
use libfaketime.SharedMemory.{Objects, Ending, returned, exited}
use libfaketime.SharedMemory.Attach.{Inherited, really_init}
use libfaketime.Process.{Process, User, noop}
use libfaketime.World.{World}
use libfaketime.Seeded.{Converted}
use libfaketime.Replay.{once, locked}
use libfaketime.Request.{parse_ft_string}
use libfaketime.Config.{read_config_file}
use libfaketime.Clock.{fake_monotonic_setting}
use Flags.{is_some, utime_disabled, cache_settings, command_skipped, limit_settings}
use Spawning.{Command, spawn_settings}
use Files.{open_save_file, open_load_file}

-- What only the start sets: fake_stat_disabled, fake_utime_disabled, the command and
-- user_faked_time_fmt.
pub record Flagged : Type 0 where
  pub stat_disabled : Bool
  pub utime_disabled : Bool
  pub command : Option Command
  pub format : List ℕ

-- The answers of the system: to the attachment with FAKETIME_FLSHM and the process number, and to
-- the opening of the two files.
pub record Answers : Type 0 where
  pub inherited : Inherited
  pub flush : Bool
  pub pid : ℕ
  pub save_opens : Bool
  pub load_content : Option (List ℕ)

-- sizeof(user_faked_time_fmt), which is BUFSIZ
abbrev pub format_room : ℕ
format_room = 8192

-- user_faked_time_fmt, from FAKETIME_FMT
pub time_format : Option (List ℕ) → Outcome (List ℕ)
time_format none = ok (codes "%Y-%m-%d %T")
time_format (some text) = if ltb (length text) format_room then ok text else exits 1

-- ft_shm_init is called unless FAKETIME_DISABLE_SHM is set to a text that does not begin with 0.
pub wants_shared : Option (List ℕ) → Bool
wants_shared none = true
wants_shared (some []) = false
wants_shared (some (c ∷ cs)) = c == b'0'

-- The page that the process is attached to when ft_shm_really_init returns.
attached : Ending × Objects → Outcome (Option Shared)
attached (returned, s) = ok s.page
attached (exited, s) = exits 1

pub attach_shared : Answers → Option (List ℕ) → Objects → Outcome (Option Shared)
unfolding wants_shared attached
attach_shared a disable objects =
    if wants_shared disable
    then attached (really_init a.inherited a.flush a.pid objects)
    else ok none

module _ (F : Floats) where
  -- ftpl_starttime: the first process puts its own into the shared data, and the others take it.
  pub set_start : SystemTime → Process F → Outcome (Process F)
  set_start now p = elim p.shared [
    | none ↦ ok (record p { start = now })
    | some s ↦ do
      let fresh = eqb_ℤ s.start_time_real.sub (negsuc 0)
      (s', events) ← locked once p.sem_events (if fresh then system_time_to_shared now s else s)
      ok (record p {
        start = if fresh then now else shared_to_system_time s;
        shared = some s';
        sem_events = events;
      })
  ]

  abbrev skip : Bool → Process F → Process F
  skip skipped p =
      let u = p.user in record p { user = if skipped then record u { mode = noop } else u }

module _ (F : Floats) (w : World F) (strtol : List ℕ → Converted ℤ) where
  -- The first request: FAKETIME or the configuration file.
  first_request : Process F → Outcome (Process F)
  first_request p = elim (w.getenv "FAKETIME") [
    | some text ↦ parse_ft_string F w text (record p { parse_config_file = false })
    | none ↦ read_config_file F w p >>= λ r. ok r.1
  ]

  -- From the cache settings to the spawn settings.
  pub read_settings : List ℕ → Process F → Outcome (Bool × Option Command × Process F)
  read_settings progname p = do
    c ← cache_settings F w strtol p.cache
    skipped ← command_skipped F w strtol progname
    l ← limit_settings F w strtol p.limits
    (command, s) ← spawn_settings F w strtol p.spawn
    ok (
      skipped,
      command,
      skip F skipped (record p {
        cache = c;
        limits = l;
        spawn = s;
        fake_monotonic_clock = fake_monotonic_setting F w p.fake_monotonic_clock;
      }),
    )

  -- From the files on.
  pub open_and_start : Answers → Process F → Outcome (List ℕ × Process F)
  unfolding first_request
  open_and_start a p = do
    out ← open_save_file (w.getenv "FAKETIME_SAVE_FILE") a.save_opens
    file ← open_load_file (w.getenv "FAKETIME_LOAD_FILE") a.load_content
    format ← time_format (w.getenv "FAKETIME_FMT")
    started ← set_start F w.system (record p { outfile = out; infile = file })
    q ← first_request started
    ok (format, q)

  -- ftpl_really_init behind the search for the real functions.
  pub ftpl_really_init : Answers → List ℕ → Objects → Process F → Outcome (Flagged × Process F)
  unfolding attach_shared read_settings open_and_start
  ftpl_really_init a progname objects p = do
    page ← attach_shared a (w.getenv "FAKETIME_DISABLE_SHM") objects
    disabled ← utime_disabled strtol (w.getenv "FAKE_UTIME")
    (skipped, command, q) ← read_settings progname (record p { dont_fake = true; shared = page })
    (format, r) ← open_and_start a q
    ok (
      record {
        stat_disabled = is_some (w.getenv "NO_FAKE_STAT");
        utime_disabled = disabled;
        command = command;
        format = format;
      },
      record r { dont_fake = skipped },
    )
