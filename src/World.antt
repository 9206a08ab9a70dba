-- ===== src/World.antt =====
-- What one call meets outside the process: the real clocks, the environment variables, the files,
-- and the C library's conversions of text. The C library is not part of the program, so its
-- conversions are parameters.
use Prim.Native.String.{String}
use libfaketime.Base.{ℕ, Bool, Option, List}
use libfaketime.Base.Int.{ℤ}
use libfaketime.Floats.{Floats}
use libfaketime.TimeOps.{Time}
use libfaketime.Shared.{SystemTime}
use libfaketime.Replay.Write.{WriteResult}

-- What strtod leaves: the value, `*end`, whether anything was converted, and errno == ERANGE.
pub record Strtod (F : Floats) : Type 0 where
  pub value : F.Double
  pub rest : List ℕ
  pub converted : Bool
  pub erange : Bool

-- What read() finds: bytes (which one call or several take), or an error.
pub data Read : Type 0 where
  chunk : List ℕ → Read
  read_error : Read

-- An open file: its reads up to the end of the file, and whether close() succeeds.
pub record File : Type 0 where
  pub reads : List Read
  pub closes : Bool

pub record World (F : Floats) : Type 0 where
  -- real_clock_gettime(CLOCK_REALTIME), and what system_time_from_system reads
  pub now : Time
  pub system : SystemTime
  pub getenv : String → Option (List ℕ)
  pub strtod : List ℕ → Strtod F
  -- strptime with the format user_faked_time_fmt, then mktime: the seconds and the rest of the text
  pub strptime : List ℕ → Option (ℤ × List ℕ)
  -- st_mtim of a file, where stat succeeds
  pub mtime : List ℕ → Option Time
  pub open_file : List ℕ → Option File
  -- what the n-th write() to the timestamp file returns
  pub disk : ℕ → WriteResult
