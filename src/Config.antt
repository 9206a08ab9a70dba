-- ===== src/Config.antt =====
-- The configuration file: prepare_config_contents, read_config_file and str_array_contains of
-- src/libfaketime.c.
pub mod Contents
pub mod SymbolList
pub mod Limit
pub mod Untouched
use libfaketime.Base.{
  not, ◌||◌, ℕ, ◌-◌, Bool, true, false, Option, none, some, List, [], ◌∷◌, ◌++◌, leb, ltb, ◌==◌,
  if◌then◌else◌, length, take, drop,
}
use libfaketime.Base.Text.{codes, find_char}
use libfaketime.Base.Int.{ℤ, pos, negsuc}
use libfaketime.Floats.{Floats}
use libfaketime.Outcome.{Outcome, ok, exits, ◌>>=◌}
use libfaketime.Process.{Process}
use libfaketime.World.{World, Read, chunk, read_error, File}
use libfaketime.Request.{parse_ft_string}
use Contents.{prepare_config_contents}

-- BUFSIZ of glibc
abbrev buffer_size : ℕ
buffer_size = 8192

-- snprintf into a path buffer: the path, or the empty string where it does not fit.
fitting_path : List ℕ → List ℕ
fitting_path path = if ltb (length path) buffer_size then path else []

-- How the last read() ended: at the end of the file, with bytes, or with an error.
pub data ReadEnd : Type 0 where
  at_end got_bytes failed : ReadEnd

-- The room in user_faked_time: sizeof(user_faked_time) - 1.
abbrev pub room : ℕ
room = 255

-- The reading loop; `last` is the sign of `bytes`.
pub read_loop : List Read → List ℕ → ReadEnd → List ℕ × ReadEnd × List Read
read_loop [] buffer last =
    if leb room (length buffer) then (buffer, last, []) else (buffer, at_end, [])
read_loop (read_error ∷ reads) buffer last =
    if leb room (length buffer) then (buffer, last, read_error ∷ reads) else (buffer, failed, reads)
read_loop (chunk [] ∷ reads) buffer last =
    if leb room (length buffer) then (buffer, last, chunk [] ∷ reads) else (buffer, at_end, reads)
read_loop (chunk (b ∷ bytes) ∷ reads) buffer last =
    let free = room - length buffer in
    let left = drop free (b ∷ bytes) in
    let rest = read_loop reads (buffer ++ (b ∷ bytes)) got_bytes in
    if leb room (length buffer) then (buffer, last, chunk (b ∷ bytes) ∷ reads) else elim left [
      | [] ↦ rest
      | c ∷ cs ↦ (buffer ++ take free (b ∷ bytes), got_bytes, chunk (c ∷ cs) ∷ reads)
    ]

pub has_nul : List ℕ → Bool
has_nul [] = false
has_nul (c ∷ cs) = c == 0 || has_nul cs

-- read(faketimerc, &extra, 1)
probe : List Read → ReadEnd
probe [] = at_end
probe (read_error ∷ reads) = failed
probe (chunk [] ∷ reads) = at_end
probe (chunk (b ∷ bytes) ∷ reads) = got_bytes

-- A full buffer is probed for one more byte if `bytes` is 0.
after_loop : List ℕ × ReadEnd × List Read → ReadEnd
after_loop (text, at_end, reads) = if length text == room then probe reads else at_end
after_loop (text, got_bytes, reads) = got_bytes
after_loop (text, failed, reads) = failed

-- The tests behind close(), and the text prepared; `none` is the return value -1.
accept : ReadEnd → List ℕ → Option (List ℕ)
accept at_end text = if has_nul text then none else some (prepare_config_contents text)
accept got_bytes text = none
accept failed text = none

pub read_file : File → Option (List ℕ)
unfolding read_loop has_nul after_loop accept probe
read_file file =
    let r = read_loop file.reads [] at_end in
    if not file.closes then none else accept (after_loop r) r.0

-- The first file that can be opened: the user's, the one in the home directory, the system's.
module _ (F : Floats) (w : World F) where
  or_open : Option File → List ℕ → Option File
  or_open (some file) path = some file
  or_open none [] = none
  or_open none (c ∷ path) = w.open_file (c ∷ path)

  custom_path : Option (List ℕ) → List ℕ
  custom_path none = []
  custom_path (some path) = fitting_path path

  home_path : Option (List ℕ) → List ℕ
  home_path none = []
  home_path (some []) = []
  home_path (some (c ∷ home)) = fitting_path ((c ∷ home) ++ codes "/.faketimerc")

  pub choose_file : Option File
  unfolding or_open custom_path home_path fitting_path
  choose_file =
      or_open
        (or_open (or_open none (custom_path (w.getenv "FAKETIME_TIMESTAMP_FILE")))
          (home_path (w.getenv "HOME")))
        (codes "/etc/faketimerc")

  -- read_config_file: its return value and the new state
  pub read_config_file : Process F → Outcome (ℤ × Process F)
  read_config_file p = elim choose_file [
    | none ↦ ok (pos 0, p)
    | some file ↦ elim (read_file file) [
      | none ↦ ok (negsuc 0, p)
      | some text ↦ do q ← parse_ft_string F w text p; ok (pos 1, q)
    ]
  ]
