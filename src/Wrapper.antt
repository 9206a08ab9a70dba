-- ===== src/Wrapper.antt =====
-- The wrapper program of src/faketime.c: its switches, the output of the date program, and the
-- value of FAKETIME. setenv is taken to succeed; strtol belongs to the C library and is a
-- parameter.
pub mod Switches
pub mod Life
pub mod Reading
pub mod Frozen
pub mod Offset
pub mod Environment
pub mod Program
use libfaketime.Base.{
  ℕ, suc, ◌-◌, ◌^◌, Bool, true, false, not, ◌&&◌, ◌||◌, Option, none, some, List, [], ◌∷◌, ◌++◌,
  length, take, ltb, ◌==◌, if◌then◌else◌,
}
use libfaketime.Base.Int.{ℤ, pos, negsuc, ◌-ℤ◌, leb_ℤ}
use libfaketime.Base.Text.{codes, is_digit, is_space}
use libfaketime.TimeOps.{time_max, time_min}
use libfaketime.Seeded.{Converted}
use libfaketime.Shared.Names.{skip_spaces}
use libfaketime.SharedMemory.{decimal}
use Switches.{Options}

-- parse_date_seconds; `none` is the return value false.
unfoldable pub parse_date_seconds : (List ℕ → Converted ℤ) → List ℕ → Option ℤ
parse_date_seconds strtol value =
    let r = strtol value in
    if not r.converted || r.erange
    then none
    else elim (skip_spaces r.rest) [ [] ↦ some r.value | c ∷ cs ↦ none ]

-- The loop of looks_like_absolute_timestamp.
unfoldable pub has_shape : List ℕ → List ℕ → Bool
has_shape [] [] = true
has_shape [] (c ∷ cs) = false
has_shape (n ∷ ns) [] = false
has_shape (n ∷ ns) (c ∷ cs) = (if n == b'N' then is_digit c else c == n) && has_shape ns cs

unfoldable pub looks_like_absolute_timestamp : List ℕ → Bool
unfolding has_shape
looks_like_absolute_timestamp s = has_shape (codes "NNNN-NN-NN NN:NN:NN") s

-- What read gives for one byte: the byte, EINTR, or another error. The list ends with the output.
pub data ReadByte : Type 0 where
  byte : ℕ → ReadByte
  interrupted failed : ReadByte

-- sizeof(buf) - 1
abbrev pub room : ℕ
room = 255

-- The loop that reads the date program's output: buf and output_overflow, or `none` on an error.
unfoldable pub read_output : List ReadByte → List ℕ → Bool → Option (List ℕ × Bool)
read_output [] buf overflow = some (buf, overflow)
read_output (interrupted ∷ reads) buf overflow = read_output reads buf overflow
read_output (failed ∷ reads) buf overflow = none
read_output (byte b ∷ reads) buf overflow =
    let fits = ltb (length buf) room in
    read_output reads (if fits then buf ++ b ∷ [] else buf) (if fits then overflow else true)

-- The buffer as a C string.
unfoldable pub c_string : List ℕ → List ℕ
c_string [] = []
c_string (c ∷ cs) = let rest = c_string cs in if c == 0 then [] else c ∷ rest

-- The loop that cuts white space off the end.
unfoldable pub trim_end : List ℕ → List ℕ
trim_end [] = []
trim_end (c ∷ cs) =
    let rest = trim_end cs in
    elim rest [ [] ↦ if is_space c then [] else c ∷ [] | d ∷ ds ↦ c ∷ d ∷ ds ]

-- "%s%ld" with the sign of an offset that is not negative
unfoldable pub offset_text : ℤ → List ℕ
offset_text (pos n) = b'+' ∷ decimal n
offset_text (negsuc n) = b'-' ∷ decimal (suc n)

-- FAKETIME for --freeze; `none` is the exit with EXIT_FAILURE.
unfoldable pub frozen_value : List ℕ → Option (List ℕ)
unfolding trim_end
frozen_value text =
    let t = trim_end text in if looks_like_absolute_timestamp t then some t else none

-- FAKETIME without --freeze; `now` is what time(NULL) returns.
unfoldable pub offset_value : (List ℕ → Converted ℤ) → ℤ → List ℕ → Option (List ℕ)
unfolding parse_date_seconds offset_text
offset_value strtol now text = elim (parse_date_seconds strtol text) [
  | none ↦ none
  | some seconds ↦
      let offset = seconds -ℤ now in
      if leb_ℤ time_min offset && leb_ℤ offset time_max then some (offset_text offset) else none
]

-- The value of FAKETIME from the date program's output, where it could be started; `success` says
-- that it was waited for and exited with EXIT_SUCCESS.
unfoldable pub date_value :
    (List ℕ → Converted ℤ) → ℤ → Bool → Bool → Option (List ℕ × Bool) → Option (List ℕ)
unfolding c_string frozen_value offset_value
date_value strtol now freeze success none = none
date_value strtol now freeze success (some (buf, overflow)) =
    if overflow || not success
    then none
    else if freeze
    then frozen_value (c_string buf)
    else offset_value strtol now (c_string buf)

-- FAKETIME, from the switches and the first argument behind them.
unfoldable pub faketime_value :
    (List ℕ → Converted ℤ) → ℤ → Options → List ℕ → Bool → List ReadByte → Option (List ℕ)
unfolding date_value read_output
faketime_value strtol now o timestamp success reads =
    if o.use_direct
    then (if o.freeze_clock then none else some timestamp)
    else date_value strtol now o.freeze_clock success (read_output reads [] false)
