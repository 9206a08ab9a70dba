-- ===== src/Request.antt =====
-- parse_ft_string of src/libfaketime.c: the user's request, with the helpers that convert doubles.
-- EXIT_FAILURE is 1.
pub mod Double
pub mod Laws
pub mod Parsed
pub mod Relative
pub mod Untouched
use Prim.Native.String.{String}
use libfaketime.Base.{
  ℕ, ◌-◌, Bool, true, false, not, ◌&&◌, ◌||◌, Option, none, some, List, [], ◌∷◌, ◌==◌,
  if◌then◌else◌, length, take, drop,
}
use libfaketime.Base.Int.{ℤ, pos, ◌+ℤ◌, leb_ℤ, ltb_ℤ}
use libfaketime.Base.Text.{same_text, find_char, is_space}
use libfaketime.Floats.{Floats}
use libfaketime.Outcome.{Outcome, ok, exits, ◌>>=◌}
use libfaketime.TimeOps.{Time, time, timespecadd}
use libfaketime.Shared.{SystemTime}
use libfaketime.Process.{Process, User, Mode, freeze, start_at, noop}
use libfaketime.World.{World}
use libfaketime.Replay.{reset_time}
use Double.{
  parse_finite_double_prefix, parse_finite_double, scale_finite_double, double_to_timespec,
  fraction_nsec,
}

abbrev pub buffer_length : ℕ
buffer_length = 256

pub is_set {ℓ} : {A : Type ℓ} → Option A → Bool
is_set none = false
is_set (some a) = true

pub or_exit {ℓ} : {A : Type ℓ} → Option A → Outcome A
or_exit none = exits 1
or_exit (some a) = ok a

module _ (F : Floats) where
  open F use {Double, is_positive}

  abbrev pub set_mode : Mode → Process F → Process F
  set_mode m p = let u = p.user in record p { user = record u { mode = m } }

  -- if (ft_mode != FT_NOOP) ft_mode = m
  abbrev pub set_mode_unless_noop : Mode → Process F → Process F
  set_mode_unless_noop m p = elim p.user.mode [ noop ↦ p | _ ↦ set_mode m p ]

  abbrev pub set_faked_time : Time → Process F → Process F
  set_faked_time t p = let u = p.user in record p { user = record u { faked_time = t } }

  abbrev pub mark_faked_time_set : Process F → Process F
  mark_faked_time_set p = let u = p.user in record p { user = record u { faked_time_set = true } }

module _ (F : Floats) (w : World F) where
  -- strptime and mktime, then the optional fraction behind a '.', which is parsed from the digit
  -- in front of it.
  unfoldable pub absolute_time : List ℕ → Outcome Time
  absolute_time text = elim (w.strptime text) [
    | none ↦ exits 1
    | some (s, rest) ↦ elim rest [
      | [] ↦ ok (time s (pos 0))
      | c ∷ rest' ↦
          if c == b'.'
          then elim (parse_finite_double_prefix F w
              (drop (length text - length (c ∷ rest') - 1) text)) [
                | none ↦ exits 1
                | some (d, end) ↦ ok (time s (fraction_nsec F d))
              ]
          else ok (time s (pos 0))
    ]
  ]

  -- The seconds in the unit letter behind the number of an offset.
  unit_seconds : List ℕ → ℕ × List ℕ
  unit_seconds [] = (1, [])
  unit_seconds (c ∷ rest) =
      if c == b'm'
      then (60, rest)
      else if c == b'h'
      then (3600, rest)
      else if c == b'd'
      then (86400, rest)
      else if c == b'y'
      then (31536000, rest)
      else (1, c ∷ rest)

  skip_spaces : List ℕ → List ℕ
  skip_spaces [] = []
  skip_spaces (c ∷ cs) = if is_space c then skip_spaces cs else c ∷ cs

  -- What may follow an offset: nothing, or a modifier.
  ends_offset : List ℕ → Bool
  ends_offset [] = true
  ends_offset (c ∷ cs) = (c == b'x') || (c == b'i')

  -- The offset of a text that begins with '+' or '-'.
  pub offset_time : List ℕ → Outcome Time
  unfolding unit_seconds skip_spaces ends_offset
  offset_time text = do
    (d, end) ← or_exit (parse_finite_double_prefix F w text)
    let unit = unit_seconds end
    scaled ←
        (if not (ends_offset (skip_spaces unit.1))
          then exits 1
          else if unit.0 == 1
          then ok d
          else or_exit (scale_finite_double F d (F.double_of_ℤ (pos unit.0))))
    or_exit (double_to_timespec F scaled)

  -- FAKETIME_XRESET: go on from the last time that was faked.
  restart_at_cache : Process F → Process F
  restart_at_cache p =
      let u = p.user in
      record p { user = record u { faked_time = p.faketimecache.real }; start = p.timecache }

  xreset : Process F → Process F
  unfolding restart_at_cache
  xreset p =
      let restarted = restart_at_cache p in
      if is_set (w.getenv "FAKETIME_XRESET") && leb_ℤ (pos 0) p.timecache.real.sub
      then restarted
      else p

  -- The label parse_modifiers.
  unfoldable pub parse_modifiers : List ℕ → Process F → Outcome (Process F)
  unfolding xreset
  parse_modifiers text p = elim (find_char b'x' text) [
    | some rate_text ↦ do
      d ← or_exit (parse_finite_double F w (drop 1 rate_text))
      let u = p.user
      let q = xreset (record p { user = record u { rate = d; rate_set = true } })
      if F.is_positive d then ok q else exits 1
    | none ↦ elim (find_char b'i' text) [
      | none ↦ ok p
      | some tick_text ↦ do
        d ← or_exit (parse_finite_double F w (drop 1 tick_text))
        inc ← or_exit (double_to_timespec F d)
        let u = p.user
        ok (record p { user = record u { per_tick_inc = inc; per_tick_inc_set = true } })
    ]
  ]

  -- if (NULL == getenv("FAKETIME_DONT_RESET")) reset_time()
  reset_unless_told : Process F → Outcome (Process F)
  reset_unless_told p =
      if is_set (w.getenv "FAKETIME_DONT_RESET") then ok p else reset_time F w.system p

  -- case '%': the time is that of a file.
  follow_file : List ℕ → Process F → Outcome (Process F)
  unfolding reset_unless_told
  follow_file text p = do
    name ← or_exit (w.getenv "FAKETIME_FOLLOW_FILE")
    t ← or_exit (w.mtime name)
    let started = set_mode F start_at p
    q ← reset_unless_told (
        if is_set (w.getenv "FAKETIME_FOLLOW_ABSOLUTE")
        then mark_faked_time_set F (set_mode F freeze (set_faked_time F t started))
        else set_faked_time F (time t.sec (pos 0)) started)
    (if q.user.faked_time_set then ok q else parse_modifiers text q)

  -- case '+' and case '-'
  relative_request : List ℕ → Process F → Outcome (Process F)
  relative_request text p = do
    o ← offset_time text
    let u = p.user
    let t = timespecadd p.start.real o
    parse_modifiers text (
        set_mode_unless_noop F start_at
          (record p { user = record u { offset = o; faked_time = t } }))

  -- case '@'
  started_request : List ℕ → Process F → Outcome (Process F)
  started_request text p = do
    t ← absolute_time (drop 1 text)
    q ← reset_unless_told (set_faked_time F t (set_mode F start_at p))
    parse_modifiers text q

  -- default
  unfoldable pub frozen_request : List ℕ → Process F → Outcome (Process F)
  frozen_request text p = do
    t ← absolute_time text
    parse_modifiers text
        (mark_faked_time_set F (set_faked_time F t (set_mode_unless_noop F freeze p)))

  abbrev pub first_char : List ℕ → ℕ
  first_char [] = 0
  first_char (c ∷ cs) = c

  -- The switch on the first character.
  unfoldable pub dispatch : List ℕ → Process F → Outcome (Process F)
  unfolding relative_request started_request frozen_request follow_file reset_unless_told
  dispatch text p =
      let c = first_char text in
      if c == b'+' || c == b'-'
      then relative_request text p
      else if c == b'@'
      then started_request text p
      else if c == b'%'
      then follow_file text p
      else if c == b'i' || c == b'x'
      then parse_modifiers text p
      else frozen_request text p

  unfoldable pub parse_new : List ℕ → Process F → Outcome (Process F)
  parse_new text p = do
    q ← dispatch text p
    let u = q.user
    ok (record q { user = record u { faked_time_saved = take (buffer_length - 1) text } })

  -- parse_ft_string: a text that has not changed is not parsed again, unless it begins with '%'.
  unfoldable pub parse_ft_string : List ℕ → Process F → Outcome (Process F)
  unfolding parse_new
  parse_ft_string text p =
      if same_text (take buffer_length text) (take buffer_length p.user.faked_time_saved)
        && not (first_char text == b'%')
      then ok p
      else parse_new text p
