-- ===== src/SetTime.antt =====
-- Setting of the clock: clock_settime, settimeofday and adjtime of src/libfaketime.c. The text of
-- "%+f" belongs to the C library and is the parameter `print`. A difference of times that overflows
-- wraps around in 64 bits, as on the machine; in C it is undefined.
pub mod Laws
use libfaketime.Base.{
  ℕ, ◌-◌, ◌^◌, Bool, true, false, not, ◌&&◌, ◌||◌, Option, none, some, List, [], ◌∷◌, ◌++◌, length,
  ltb, if◌then◌else◌,
}
use libfaketime.Base.Int.{wrap64, ℤ, pos, negsuc, ◌+ℤ◌, ◌-ℤ◌, ◌*ℤ◌}
use libfaketime.Base.Text.{codes, same_text}
use libfaketime.Floats.{Floats}
use libfaketime.Outcome.{Outcome, ok, ◌>>=◌}
use libfaketime.TimeOps.{Time, time, sec_to_nsec}
use libfaketime.Process.{Process, ClockId, realtime}
use libfaketime.World.{World}
use libfaketime.Clock.{clock_gettime}

-- sizeof(newenv_string), and BUFSIZ
abbrev pub text_room : ℕ
text_room = 256

abbrev pub path_room : ℕ
path_room = 8192

-- The clock is CLOCK_REALTIME.
abbrev pub settable : ClockId → Bool
settable realtime = true
settable _ = false

module _ (F : Floats) where
  -- What a call leaves: its result, the process, FAKETIME if it was set, and the file that was
  -- written, with its path.
  pub record Set : Type 0 where
    pub result : ℤ
    pub process : Process F
    pub variable : Option (List ℕ)
    pub file : Option (List ℕ × List ℕ)

  abbrev unchanged : ℤ → Process F → Set
  unchanged r p = record { result = r; process = p; variable = none; file = none }

module _ (F : Floats) (w : World F) (print : F.Double → List ℕ) where
  open F use {Double, plus, quotient, double_of_ℤ}

  -- offset: from the real time to the new one, by sec_diff and nsec_diff
  pub offset_between : Time → Time → Double
  offset_between tp current =
      plus (double_of_ℤ (wrap64 (tp.sec -ℤ current.sec)))
        (quotient (double_of_ℤ (wrap64 (tp.sub -ℤ current.sub))) (double_of_ℤ (pos sec_to_nsec)))

  -- The file of FAKETIME_TIMESTAMP_FILE, if it is to be updated too: its path and text. `opens`
  -- says whether it can be opened and written; an error is only reported.
  updated_file : Bool → List ℕ → Option (List ℕ × List ℕ)
  updated_file opens text = elim (w.getenv "FAKETIME_TIMESTAMP_FILE") [
    | none ↦ none
    | some [] ↦ none
    | some (c ∷ path) ↦ elim (w.getenv "FAKETIME_UPDATE_TIMESTAMP_FILE") [
      | none ↦ none
      | some update ↦
          if same_text update (codes "1") && (ltb (length (c ∷ path)) path_room && opens)
          then some (c ∷ path, text ++ 10 ∷ [])
          else none
    ]
  ]

  -- From setenv on.
  set_variable : Bool → Bool → List ℕ → Process F → Set F
  unfolding updated_file
  set_variable sets opens text p =
      let from_env = record p { parse_config_file = false } in
      let c = p.cache in
      if not sets then unchanged F (negsuc 0) from_env else record {
        result = pos 0;
        process = record from_env { cache = record c { force_expiration = true } };
        variable = some text;
        file = updated_file opens text;
      }

  -- clock_settime; `real` is the real time, `sets` says whether setenv succeeds, and `none` stands
  -- for NULL.
  pub clock_settime : Time → Bool → Bool → ClockId → Option Time → Process F → Set F
  unfolding offset_between set_variable
  clock_settime real sets opens clk none p = unchanged F (negsuc 0) p
  clock_settime real sets opens clk (some tp) p =
      let text = print (offset_between tp real) in
      if not (settable clk)
      then unchanged F (negsuc 0) p
      else if ltb (length text) text_room
      then set_variable sets opens text p
      else unchanged F (negsuc 0) p

  abbrev succeeds : Set F → Set F
  succeeds s = record s { result = pos 0 }

  -- settimeofday: microseconds, and the result of clock_settime is not looked at.
  pub settimeofday : Time → Bool → Bool → Option Time → Process F → Set F
  unfolding clock_settime
  settimeofday real sets opens none p = unchanged F (negsuc 0) p
  settimeofday real sets opens (some tv) p =
      succeeds (clock_settime real sets opens realtime (some (time tv.sec (tv.sub *ℤ 1000))) p)

  adjusted : Time → Bool → Bool → Time → ℤ × Option Time × Process F → Outcome (Set F)
  unfolding clock_settime
  adjusted real sets opens delta (r, none, p) = ok (unchanged F (pos 0) p)
  adjusted real sets opens delta (r, some now, p) = ok (
      succeeds (
        clock_settime real sets opens realtime
          (some (time (now.sec +ℤ delta.sec) (now.sub +ℤ delta.sub *ℤ 1000))) p))

  -- adjtime, where the real clock can be read: the fake clock jumps by `delta` at once, and
  -- *olddelta is always 0.
  pub adjtime : Time → Bool → Bool → Option Time → Process F → Outcome (Set F)
  unfolding adjusted
  adjtime real sets opens none p = ok (unchanged F (pos 0) p)
  adjtime real sets opens (some delta) p =
      clock_gettime F w (some real) realtime p >>= adjusted real sets opens delta
