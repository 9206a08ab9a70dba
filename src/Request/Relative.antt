-- ===== src/Request/Relative.antt =====
-- An offset of whole seconds in FAKETIME, as parse_ft_string of src/libfaketime.c reads it.
use libfaketime.Base.{
  ℕ, true, false, none, some, List, [], ◌∷◌, ◌≡◌, ◌≢◌, ◌∙◌, refl, arith, ◌⊎◌, inl, inr,
}
use libfaketime.Base.Int.{ℤ, pos, ◌≤ℤ◌, ◌<ℤ◌, leb_ℤ, ltb_ℤ}
use libfaketime.Base.Text.{find_char}
use libfaketime.Floats.{Floats}
use libfaketime.Outcome.{ok}
use libfaketime.TimeOps.{time, timespecadd, sec_to_nsec, time_min, time_max}
use libfaketime.Process.{Process, start_at, noop}
use libfaketime.World.{World}
use libfaketime.Request.Double.{double_to_timespec, parse_finite_double_prefix}
use libfaketime.Request.{
  parse_ft_string, parse_new, dispatch, relative_request, offset_time, or_exit, unit_seconds,
  skip_spaces, ends_offset,
}
use libfaketime.Request.Parsed.{
  parse_modifiers-none, parse_ft_string-new, set_mode-awake, remembers,
}

-- The number is one of time_t.
abbrev pub Is64 : ℤ → Type 0
Is64 n = (time_min ≤ℤ n) × (n ≤ℤ time_max)

module _ (F : Floats) where
  open F use {of_ℤ, of_double, floor, sub, mul, le, lt, trunc, is_finite_double, double_of_ℤ}

  -- A `long double` holds every integer of 64 bits, as on x86.
  pub record HoldsIntegers : Type 0 where
    pub trunc_of_ℤ : (n : ℤ) → Is64 n → trunc (of_ℤ n) ≡ n
    pub floor_of_ℤ : (n : ℤ) → Is64 n → floor (of_ℤ n) ≡ of_ℤ n
    pub le_of_ℤ : (a b : ℤ) → Is64 a → Is64 b → le (of_ℤ a) (of_ℤ b) ≡ leb_ℤ a b
    pub lt_of_ℤ : (a b : ℤ) → Is64 a → Is64 b → lt (of_ℤ a) (of_ℤ b) ≡ ltb_ℤ a b
    pub sub_self : (n : ℤ) → Is64 n → sub (of_ℤ n) (of_ℤ n) ≡ of_ℤ (pos 0)
    pub mul_zero : (n : ℕ) → Is64 (pos n) → mul (of_ℤ (pos 0)) (of_ℤ (pos n)) ≡ of_ℤ (pos 0)

  -- A `double` holds the integer, as it does up to 2 ^ 53.
  pub record IsExact (z : ℤ) : Type 0 where
    pub finite : is_finite_double (double_of_ℤ z) ≡ true
    pub same : of_double (double_of_ℤ z) ≡ of_ℤ z

  double_to_timespec-whole :
      (z : ℤ)
      → HoldsIntegers
      → IsExact z
      → time_min <ℤ z
      → z <ℤ time_max
      → double_to_timespec F (double_of_ℤ z) ≡ some (time z (pos 0))
  unfolding double_to_timespec
  double_to_timespec-whole z h e lo hi =
      let fits : Is64 z = (omega arith, omega arith) in
      let zero : Is64 (pos 0) = (omega arith, omega arith) in
      let largest : Is64 time_max = (omega arith, omega arith) in
      let least : Is64 time_min = (omega arith, omega arith) in
      let unit : Is64 (pos sec_to_nsec) = (omega arith, omega arith) in
      rw
        (
          e.finite,
          e.same,
          h.floor_of_ℤ z fits,
          h.sub_self z fits,
          h.mul_zero sec_to_nsec unit,
          h.trunc_of_ℤ (pos 0) zero,
          h.trunc_of_ℤ z fits,
          h.le_of_ℤ (pos 0) z zero fits,
          h.le_of_ℤ time_max z largest fits,
          h.lt_of_ℤ z (pos 0) fits zero,
          h.le_of_ℤ z time_min fits least,
        )
        (ground arith)

module _ (F : Floats) (w : World F) where
  open F use {double_of_ℤ}

  -- strtod reads the whole text as the integer.
  abbrev pub Reads : List ℕ → ℤ → Type 0
  Reads text z =
      w.strtod text ≡ record { value = double_of_ℤ z; rest = []; converted = true; erange = false }

  offset_time-whole :
      (text : List ℕ) (z : ℤ)
      → HoldsIntegers F
      → IsExact F z
      → Reads text z
      → time_min <ℤ z
      → z <ℤ time_max
      → offset_time F w text ≡ ok (time z (pos 0))
  unfolding offset_time parse_finite_double_prefix unit_seconds skip_spaces ends_offset or_exit
  offset_time-whole text z h e r lo hi =
      rw (r, e.finite, double_to_timespec-whole F z h e lo hi) refl

  abbrev pub moved_by : ℤ → Process F → Process F
  moved_by z p =
      let u = p.user in
      record p {
        user = record u {
          mode = start_at;
          offset = time z (pos 0);
          faked_time = timespecadd p.start.real (time z (pos 0));
        };
      }

  relative_request-whole :
      (text : List ℕ) (z : ℤ) (p : Process F)
      → HoldsIntegers F
      → IsExact F z
      → Reads text z
      → time_min <ℤ z
      → z <ℤ time_max
      → find_char b'x' text ≡ none
      → find_char b'i' text ≡ none
      → p.user.mode ≢ noop
      → relative_request F w text p ≡ ok (moved_by z p)
  unfolding relative_request
  relative_request-whole text z p h e r lo hi hx hi' hm =
      let u = p.user in
      let q = record p {
        user = record u {
          offset = time z (pos 0);
          faked_time = timespecadd p.start.real (time z (pos 0));
        };
      } in
      rw (offset_time-whole text z h e r lo hi, set_mode-awake F w p.user.mode start_at q refl hm)
        (parse_modifiers-none F w text (moved_by z p) hx hi')

  dispatch-sign :
      (c : ℕ) (cs : List ℕ) (p : Process F)
      → (c ≡ b'+') ⊎ (c ≡ b'-')
      → dispatch F w (c ∷ cs) p ≡ relative_request F w (c ∷ cs) p
  unfolding dispatch
  dispatch-sign c cs p (inl e) = rw e refl
  dispatch-sign c cs p (inr e) = rw e refl

  -- A first request of a sign and digits that strtod reads as a whole number of seconds.
  pub parse_ft_string-relative :
      (c : ℕ) (cs : List ℕ) (z : ℤ) (p : Process F)
      → HoldsIntegers F
      → IsExact F z
      → Reads (c ∷ cs) z
      → time_min <ℤ z
      → z <ℤ time_max
      → (c ≡ b'+') ⊎ (c ≡ b'-')
      → find_char b'x' (c ∷ cs) ≡ none
      → find_char b'i' (c ∷ cs) ≡ none
      → p.user.mode ≢ noop
      → p.user.faked_time_saved ≡ []
      → parse_ft_string F w (c ∷ cs) p ≡ ok (remembers F w (c ∷ cs) (moved_by z p))
  unfolding parse_new
  parse_ft_string-relative c cs z p h e r lo hi sign hx hi' hm fresh =
      parse_ft_string-new F w c cs p fresh
      ∙ rw (dispatch-sign c cs p sign, relative_request-whole (c ∷ cs) z p h e r lo hi hx hi' hm)
          refl
