-- ===== src/Wrapper/Frozen.antt =====
-- From the date program of src/faketime.c with --freeze to the clock that the library of
-- src/libfaketime.c shows.
use libfaketime.Base.{ℕ, true, false, none, some, List, [], ◌∷◌, ◌≡◌, ◌≢◌, ◌∙◌, refl, sym, arith}
use mathlib.Core.Path.{subst}
use libfaketime.Base.Int.{ℤ, pos}
use libfaketime.Base.Text.{codes, is_digit, find_char}
use libfaketime.Floats.{Floats}
use libfaketime.Outcome.{ok}
use libfaketime.TimeOps.{Time, time}
use libfaketime.TimeOps.Laws.{nanos_inj}
use libfaketime.TimeOps.Scale.{normalize_timespec_value}
use libfaketime.TimeOps.Scale.Laws.{normalize-nanos}
use libfaketime.Process.{Process, ClockId, freeze, noop}
use libfaketime.World.{World}
use libfaketime.Clock.{fake_clock_gettime}
use libfaketime.Clock.Calls.{Steady, is_cputime, steady_end, fake_clock_gettime-Steady}
use libfaketime.Request.{parse_ft_string, parse_new, dispatch, frozen_request, absolute_time}
use libfaketime.Request.Parsed.{
  parse_modifiers-none, parse_ft_string-new, set_mode-awake, remembers,
}
use libfaketime.Wrapper.{has_shape, looks_like_absolute_timestamp, frozen_value}

frozen_value-shape :
    (text t : List ℕ) → frozen_value text ≡ some t → looks_like_absolute_timestamp t ≡ true
unfolding frozen_value
frozen_value-shape text t e = ground arith

-- A character that is neither a digit nor in the template is not in the text.
shape-lacks :
    (c : ℕ) (shape s : List ℕ)
    → has_shape shape s ≡ true
    → is_digit c ≡ false
    → find_char c shape ≡ none
    → find_char c s ≡ none
unfolding has_shape
shape-lacks c [] [] h d e = refl
shape-lacks c [] (x ∷ s) h d e = cc
shape-lacks c (n ∷ shape) [] h d e = cc
shape-lacks c (n ∷ shape) (x ∷ s) h d e = ground (arith, shape-lacks c shape s)

abbrev template : List ℕ
template = codes "NNNN-NN-NN NN:NN:NN"

looks-lacks :
    (c : ℕ) (s : List ℕ)
    → looks_like_absolute_timestamp s ≡ true
    → is_digit c ≡ false
    → find_char c template ≡ none
    → find_char c s ≡ none
unfolding looks_like_absolute_timestamp
looks-lacks c s h d e = shape-lacks c template s h d e

starts_with_digit :
    (s : List ℕ)
    → looks_like_absolute_timestamp s ≡ true
    → (c : ℕ) × (cs : List ℕ) × (s ≡ c ∷ cs) × (is_digit c ≡ true)
unfolding looks_like_absolute_timestamp has_shape
starts_with_digit [] h = cc
starts_with_digit (c ∷ s) h = (c, s, refl, ground arith)

module _ (F : Floats) (w : World F) where
  -- A text that begins with a digit is a frozen time.
  dispatch-digit :
      (c : ℕ) (cs : List ℕ) (p : Process F)
      → is_digit c ≡ true
      → dispatch F w (c ∷ cs) p ≡ frozen_request F w (c ∷ cs) p
  unfolding dispatch
  dispatch-digit c cs p h = ground arith

  abbrev frozen_at : Time → Process F → Process F
  frozen_at t p =
      let u = p.user in
      record p { user = record u { mode = freeze; faked_time = t; faked_time_set = true } }

  absolute_time-whole :
      (t : List ℕ) (s : ℤ) → w.strptime t ≡ some (s, []) → absolute_time F w t ≡ ok (time s (pos 0))
  unfolding absolute_time
  absolute_time-whole t s h = rw (absolute_time, h) refl

  frozen_request-whole :
      (t : List ℕ) (s : ℤ) (p : Process F)
      → looks_like_absolute_timestamp t ≡ true
      → w.strptime t ≡ some (s, [])
      → p.user.mode ≢ noop
      → frozen_request F w t p ≡ ok (frozen_at (time s (pos 0)) p)
  unfolding frozen_request
  frozen_request-whole t s p shape hs hm =
      rw (absolute_time-whole t s hs, set_mode-awake F w p.user.mode freeze p refl hm)
        (parse_modifiers-none F w t (frozen_at (time s (pos 0)) p)
          (looks-lacks b'x' t shape refl refl) (looks-lacks b'i' t shape refl refl))

  parse_ft_string-frozen :
      (t : List ℕ) (s : ℤ) (p : Process F)
      → looks_like_absolute_timestamp t ≡ true
      → w.strptime t ≡ some (s, [])
      → p.user.mode ≢ noop
      → p.user.faked_time_saved ≡ []
      → parse_ft_string F w t p ≡ ok (remembers F w t (frozen_at (time s (pos 0)) p))
  unfolding parse_new
  parse_ft_string-frozen t s p shape hs hm fresh =
      let (c, cs, e, digit) = starts_with_digit t shape in
      subst (λ t'. parse_ft_string F w t' p ≡ ok (remembers F w t' (frozen_at (time s (pos 0)) p)))
        (sym e)
        (parse_ft_string-new F w c cs p fresh
          ∙ rw
              (
                dispatch-digit c cs p digit,
                frozen_request-whole (c ∷ cs) s p (rw (sym e) shape) (rw (sym e) hs) hm,
              )
              refl)

  normalize-whole : (s : ℤ) → normalize_timespec_value (time s (pos 0)) ≡ time s (pos 0)
  normalize-whole s =
      let n = normalize-nanos (time s (pos 0)) in nanos_inj _ _ n.0 (omega arith, omega arith) n.1

  -- `faketime --freeze`: where the date program's output is accepted as a timestamp and strptime
  -- reads the whole of it, the library parses what the wrapper passes on, and
  -- fake_clock_gettime then shows that second on each clock that is not of the CPU, whatever the
  -- real clock shows. The process has parsed no request before and does not leave the time alone,
  -- and it has a valid cache, no limits, no files and no ticks.
  pub frozen_value_shows :
      (text t : List ℕ) (s : ℤ) (p : Process F) (clk : ClockId) (tp : Time)
      → frozen_value text ≡ some t
      → w.strptime t ≡ some (s, [])
      → p.user.faked_time_saved ≡ []
      → p.user.mode ≢ noop
      → is_cputime clk ≡ false
      → Steady F w p
      → (q : Process F) × (parse_ft_string F w t p ≡ ok q)
        × (fake_clock_gettime F w clk tp q ≡ ok (pos 0, time s (pos 0), steady_end F w q clk tp))
  frozen_value_shows text t s p clk tp e hs fresh hm hc st =
      let q = remembers F w t (frozen_at (time s (pos 0)) p) in
      let st' : Steady F w q = record {
        awake = st.awake;
        unlimited = st.unlimited;
        no_spawn = st.no_spawn;
        cached = st.cached;
        no_infile = st.no_infile;
        no_outfile = st.no_outfile;
        no_ticks = st.no_ticks;
      } in
      (
        q,
        parse_ft_string-frozen t s p (frozen_value-shape text t e) hs hm fresh,
        fake_clock_gettime-Steady F w q clk tp hc st' (λ d. cc) ∙ rw (normalize-whole s) refl,
      )
