-- ===== src/Request/Parsed.antt =====
-- What parse_ft_string of src/libfaketime.c does with a new text, and with one without modifiers.
use libfaketime.Base.{ℕ, ◌-◌, none, List, [], ◌∷◌, take, ◌≡◌, ◌≢◌, refl}
use libfaketime.Base.Text.{find_char}
use libfaketime.Floats.{Floats}
use libfaketime.Outcome.{ok}
use libfaketime.Process.{Process, Mode, freeze, start_at, noop}
use libfaketime.World.{World}
use libfaketime.Request.{
  parse_ft_string, parse_new, parse_modifiers, set_mode, set_mode_unless_noop, buffer_length,
}

module _ (F : Floats) (w : World F) where
  pub parse_modifiers-none :
      (s : List ℕ) (p : Process F)
      → find_char b'x' s ≡ none
      → find_char b'i' s ≡ none
      → parse_modifiers F w s p ≡ ok p
  unfolding parse_modifiers
  parse_modifiers-none s p hx hi = rw (parse_modifiers, hx, hi) refl

  pub set_mode-awake :
      (m new : Mode) (p : Process F)
      → p.user.mode ≡ m
      → m ≢ noop
      → set_mode_unless_noop F new p ≡ set_mode F new p
  set_mode-awake freeze new p e h = rw e refl
  set_mode-awake start_at new p e h = rw e refl
  set_mode-awake noop new p e h = absurd (h refl)

  pub parse_ft_string-new :
      (c : ℕ) (cs : List ℕ) (p : Process F)
      → p.user.faked_time_saved ≡ []
      → parse_ft_string F w (c ∷ cs) p ≡ parse_new F w (c ∷ cs) p
  unfolding parse_ft_string
  parse_ft_string-new c cs p h = rw h refl

  abbrev pub remembers : List ℕ → Process F → Process F
  remembers t p =
      let u = p.user in
      record p { user = record u { faked_time_saved = take (buffer_length - 1) t } }
