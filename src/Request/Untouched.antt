-- ===== src/Request/Untouched.antt =====
-- What parse_ft_string of src/libfaketime.c leaves alone: the cached times, the external command
-- and the file that is replayed.
use libfaketime.Base.{
  ℕ, ◌&&◌, ◌||◌, not, true, false, ◌==◌, List, ◌∙◌, drop, take, refl, if◌then◌else◌, Bool,
}
use libfaketime.Base.Int.{leb_ℤ, pos}
use libfaketime.Base.Text.{find_char, same_text}
use libfaketime.Floats.{Floats}
use libfaketime.Outcome.{Outcome, ok, exits, ◌>>=◌}
use libfaketime.Outcome.Laws.{AllOk, AllOk-then, AllOk-bind, AllOk-if, AllOk-option}
use libfaketime.TimeOps.{time, timespecadd}
use libfaketime.Process.{Process, Mode, freeze, start_at, noop}
use libfaketime.World.{World}
use libfaketime.Replay.Untouched.{Keeps, reset_time-Keeps}
use libfaketime.Request.{
  parse_ft_string, parse_new, dispatch, parse_modifiers, xreset, restart_at_cache,
  reset_unless_told, follow_file, relative_request, started_request, frozen_request,
  set_mode_unless_noop, set_mode, set_faked_time, mark_faked_time_set, buffer_length, first_char,
  is_set, or_exit, offset_time, absolute_time,
}
use libfaketime.Request.Double.{parse_finite_double, double_to_timespec}

module _ (F : Floats) where
  set_mode_unless_noop-Keeps : (m : Mode) (p : Process F) → Keeps F p (set_mode_unless_noop F m p)
  set_mode_unless_noop-Keeps m p = by_mode p.user.mode
    where
      by_mode : (old : Mode) → Keeps F p (elim old [ noop ↦ p | _ ↦ set_mode F m p ])
      by_mode noop = refl
      by_mode freeze = refl
      by_mode start_at = refl

  Keeps-if :
      (b : Bool) (p q r : Process F) → Keeps F p q → Keeps F p r → Keeps F p (if b then q else r)
  Keeps-if true p q r h h' = h
  Keeps-if false p q r h h' = h'

  -- A run that keeps what another one has kept.
  pub Keeps-on :
      (p q : Process F) (o : Outcome (Process F))
      → Keeps F p q
      → AllOk (Keeps F q) o
      → AllOk (Keeps F p) o
  Keeps-on p q (ok r) h h' = h' ∙ h
  Keeps-on p q (exits n) h h' = tt

module _ (F : Floats) (w : World F) where
  xreset-Keeps : (p : Process F) → Keeps F p (xreset F w p)
  unfolding xreset restart_at_cache
  xreset-Keeps p =
      Keeps-if F (is_set (w.getenv "FAKETIME_XRESET") && leb_ℤ (pos 0) p.timecache.real.sub) p _ p
        refl refl

  parse_modifiers-Keeps :
      (text : List ℕ) (p : Process F) → AllOk (Keeps F p) (parse_modifiers F w text p)
  unfolding parse_modifiers
  parse_modifiers-Keeps text p =
      AllOk-option (Keeps F p) (find_char b'x' text) _ _
        (AllOk-option (Keeps F p) (find_char b'i' text) _ _ refl (λ tick_text e.
          AllOk-then _ (or_exit (parse_finite_double F w (drop 1 tick_text))) _
            (λ d. AllOk-then _ (or_exit (double_to_timespec F d)) _ (λ inc. refl))))
        (λ rate_text e. AllOk-then _ (or_exit (parse_finite_double F w (drop 1 rate_text))) _ (λ d.
          let u = p.user in
          AllOk-if (Keeps F p) (F.is_positive d) _ _
            (xreset-Keeps (record p { user = record u { rate = d; rate_set = true } })) tt))

  reset_unless_told-Keeps : (p : Process F) → AllOk (Keeps F p) (reset_unless_told F w p)
  unfolding reset_unless_told
  reset_unless_told-Keeps p =
      AllOk-if (Keeps F p) (is_set (w.getenv "FAKETIME_DONT_RESET")) _ _ refl
        (reset_time-Keeps F w.system p)

  -- A request whose time is known, and its modifiers.
  timed-Keeps :
      (text : List ℕ) (p : Process F) (o : Outcome (Process F))
      → AllOk (Keeps F p) o
      → AllOk (Keeps F p) (o >>= λ q. parse_modifiers F w text q)
  timed-Keeps text p o h =
      AllOk-bind (Keeps F p) _ o _ h (λ q k. Keeps-on F p q _ k (parse_modifiers-Keeps text q))

  follow_file-Keeps : (text : List ℕ) (p : Process F) → AllOk (Keeps F p) (follow_file F w text p)
  unfolding follow_file
  follow_file-Keeps text p = AllOk-then _ (or_exit (w.getenv "FAKETIME_FOLLOW_FILE")) _ (λ name.
      AllOk-then _ (or_exit (w.mtime name)) _ (λ t.
        let started = set_mode F start_at p in
        let followed : Process F =
          (if is_set (w.getenv "FAKETIME_FOLLOW_ABSOLUTE")
            then mark_faked_time_set F (set_mode F freeze (set_faked_time F t started))
            else set_faked_time F (time t.sec (pos 0)) started) in
        AllOk-bind (Keeps F p) _ (reset_unless_told F w followed) _
          (Keeps-on F p followed _
            (Keeps-if F (is_set (w.getenv "FAKETIME_FOLLOW_ABSOLUTE")) p _ _ refl refl)
            (reset_unless_told-Keeps followed))
          (λ q k.
            AllOk-if (Keeps F p) q.user.faked_time_set (ok q) _ k
              (Keeps-on F p q _ k (parse_modifiers-Keeps text q)))))

  relative_request-Keeps :
      (text : List ℕ) (p : Process F) → AllOk (Keeps F p) (relative_request F w text p)
  unfolding relative_request
  relative_request-Keeps text p = AllOk-then _ (offset_time F w text) _ (λ o.
      let u = p.user in
      let q = record p {
        user = record u { offset = o; faked_time = timespecadd p.start.real o };
      } in
      Keeps-on F p (set_mode_unless_noop F start_at q) _ (set_mode_unless_noop-Keeps F start_at q)
        (parse_modifiers-Keeps text _))

  started_request-Keeps :
      (text : List ℕ) (p : Process F) → AllOk (Keeps F p) (started_request F w text p)
  unfolding started_request
  started_request-Keeps text p = AllOk-then _ (absolute_time F w (drop 1 text)) _ (λ t.
      timed-Keeps text p _ (reset_unless_told-Keeps (set_faked_time F t (set_mode F start_at p))))

  frozen_request-Keeps :
      (text : List ℕ) (p : Process F) → AllOk (Keeps F p) (frozen_request F w text p)
  unfolding frozen_request
  frozen_request-Keeps text p = AllOk-then _ (absolute_time F w text) _ (λ t.
      Keeps-on F p (mark_faked_time_set F (set_faked_time F t (set_mode_unless_noop F freeze p))) _
        (set_mode_unless_noop-Keeps F freeze p) (parse_modifiers-Keeps text _))

  dispatch-Keeps : (text : List ℕ) (p : Process F) → AllOk (Keeps F p) (dispatch F w text p)
  unfolding dispatch
  dispatch-Keeps text p =
      let c = first_char F w text in
      let K = Keeps F p in
      AllOk-if K (c == b'+' || c == b'-') _ _ (relative_request-Keeps text p) (
        AllOk-if K (c == b'@') _ _ (started_request-Keeps text p) (
          AllOk-if K (c == b'%') _ _ (follow_file-Keeps text p) (
            AllOk-if K (c == b'i' || c == b'x') _ _ (parse_modifiers-Keeps text p)
              (frozen_request-Keeps text p))))

  pub parse_ft_string-Keeps :
      (text : List ℕ) (p : Process F) → AllOk (Keeps F p) (parse_ft_string F w text p)
  unfolding parse_ft_string parse_new
  parse_ft_string-Keeps text p =
      AllOk-if (Keeps F p)
        (same_text (take buffer_length text) (take buffer_length p.user.faked_time_saved)
          && not (first_char F w text == b'%'))
        _ _ refl
        (AllOk-bind (Keeps F p) _ (dispatch F w text p) _ (dispatch-Keeps text p) (λ q k. k))
