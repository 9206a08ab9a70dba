-- ===== src/Wrapper/Offset.antt =====
-- From the date program of src/faketime.c without --freeze to the clock that the library of
-- src/libfaketime.c shows.
use libfaketime.Base.{
  ℕ, suc, false, none, some, List, [], ◌∷◌, ◌≡◌, ◌≢◌, ◌⊎◌, inl, inr, refl, sym, arith,
}
use mathlib.Core.Path.{subst}
use libfaketime.Base.Int.{ℤ, pos, negsuc, ◌+ℤ◌, ◌-ℤ◌, ◌*ℤ◌, ◌≤ℤ◌, ◌<ℤ◌}
use libfaketime.Base.Text.{is_digit, find_char}
use libfaketime.Floats.{Floats}
use libfaketime.Outcome.{ok}
use libfaketime.TimeOps.{Time, time, timespecadd, sec_to_nsec, time_min, time_max}
use libfaketime.TimeOps.Total.{nanos, nanos_laws, IsNormal, min_nanos, max_nanos}
use libfaketime.TimeOps.Laws.{add-Saturates}
use libfaketime.Process.{Process, realtime, noop}
use libfaketime.World.{World}
use libfaketime.Seeded.{Converted}
use libfaketime.Shared.Names.Laws.{AllDigits}
use libfaketime.SharedMemory.Digits.{digits-AllDigits}
use libfaketime.Clock.{fake_clock_gettime}
use libfaketime.Clock.Steps.{start_of}
use libfaketime.Clock.Calls.{Steady, steady_end}
use libfaketime.Clock.Shift.{Shifting, fake_clock_gettime_shift}
use libfaketime.Request.{parse_ft_string}
use libfaketime.Request.Parsed.{remembers}
use libfaketime.Request.Relative.{HoldsIntegers, IsExact, Reads, moved_by, parse_ft_string-relative}
use libfaketime.Wrapper.{parse_date_seconds, offset_text, offset_value}

digits-lack : (c : ℕ) (ds : List ℕ) → AllDigits ds → is_digit c ≡ false → find_char c ds ≡ none
digits-lack c [] h e = refl
digits-lack c (d ∷ ds) h e = ground (arith, h.0, digits-lack c ds h.1)

-- The text of an offset is a sign and digits.
offset_text-signed :
    (z : ℤ)
    → (c : ℕ) × (cs : List ℕ) × (offset_text z ≡ c ∷ cs) × ((c ≡ b'+') ⊎ (c ≡ b'-')) × AllDigits cs
unfolding offset_text
offset_text-signed (pos n) = (b'+', _, refl, inl refl, digits-AllDigits 20 n)
offset_text-signed (negsuc n) = (b'-', _, refl, inr refl, digits-AllDigits 20 (suc n))

signed-lacks :
    (x c : ℕ) (cs : List ℕ)
    → (c ≡ b'+') ⊎ (c ≡ b'-')
    → AllDigits cs
    → is_digit x ≡ false
    → (x ≢ b'+') × (x ≢ b'-')
    → find_char x (c ∷ cs) ≡ none
signed-lacks x c cs (inl e) h d n = ground (arith, e, digits-lack x cs h d)
signed-lacks x c cs (inr e) h d n = ground (arith, e, digits-lack x cs h d)

offset_value-text :
    (strtol : List ℕ → Converted ℤ) (now seconds : ℤ) (text t : List ℕ)
    → parse_date_seconds strtol text ≡ some seconds
    → offset_value strtol now text ≡ some t
    → t ≡ offset_text (seconds -ℤ now)
unfolding offset_value
offset_value-text strtol now seconds text t hs e = ground (arith, hs, e)

moved_difference :
    (s tp : Time) (z : ℤ)
    → ((nanos s +ℤ nanos (time z (pos 0))) +ℤ (nanos tp -ℤ nanos s)) -ℤ nanos tp ≡ z *ℤ sec_to_nsec
moved_difference s tp z = omega nanos_laws

module _ (F : Floats) (w : World F) where
  parse_ft_string-offset_text :
      (z : ℤ) (p : Process F)
      → HoldsIntegers F
      → IsExact F z
      → Reads F w (offset_text z) z
      → time_min <ℤ z
      → z <ℤ time_max
      → p.user.mode ≢ noop
      → p.user.faked_time_saved ≡ []
      → parse_ft_string F w (offset_text z) p
        ≡ ok (remembers F w (offset_text z) (moved_by F w z p))
  parse_ft_string-offset_text z p h e r lo hi hm fresh =
      let (c, cs, same, sign, ds) = offset_text-signed z in
      subst (λ t. parse_ft_string F w t p ≡ ok (remembers F w t (moved_by F w z p))) (sym same)
        (parse_ft_string-relative F w c cs z p h e (rw (sym same) r) lo hi sign
          (signed-lacks b'x' c cs sign ds refl (cc, cc))
          (signed-lacks b'i' c cs sign ds refl (cc, cc)) hm fresh)

  -- The date program's answer `seconds` at the real second `now`, for the library: what the theorem
  -- below asks of the arithmetic, of strtod and of the process, at the real time `tp`.
  pub record Begins (now seconds : ℤ) (p : Process F) (tp : Time) : Type 0 where
    pub exact : IsExact F (seconds -ℤ now)
    pub reads : Reads F w (offset_text (seconds -ℤ now)) (seconds -ℤ now)
    pub low : time_min <ℤ seconds -ℤ now
    pub high : seconds -ℤ now <ℤ time_max
    pub awake : p.user.mode ≢ noop
    pub fresh : p.user.faked_time_saved ≡ []
    pub no_rate : p.user.rate_set ≡ false
    pub start_normal : IsNormal p.start.real
    pub real_normal : IsNormal tp
    -- no step is out of range
    pub moved_low : min_nanos ≤ℤ nanos p.start.real +ℤ nanos (time (seconds -ℤ now) (pos 0))
    pub moved_high : nanos p.start.real +ℤ nanos (time (seconds -ℤ now) (pos 0)) ≤ℤ max_nanos
    pub since_low : min_nanos ≤ℤ nanos tp -ℤ nanos p.start.real
    pub since_high : nanos tp -ℤ nanos p.start.real ≤ℤ max_nanos
    pub sum_low :
        min_nanos
        ≤ℤ (nanos p.start.real +ℤ nanos (time (seconds -ℤ now) (pos 0)))
          +ℤ (nanos tp -ℤ nanos p.start.real)
    pub sum_high :
        (nanos p.start.real +ℤ nanos (time (seconds -ℤ now) (pos 0)))
          +ℤ (nanos tp -ℤ nanos p.start.real)
        ≤ℤ max_nanos

  -- `faketime` with a date: where the date program has printed the second `seconds` while the real
  -- clock showed the second `now`, the library parses what the wrapper passes on, and
  -- fake_clock_gettime then differs from the real clock by exactly seconds - now. The offset is
  -- below the limits of time_t and is an integer that the floating-point numbers hold and that
  -- strtod reads, the process has parsed no request before and does not leave the time alone, it
  -- has no rate, a valid cache, no limits, no files and no ticks, and no step is out of range.
  pub offset_value_shows :
      (strtol : List ℕ → Converted ℤ) (now seconds : ℤ) (text t : List ℕ) (p : Process F)
      (tp : Time)
      → HoldsIntegers F
      → Begins now seconds p tp
      → Steady F w p
      → parse_date_seconds strtol text ≡ some seconds
      → offset_value strtol now text ≡ some t
      → (q : Process F) × (u : Time) × (parse_ft_string F w t p ≡ ok q)
        × (fake_clock_gettime F w realtime tp q ≡ ok (pos 0, u, steady_end F w q realtime tp))
        × IsNormal u
        × (nanos u -ℤ nanos tp ≡ (seconds -ℤ now) *ℤ sec_to_nsec)
  unfolding start_of timespecadd
  offset_value_shows strtol now seconds text t p tp h b st hs hv =
      let z = seconds -ℤ now in
      let q = remembers F w t (moved_by F w z p) in
      let same = offset_value-text strtol now seconds text t hs hv in
      let parsed = parse_ft_string-offset_text z p h b.exact b.reads b.low b.high b.awake b.fresh in
      let sum =
        add-Saturates p.start.real (time z (pos 0)) b.start_normal (omega arith, omega arith) in
      let begin = (sum.inside b.moved_low b.moved_high).0 in
      let st' : Steady F w q = record {
        awake = st.awake;
        unlimited = st.unlimited;
        no_spawn = st.no_spawn;
        cached = st.cached;
        no_infile = st.no_infile;
        no_outfile = st.no_outfile;
        no_ticks = st.no_ticks;
      } in
      let sh : Shifting F w q realtime tp = record {
        mode = refl;
        no_rate = b.no_rate;
        user_normal = sum.normal;
        start_normal = b.start_normal;
        real_normal = b.real_normal;
      } in
      let (u, shown, normal, total) =
        fake_clock_gettime_shift F w q realtime tp refl st' sh b.since_low b.since_high
          (rw begin b.sum_low) (rw begin b.sum_high) in
      (
        q,
        u,
        subst (λ t'. parse_ft_string F w t' p ≡ ok (remembers F w t' (moved_by F w z p))) (sym same)
            parsed,
        shown,
        normal,
        rw (total, begin) (moved_difference p.start.real tp z),
      )
