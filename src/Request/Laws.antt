-- ===== src/Request/Laws.antt =====
-- parse_ft_string, called again with the same text.
use libfaketime.Base.{
  ℕ, suc, zero, true, false, ◌≡◌, refl, ◌∙◌, sym, ap, List, [], ◌∷◌, ◌==◌, ◌≤◌, ◌-◌, length, take,
  inl, inr, Bool-cases, arith,
}
use libfaketime.Base.Text.{same_text}
use libfaketime.Base.Text.Laws.{same_text_refl}
use libfaketime.Floats.{Floats}
use libfaketime.Outcome.{Outcome, ok, exits, ◌>>=◌}
use libfaketime.Process.{Process}
use libfaketime.World.{World}
use libfaketime.Request.{buffer_length, first_char, dispatch, parse_new, parse_ft_string}

take_all : (n : ℕ) (s : List ℕ) → length s ≤ n → take n s ≡ s
take_all zero [] h = refl
take_all zero (c ∷ s) h = absurd (omega arith)
take_all (suc n) [] h = refl
take_all (suc n) (c ∷ s) h = ap (λ l. c ∷ l) (take_all n s (omega arith))

abbrev saved_text : {F : Floats} → Outcome (Process F) → List ℕ → List ℕ
saved_text (ok p) s = p.user.faked_time_saved
saved_text (exits n) s = s

module _ (F : Floats) (w : World F) where
  parse_new-saved_text :
      (text : List ℕ) (p : Process F)
      → saved_text (parse_new F w text p) (take (buffer_length - 1) text)
        ≡ take (buffer_length - 1) text
  unfolding parse_new
  parse_new-saved_text text p = saved (dispatch F w text p)
    where
      saved :
          (o : Outcome (Process F))
          → saved_text
              (o >>= λ q.
                let u = q.user in
                ok (record q {
                  user = record u { faked_time_saved = take (buffer_length - 1) text };
                }))
              (take (buffer_length - 1) text)
            ≡ take (buffer_length - 1) text
      saved (ok q) = refl
      saved (exits n) = refl

  -- After a successful call the saved text is that of the request.
  saved_after :
      (text : List ℕ) (p q : Process F)
      → length text ≤ buffer_length - 1
      → (first_char F w text == b'%') ≡ false
      → parse_ft_string F w text p ≡ ok q
      → same_text (take buffer_length text) (take buffer_length q.user.faked_time_saved) ≡ true
  unfolding parse_ft_string
  saved_after text p q hl hc h =
      elim (Bool-cases
        (same_text (take buffer_length text) (take buffer_length p.user.faked_time_saved))) [
          | inl e ↦
              let kept : parse_ft_string F w text p ≡ ok p = rw (e, hc) refl in
              rw⁻¹ (ap (λ o. saved_text o []) (sym kept ∙ h)) e
          | inr e ↦
              let new : parse_ft_string F w text p ≡ parse_new F w text p = rw e refl in
              let saved = ap (λ o. saved_text o (take (buffer_length - 1) text)) (sym new ∙ h) in
              rw (sym saved ∙ parse_new-saved_text text p) (
                rw (take_all (buffer_length - 1) text hl, take_all buffer_length text (omega arith))
                  (same_text_refl text))
        ]

  -- A request of at most 255 characters that does not begin with '%' is parsed once: after a call
  -- that did not exit, the same text again changes nothing, whatever the environment is by then.
  pub parse_ft_string_again :
      (w' : World F) (text : List ℕ) (p q : Process F)
      → length text ≤ buffer_length - 1
      → (first_char F w text == b'%') ≡ false
      → parse_ft_string F w text p ≡ ok q
      → parse_ft_string F w' text q ≡ ok q
  unfolding parse_ft_string
  parse_ft_string_again w' text p q hl hc h = rw (saved_after text p q hl hc h, hc) refl
