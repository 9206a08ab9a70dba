-- ===== src/Startup/Commands/Laws.antt =====
-- The lists of commands against str_array_contains, of src/libfaketime.c.
use libfaketime.Base.{
  sym, Bool, true, false, ◌||◌, ◌&&◌, List, [], ◌∷◌, ◌++◌, ℕ, ◌==◌, ◌≡◌, refl, arith, length, drop,
  Bool-cases, inl, inr, ◌∙◌,
}
use libfaketime.Base.Text.{same_text, starts_with}
use libfaketime.Config.SymbolList.{contains_from, str_array_contains, ends_entry}
use libfaketime.Startup.Commands.{keep_token, tokens_from, matches, names_command}

-- `s` begins with the entry `n`.
abbrev heads : List ℕ → List ℕ → Bool
heads n s = starts_with n s && ends_entry (drop (length n) s)

-- No comma in it.
abbrev pub IsPlain : List ℕ → Type 0
IsPlain [] = Unit
IsPlain (c ∷ cs) = ((c == b',') ≡ false) × IsPlain cs

heads_step :
    (token n : List ℕ) (c : ℕ) (s : List ℕ)
    → (c == b',') ≡ false
    → starts_with (token ++ c ∷ []) n && heads (drop (length (token ++ c ∷ [])) n) s
      ≡ starts_with token n && heads (drop (length token) n) (c ∷ s)
unfolding ends_entry
heads_step [] [] c s h = ground arith
heads_step [] (x ∷ n) c s h = ground arith
heads_step (t ∷ token) [] c s h = refl
heads_step (t ∷ token) (x ∷ n) c s h = ground (arith, heads_step token n c s h)

same_text-starts_with :
    (n token : List ℕ) → same_text n token ≡ starts_with token n && heads (drop (length token) n) []
unfolding ends_entry
same_text-starts_with [] [] = refl
same_text-starts_with [] (t ∷ token) = refl
same_text-starts_with (x ∷ n) [] = refl
same_text-starts_with (x ∷ n) (t ∷ token) = ground (arith, same_text-starts_with n token)

-- At a comma, only an entry that has been read in full is found.
heads_comma :
    (token n : List ℕ) (s : List ℕ)
    → IsPlain n
    → starts_with token n && heads (drop (length token) n) (b',' ∷ s) ≡ same_text n token
unfolding ends_entry
heads_comma [] [] s h = refl
heads_comma [] (x ∷ n) s h = ground arith
heads_comma (t ∷ token) [] s h = refl
heads_comma (t ∷ token) (x ∷ n) s h = ground (arith, heads_comma token n s h.1)

matches-keep_token :
    (x : ℕ) (n token : List ℕ) (tokens : List (List ℕ))
    → matches (x ∷ n) (keep_token token tokens) ≡ same_text (x ∷ n) token || matches (x ∷ n) tokens
unfolding matches
matches-keep_token x n [] tokens = refl
matches-keep_token x n (t ∷ token) tokens = refl

contains_from-true :
    (x : ℕ) (n s : List ℕ)
    → contains_from true s (x ∷ n) ≡ heads (x ∷ n) s || contains_from false s (x ∷ n)
unfolding contains_from ends_entry
contains_from-true x n [] = refl
contains_from-true x n (c ∷ s) = ground arith

matches-tokens_from :
    (x : ℕ) (n token s : List ℕ)
    → IsPlain (x ∷ n)
    → matches (x ∷ n) (tokens_from token s)
      ≡ (starts_with token (x ∷ n) && heads (drop (length token) (x ∷ n)) s)
        || contains_from false s (x ∷ n)
unfolding tokens_from contains_from matches
matches-tokens_from x n token [] h =
    rw (matches-keep_token x n token [], same_text-starts_with (x ∷ n) token) (ground arith)
matches-tokens_from x n token (c ∷ s) h = elim (Bool-cases (c == b',')) [
  | inl comma ↦
      let e : c ≡ b',' = ground arith in
      rw e (
        matches-keep_token x n token (tokens_from [] s)
        ∙ rw
            (
              matches-tokens_from x n [] s h,
              heads_comma token (x ∷ n) s h,
              contains_from-true x n s,
            )
            refl)
  | inr other ↦
      rw other (
        matches-tokens_from x n (token ++ c ∷ []) s h
        ∙ rw (heads_step token (x ∷ n) c s other) refl)
]

-- For a name that is not empty and has no comma, the loops over strtok_r in ftpl_really_init find
-- it in a list exactly if str_array_contains does: both decide whether it is an entry of the
-- comma-separated list.
pub names_command-str_array_contains :
    (x : ℕ) (n list : List ℕ)
    → IsPlain (x ∷ n)
    → names_command (x ∷ n) list ≡ str_array_contains list (x ∷ n)
unfolding names_command str_array_contains
names_command-str_array_contains x n list h =
    matches-tokens_from x n [] list h ∙ sym (contains_from-true x n list)
