-- ===== src/Shared/Names/Laws.antt =====
-- Words that sscanf reads, and names that are accepted.
use mathlib.Core.List.{append-nil}
use libfaketime.Base.{
  ◌∙◌, ℕ, zero, suc, ◌≤◌, true, false, ◌≡◌, refl, some, none, List, [], ◌∷◌, ◌++◌, length,
  drop-append, arith,
}
use libfaketime.Base.Text.{codes, is_space, is_digit, starts_with}
use libfaketime.Shared.Names.{
  shm_prefix, sem_prefix, parse_shared_objects, all_digits, valid_shared_name, skip_spaces,
  take_word, scan_word,
}

abbrev pub AllPlain : List ℕ → Type 0
AllPlain [] = Unit
AllPlain (c ∷ cs) = (is_space c ≡ false) × AllPlain cs

-- What ends a word: white space, or the end of the text.
abbrev pub EndsWord : List ℕ → Type 0
EndsWord [] = Unit
EndsWord (c ∷ cs) = is_space c ≡ true

take_word-append :
    (n : ℕ) (w rest : List ℕ)
    → length w ≤ n
    → AllPlain w
    → EndsWord rest
    → take_word n (w ++ rest) ≡ (w, rest)
unfolding take_word
take_word-append zero [] rest h p e = refl
take_word-append zero (c ∷ w) rest h p e = absurd (omega arith)
take_word-append (suc n) [] [] h p e = refl
take_word-append (suc n) [] (c ∷ rest) h p e = rw e refl
take_word-append (suc n) (c ∷ w) rest h p e =
    rw (take_word-append n w rest (omega arith) p.1 e) (rw p.0 refl)

skip_spaces-plain : (c : ℕ) (s : List ℕ) → is_space c ≡ false → skip_spaces (c ∷ s) ≡ c ∷ s
unfolding skip_spaces
skip_spaces-plain c s h = rw h refl

pub scan_word-append :
    (n c : ℕ) (w rest : List ℕ)
    → length (c ∷ w) ≤ n
    → AllPlain (c ∷ w)
    → EndsWord rest
    → scan_word n ((c ∷ w) ++ rest) ≡ some (c ∷ w, rest)
unfolding scan_word
scan_word-append n c w rest h p e =
    rw (skip_spaces-plain c (w ++ rest) p.0) (rw (take_word-append n (c ∷ w) rest h p e) refl)

-- A blank in front of a word is skipped.
pub scan_word-blank : (n : ℕ) (s : List ℕ) → scan_word n (32 ∷ s) ≡ scan_word n s
unfolding scan_word skip_spaces
scan_word-blank n s = refl

pub scan_word-empty : (n : ℕ) → scan_word n [] ≡ none
unfolding scan_word skip_spaces take_word
scan_word-empty zero = refl
scan_word-empty (suc n) = refl

abbrev pub AllDigits : List ℕ → Type 0
AllDigits [] = Unit
AllDigits (c ∷ cs) = (is_digit c ≡ true) × AllDigits cs

pub all_digits-AllDigits : (ds : List ℕ) → AllDigits ds → all_digits ds ≡ true
unfolding all_digits
all_digits-AllDigits [] h = refl
all_digits-AllDigits (c ∷ ds) h = rw h.0 (all_digits-AllDigits ds h.1)

starts_with-append : (p s : List ℕ) → starts_with p (p ++ s) ≡ true
starts_with-append [] s = refl
starts_with-append (c ∷ p) s = ground (arith, starts_with-append p s)

pub valid_shared_name-append :
    (prefix : List ℕ) (c : ℕ) (cs : List ℕ)
    → all_digits (c ∷ cs) ≡ true
    → valid_shared_name (prefix ++ c ∷ cs) prefix ≡ true
unfolding valid_shared_name
valid_shared_name-append prefix c cs h =
    rw (starts_with-append prefix (c ∷ cs))
      (rw (drop-append (length prefix) prefix (c ∷ cs) refl) h)

AllPlain-append : (xs ys : List ℕ) → AllPlain xs → AllPlain ys → AllPlain (xs ++ ys)
AllPlain-append [] ys hx hy = hy
AllPlain-append (x ∷ xs) ys hx hy = (hx.0, AllPlain-append xs ys hx.1 hy)

AllPlain-AllDigits : (ds : List ℕ) → AllDigits ds → AllPlain ds
AllPlain-AllDigits [] h = tt
AllPlain-AllDigits (c ∷ ds) h = (ground (arith, h.0), AllPlain-AllDigits ds h.1)

AllPlain-sem_prefix : AllPlain sem_prefix
AllPlain-sem_prefix = ground arith

AllPlain-shm_prefix : AllPlain shm_prefix
AllPlain-shm_prefix = ground arith

-- A pair of names that end in digits is accepted, with one blank between them.
module _ (c : ℕ) (cs : List ℕ) (number : AllDigits (c ∷ cs)) (fits : length (c ∷ cs) ≤ 240) where
  scan_word-sem_prefix :
      (rest : List ℕ)
      → EndsWord rest
      → scan_word 255 ((sem_prefix ++ c ∷ cs) ++ rest) ≡ some (sem_prefix ++ c ∷ cs, rest)
  scan_word-sem_prefix rest e =
      scan_word-append 255 b'/' (codes "faketime_sem_" ++ c ∷ cs) rest (omega arith)
        (AllPlain-append sem_prefix (c ∷ cs) AllPlain-sem_prefix
          (AllPlain-AllDigits (c ∷ cs) number))
        e

  scan_word-shm_prefix : scan_word 255 (shm_prefix ++ c ∷ cs) ≡ some (shm_prefix ++ c ∷ cs, [])
  scan_word-shm_prefix = rw append-nil at (
      scan_word-append 255 b'/' (codes "faketime_shm_" ++ c ∷ cs) [] (omega arith)
        (AllPlain-append shm_prefix (c ∷ cs) AllPlain-shm_prefix
          (AllPlain-AllDigits (c ∷ cs) number))
        tt)

  pub parse_shared_objects-append :
      parse_shared_objects ((sem_prefix ++ c ∷ cs) ++ 32 ∷ (shm_prefix ++ c ∷ cs))
      ≡ some (sem_prefix ++ c ∷ cs, shm_prefix ++ c ∷ cs)
  unfolding parse_shared_objects
  parse_shared_objects-append =
      let digits = all_digits-AllDigits (c ∷ cs) number in
      rw (scan_word-sem_prefix (32 ∷ (shm_prefix ++ c ∷ cs)) refl, parse_shared_objects)
        (rw (scan_word-blank 255 (shm_prefix ++ c ∷ cs) ∙ scan_word-shm_prefix) (
          rw (scan_word-empty 1) (
            rw
              (
                valid_shared_name-append sem_prefix c cs digits,
                valid_shared_name-append shm_prefix c cs digits,
              )
              refl)))
