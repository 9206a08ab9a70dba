-- ===== src/Config/Contents/Laws.antt =====
-- prepare_config_contents against the lines of its text.
use libfaketime.Base.{
  if◌then◌else◌, ℕ, zero, suc, ◌≡◌, refl, List, [], ◌∷◌, ◌++◌, ◌≤◌, inl, inr, length, arith,
  Bool-cases,
}
use libfaketime.Config.Contents.{
  is_line_end, split_line, is_comment, skip_line_ends, kept, prepare, prepare_config_contents,
}

-- The lines of a text, in one pass: every line end begins a new one.
abbrev pub cons_first : ℕ → List (List ℕ) → List (List ℕ)
cons_first c [] = (c ∷ []) ∷ []
cons_first c (l ∷ ls) = (c ∷ l) ∷ ls

abbrev pub lines : List ℕ → List (List ℕ)
lines [] = [] ∷ []
lines (c ∷ cs) = if is_line_end c then [] ∷ lines cs else cons_first c (lines cs)

abbrev pub join_kept : List (List ℕ) → List ℕ
join_kept [] = []
join_kept (l ∷ ls) = (if is_comment l then [] else l) ++ join_kept ls

abbrev later_lines : List ℕ → List (List ℕ)
later_lines [] = []
later_lines (c ∷ cs) = lines cs

lines-split_line : (s : List ℕ) → lines s ≡ (split_line s).0 ∷ later_lines (split_line s).1
unfolding split_line
lines-split_line [] = refl
lines-split_line (c ∷ cs) = elim (Bool-cases (is_line_end c)) [
  | inl e ↦ rw (e, split_line) refl
  | inr e ↦ rw (e, split_line) (rw (lines-split_line cs) refl)
]

join_kept-skip_line_ends : (s : List ℕ) → join_kept (lines (skip_line_ends s)) ≡ join_kept (lines s)
unfolding skip_line_ends is_comment
join_kept-skip_line_ends [] = refl
join_kept-skip_line_ends (c ∷ cs) = ground (arith, join_kept-skip_line_ends cs)

-- Behind a line stands a line end, if anything.
join_kept-later_lines :
    (s : List ℕ)
    → join_kept (later_lines (split_line s).1) ≡ join_kept (lines (skip_line_ends (split_line s).1))
unfolding split_line skip_line_ends is_comment
join_kept-later_lines [] = refl
join_kept-later_lines (c ∷ cs) =
    ground (arith, join_kept-later_lines cs, join_kept-skip_line_ends cs)

length-skip_line_ends : (s : List ℕ) → length (skip_line_ends s) ≤ length s
unfolding skip_line_ends
length-skip_line_ends [] = omega arith
length-skip_line_ends (c ∷ cs) = ground (arith, length-skip_line_ends cs)

length-split_line : (s : List ℕ) → length (split_line s).1 ≤ length s
unfolding split_line
length-split_line [] = omega arith
length-split_line (c ∷ cs) = ground (arith, length-split_line cs)

round_shrinks : (c : ℕ) (cs : List ℕ) → length (skip_line_ends (split_line (c ∷ cs)).1) ≤ length cs
unfolding split_line skip_line_ends
round_shrinks c cs =
    ground (
      arith,
      length-skip_line_ends cs,
      length-skip_line_ends (split_line cs).1,
      length-split_line cs,
    )

prepare-lines : (fuel : ℕ) (s : List ℕ) → length s ≤ fuel → prepare fuel s ≡ join_kept (lines s)
unfolding prepare kept
prepare-lines fuel [] h = unfold is_comment in refl
prepare-lines zero (c ∷ cs) h = absurd (omega arith)
prepare-lines (suc fuel) (c ∷ cs) h =
    let rest = skip_line_ends (split_line (c ∷ cs)).1 in
    rw (lines-split_line (c ∷ cs)) (
      rw (prepare-lines fuel rest (omega (arith, round_shrinks c cs)))
        (rw (join_kept-later_lines (c ∷ cs)) refl))

-- The text that is parsed is that of the lines whose first character but blanks and tabs is
-- neither '#' nor ';', in their order and with no line ends between them.
pub prepare_config_contents-lines :
    (contents : List ℕ) → prepare_config_contents contents ≡ join_kept (lines contents)
unfolding prepare_config_contents
prepare_config_contents-lines contents = prepare-lines (length contents) contents (omega arith)
