-- ===== src/Config/Contents.antt =====
-- prepare_config_contents: comment lines and line ends are taken out of the text.
pub mod Laws
use libfaketime.Base.{
  ℕ, zero, suc, Bool, true, false, not, ◌&&◌, ◌||◌, List, [], ◌∷◌, ◌++◌, ◌==◌, if◌then◌else◌,
  length,
}

-- \r or \n
abbrev pub is_line_end : ℕ → Bool
is_line_end c = c == 13 || c == 10

-- The first inner loop: up to `line_end`, and what follows.
pub split_line : List ℕ → List ℕ × List ℕ
split_line [] = ([], [])
split_line (c ∷ cs) =
    let (line, rest) = split_line cs in if is_line_end c then ([], c ∷ cs) else (c ∷ line, rest)

-- The second: a line whose first character but blanks and tabs is '#' or ';' is a comment.
pub is_comment : List ℕ → Bool
is_comment [] = false
is_comment (c ∷ cs) = if c == 32 || c == 9 then is_comment cs else c == b'#' || c == b';'

-- The last: past the line ends.
pub skip_line_ends : List ℕ → List ℕ
skip_line_ends [] = []
skip_line_ends (c ∷ cs) = if is_line_end c then skip_line_ends cs else c ∷ cs

-- The copying loop: a comment line is skipped.
pub kept : List ℕ → List ℕ
kept line = if is_comment line then [] else line

-- The outer loop; a round takes one character at least.
pub prepare : ℕ → List ℕ → List ℕ
prepare fuel [] = []
prepare zero (c ∷ cs) = []
prepare (suc fuel) (c ∷ cs) =
    let (line, rest) = split_line (c ∷ cs) in kept line ++ prepare fuel (skip_line_ends rest)

pub prepare_config_contents : List ℕ → List ℕ
prepare_config_contents contents = prepare (length contents) contents
