-- ===== src/Startup/Commands.antt =====
-- FAKETIME_SKIP_CMDS and FAKETIME_ONLY_CMDS: the loops over strtok_r in ftpl_really_init, of
-- src/libfaketime.c.
pub mod Laws
use libfaketime.Base.{Bool, true, false, ◌||◌, List, [], ◌∷◌, ◌++◌, ℕ, ◌==◌, if◌then◌else◌}
use libfaketime.Base.Text.{same_text}

-- strtok_r drops empty tokens.
abbrev pub keep_token : List ℕ → List (List ℕ) → List (List ℕ)
keep_token [] tokens = tokens
keep_token (c ∷ cs) tokens = (c ∷ cs) ∷ tokens

-- The tokens that strtok_r(s, ",") yields, where `token` has been read already.
pub tokens_from : List ℕ → List ℕ → List (List ℕ)
tokens_from token [] = keep_token token []
tokens_from token (c ∷ s) =
    let rest = tokens_from (if c == b',' then [] else token ++ c ∷ []) s in
    if c == b',' then keep_token token rest else rest

-- The loops' strcmp(progname, ...) == 0
pub matches : List ℕ → List (List ℕ) → Bool
matches progname [] = false
matches progname (token ∷ tokens) = same_text progname token || matches progname tokens

pub names_command : List ℕ → List ℕ → Bool
unfolding tokens_from matches
names_command progname list = matches progname (tokens_from [] list)
