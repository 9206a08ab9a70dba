-- ===== src/Config/SymbolList.antt =====
-- str_array_contains, which ft_dlvsym asks about FAKETIME_IGNORE_SYMBOLS.
use libfaketime.Base.{Bool, true, ◌&&◌, ◌||◌, List, [], ◌∷◌, ◌==◌, length, drop, ℕ}
use libfaketime.Base.Text.{starts_with}

-- Whether the text behind an occurrence ends the entry.
unfoldable pub ends_entry : List ℕ → Bool
ends_entry [] = true
ends_entry (c ∷ cs) = c == b','

-- The occurrences that strstr finds, from left to right; `at_start` says that the position is the
-- first of the list or that a comma is in front of it.
unfoldable pub contains_from : Bool → List ℕ → List ℕ → Bool
unfolding ends_entry
contains_from at_start [] needle = at_start && starts_with needle []
contains_from at_start (c ∷ cs) needle =
    (at_start && (starts_with needle (c ∷ cs) && ends_entry (drop (length needle) (c ∷ cs))))
    || contains_from (c == b',') cs needle

unfoldable pub str_array_contains : List ℕ → List ℕ → Bool
str_array_contains haystack needle = contains_from true haystack needle
