-- ===== src/Base/Text.antt =====
-- C strings, as lists of character codes with no NUL, and what the source uses of <string.h> and
-- <ctype.h> (in the C locale).
pub mod Laws
use Prim.Native.Char.{code}
use Prim.Native.String.{String}
use libfaketime.Base.{
  ℕ, Bool, true, false, ◌&&◌, ◌||◌, Option, none, some, List, [], ◌∷◌, leb, ◌==◌, if◌then◌else◌,
}

abbrev pub codes : String → List ℕ
codes String.[] = []
codes (String.◌∷◌ c s) = code c ∷ codes s

abbrev pub is_digit : ℕ → Bool
is_digit c = leb b'0' c && leb c b'9'

-- isspace: blank, \t, \n, \v, \f, \r.
abbrev pub is_space : ℕ → Bool
is_space c = c == 32 || (leb 9 c && leb c 13)

-- strncmp(s, prefix, strlen(prefix)) == 0
abbrev pub starts_with : List ℕ → List ℕ → Bool
starts_with [] s = true
starts_with (p ∷ ps) [] = false
starts_with (p ∷ ps) (c ∷ s) = (p == c) && starts_with ps s

-- strcmp(s, t) == 0
abbrev pub same_text : List ℕ → List ℕ → Bool
same_text [] [] = true
same_text [] (d ∷ t) = false
same_text (c ∷ s) [] = false
same_text (c ∷ s) (d ∷ t) = (c == d) && same_text s t

-- strchr(s, c): the rest of the string from the first `c`.
abbrev pub find_char : ℕ → List ℕ → Option (List ℕ)
find_char c [] = none
find_char c (d ∷ s) = if c == d then some (d ∷ s) else find_char c s
