-- ===== src/Shared/Names.antt =====
-- The names of the shared objects: valid_shared_name and parse_shared_objects.
pub mod Laws
use libfaketime.Base.{
  ℕ, zero, suc, Bool, true, false, not, ◌&&◌, Option, none, some, List, [], ◌∷◌, if◌then◌else◌,
  drop, length,
}
use libfaketime.Base.Text.{codes, starts_with, is_space, is_digit}

-- The loop over the characters behind the prefix.
pub all_digits : List ℕ → Bool
all_digits [] = true
all_digits (c ∷ cs) = if not (is_digit c) then false else all_digits cs

pub valid_shared_name : List ℕ → List ℕ → Bool
valid_shared_name name prefix =
    let digits = drop (length prefix) name in
    if not (starts_with prefix name)
    then false
    else elim digits [ [] ↦ false | c ∷ cs ↦ all_digits (c ∷ cs) ]

-- One %Ns conversion of sscanf: skips white space, then takes up to N other characters, one at
-- least. What follows is the input of the next conversion.
unfoldable pub skip_spaces : List ℕ → List ℕ
skip_spaces [] = []
skip_spaces (c ∷ cs) = if is_space c then skip_spaces cs else c ∷ cs

take_word : ℕ → List ℕ → List ℕ × List ℕ
take_word zero cs = ([], cs)
take_word (suc n) [] = ([], [])
take_word (suc n) (c ∷ cs) =
    let (w, rest) = take_word n cs in if is_space c then ([], c ∷ cs) else (c ∷ w, rest)

abbrev nonempty_word : List ℕ × List ℕ → Option (List ℕ × List ℕ)
nonempty_word ([], rest) = none
nonempty_word (c ∷ w, rest) = some (c ∷ w, rest)

pub scan_word : ℕ → List ℕ → Option (List ℕ × List ℕ)
scan_word n cs = nonempty_word (take_word n (skip_spaces cs))

abbrev pub sem_prefix : List ℕ
sem_prefix = codes "/faketime_sem_"

abbrev pub shm_prefix : List ℕ
shm_prefix = codes "/faketime_shm_"

-- sscanf(value, "%255s %255s %1s", ...) must convert two words exactly. `none` is `false`.
pub parse_shared_objects : List ℕ → Option (List ℕ × List ℕ)
parse_shared_objects value = elim (scan_word 255 value) [
  | none ↦ none
  | some (sem_name, rest) ↦ elim (scan_word 255 rest) [
    | none ↦ none
    | some (shm_name, rest') ↦ elim (scan_word 1 rest') [
      | some extra ↦ none
      | none ↦
          if valid_shared_name sem_name sem_prefix && valid_shared_name shm_name shm_prefix
          then some (sem_name, shm_name)
          else none
    ]
  ]
]
