-- ===== src/Startup/Files/Laws.antt =====
-- A timestamp file that ftpl_really_init of src/libfaketime.c accepts.
use mathlib.Core.Path.{subst}
use libfaketime.Base.{
  true, Option, none, some, List, ℕ, zero, suc, ◌+◌, ◌*◌, ◌/◌, ◌<◌, ◌≤◌, ◌==◌, length, drop, ◌≡◌,
  arith, Bool-cases, inl, inr,
}
use libfaketime.TimeOps.Total.{IsNormal}
use libfaketime.Replay.Bytes.{
  saved_size, saved_at, saved_timestamp_valid, timespec_from_saved, signed64,
}
use libfaketime.Startup.Files.{all_valid, load_file_valid, open_load_file}
use libfaketime.Outcome.Laws.{AllOk}

valid-IsNormal :
    (bytes : List ℕ) → saved_timestamp_valid bytes ≡ true → IsNormal (timespec_from_saved bytes)
unfolding saved_timestamp_valid timespec_from_saved signed64
valid-IsNormal bytes h = ground arith

all_valid-at :
    (k i j : ℕ) (file : List ℕ)
    → all_valid k i file ≡ true
    → i ≤ j
    → j < i + k
    → saved_timestamp_valid (drop (saved_size * j) file) ≡ true
unfolding all_valid
all_valid-at zero i j file h le lt = absurd (omega arith)
all_valid-at (suc k) i j file h le lt = elim (Bool-cases (i == j)) [
  | inl same ↦ let e : i ≡ j = ground arith in ground arith
  | inr other ↦ all_valid-at k (suc i) j file (ground arith) (ground arith) (omega arith)
]

-- Every entry of an accepted file is a normalised time.
pub saved_at-IsNormal :
    (file : List ℕ) (i : ℕ)
    → load_file_valid file ≡ true
    → i < length file / saved_size
    → IsNormal (saved_at file i)
unfolding load_file_valid saved_at
saved_at-IsNormal file i h lt =
    valid-IsNormal (drop (saved_size * i) file)
      (all_valid-at (length file / saved_size) 0 i file (ground arith) (omega arith) (omega arith))

some_inj {ℓ} : {A : Type ℓ} {t u : A} → some t ≡ some u → t ≡ u
some_inj e = cc

-- What the start replays is accepted.
pub open_load_file-valid :
    (name content : Option (List ℕ))
    → AllOk
        (λ o. (file : List ℕ) → o ≡ some file → load_file_valid file ≡ true)
        (open_load_file name content)
unfolding open_load_file
open_load_file-valid none content = λ file e. cc
open_load_file-valid (some name) none = tt
open_load_file-valid (some name) (some file) = elim (Bool-cases (load_file_valid file)) [
  | inl valid ↦ rw valid (λ f e. subst (λ g. load_file_valid g ≡ true) (some_inj e) valid)
  | inr other ↦ rw other tt
]
