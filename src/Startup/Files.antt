-- ===== src/Startup/Files.antt =====
-- FAKETIME_SAVE_FILE and FAKETIME_LOAD_FILE in ftpl_really_init, of src/libfaketime.c.
pub mod Laws
use libfaketime.Base.{
  Bool, true, false, not, ◌&&◌, ◌||◌, Option, none, some, List, [], ◌∷◌, ℕ, zero, suc, ◌*◌, ◌/◌,
  ◌%◌, ◌==◌, ltb, length, drop, if◌then◌else◌,
}
use libfaketime.Outcome.{Outcome, ok, exits}
use libfaketime.Replay.Bytes.{saved_size, saved_timestamp_valid}

-- The loop over stss: the entries from the i-th on, `k` of them.
unfoldable pub all_valid : ℕ → ℕ → List ℕ → Bool
all_valid zero i file = true
all_valid (suc k) i file =
    saved_timestamp_valid (drop (saved_size * i) file) && all_valid k (suc i) file

-- The checks on the file, in their order.
unfoldable pub load_file_valid : List ℕ → Bool
unfolding all_valid
load_file_valid file =
    not (ltb (length file) saved_size)
    && (length file % saved_size == 0 && all_valid (length file / saved_size) 0 file)

-- outfile: the name, and whether open() succeeds. What is written is appended to what is there.
pub open_save_file : Option (List ℕ) → Bool → Outcome (Option (List ℕ))
open_save_file none opens = ok none
open_save_file (some name) opens = if opens then ok (some []) else exits 1

-- stss: the name, and the content where open(), fstat() and mmap() succeed.
pub open_load_file : Option (List ℕ) → Option (List ℕ) → Outcome (Option (List ℕ))
unfolding load_file_valid
open_load_file none content = ok none
open_load_file (some name) none = exits 1
open_load_file (some name) (some file) = if load_file_valid file then ok (some file) else exits 1
