-- ===== src/Replay/Write.antt =====
-- write_all: write() is called until all bytes are out. What the calls return is given by a
-- function of the call's number.
pub mod Laws
use libfaketime.Base.{
  ◌||◌, ℕ, zero, suc, ◌+◌, ◌-◌, ◌*◌, Bool, true, false, Option, none, some, List, [], ◌∷◌, ◌++◌,
  ltb, leb, ◌==◌, if◌then◌else◌, length, take, drop,
}

-- The number of bytes that write() took, or -1 with EINTR, or -1 with another error.
pub data WriteResult : Type 0 where
  wrote : ℕ → WriteResult
  eintr error : WriteResult

-- How the loop ended, and the bytes that reached the file. `unfinished` is the model's fuel.
pub data WriteEnd : Type 0 where
  written failed unfinished : WriteEnd

abbrev after : List ℕ → WriteEnd × List ℕ → WriteEnd × List ℕ
after bytes (e, out) = (e, bytes ++ out)

-- `i` counts the calls, `interruptions` those in a row that failed with EINTR.
pub write_all : (ℕ → WriteResult) → ℕ → ℕ → List ℕ → ℕ → WriteEnd × List ℕ
write_all disk fuel i [] interruptions = (written, [])
write_all disk zero i (b ∷ bytes) interruptions = (unfinished, [])
write_all disk (suc fuel) i (b ∷ bytes) interruptions = elim (disk i) [
  | error ↦ (failed, [])
  | eintr ↦ elim (leb 1000 (interruptions + 1)) [
    | true ↦ (failed, [])
    | false ↦ write_all disk fuel (i + 1) (b ∷ bytes) (interruptions + 1)
  ]
  | wrote n ↦ elim ((n == 0) || ltb (length (b ∷ bytes)) n) [
    | true ↦ (failed, [])
    | false ↦ after (take n (b ∷ bytes)) (write_all disk fuel (i + 1) (drop n (b ∷ bytes)) 0)
  ]
]

-- At most 999 interruptions come before each byte, and one call more takes it.
pub write_fuel : List ℕ → ℕ
write_fuel bytes = 1000 * length bytes
