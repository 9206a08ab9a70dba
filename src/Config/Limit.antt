-- ===== src/Config/Limit.antt =====
-- The size limit of read_config_file: what it makes of a file of a given length.
use mathlib.Core.List.{append-nil, append_assoc}
use libfaketime.Base.{
  tests, Bool-cases, not, ◌&&◌, ◌∙◌, ltb, ◌⊎◌, ◌+◌, if◌then◌else◌, inr, inl, ◌-◌, zero, ℕ, suc, ◌≤◌,
  ◌<◌, ◌≡◌, refl, true, false, none, some, List, [], ◌∷◌, ◌++◌, length, length-append, arith, drop,
  leb,
}
use libfaketime.World.{Read, chunk, read_error}
use libfaketime.Config.{
  room, ReadEnd, at_end, got_bytes, read_loop, has_nul, after_loop, accept, read_file,
}
use libfaketime.Config.Contents.{prepare_config_contents}

-- The bytes of a file that is read without an error, and in what pieces.
abbrev pub bytes_of : List (List ℕ) → List ℕ
bytes_of [] = []
bytes_of (bytes ∷ pieces) = bytes ++ bytes_of pieces

abbrev pub reads_of : List (List ℕ) → List Read
reads_of [] = []
reads_of (bytes ∷ pieces) = chunk bytes ∷ reads_of pieces

-- A read() of no byte is the end of the file.
abbrev pub AllFilled : List (List ℕ) → Type 0
AllFilled [] = Unit
AllFilled (bytes ∷ pieces) = (1 ≤ length bytes) × AllFilled pieces

drop_all : (n : ℕ) (xs : List ℕ) → length xs ≤ n → drop n xs ≡ []
drop_all zero [] h = refl
drop_all (suc n) [] h = refl
drop_all zero (x ∷ xs) h = absurd (omega arith)
drop_all (suc n) (x ∷ xs) h = drop_all n xs (omega arith)

drop_some : (n : ℕ) (xs : List ℕ) → n < length xs → (y : ℕ) × (ys : List ℕ) × (drop n xs ≡ y ∷ ys)
drop_some zero [] h = absurd (omega arith)
drop_some zero (x ∷ xs) h = (x, xs, refl)
drop_some (suc n) [] h = absurd (omega arith)
drop_some (suc n) (x ∷ xs) h = drop_some n xs (omega arith)

too_long : (r : List ℕ × ReadEnd × List Read) → r.1 ≡ got_bytes → accept (after_loop r) r.0 ≡ none
unfolding after_loop accept
too_long (text, e, reads) h = rw h refl

compare_cases : (a b : ℕ) → (a < b) ⊎ ((a ≡ b) ⊎ (b < a))
compare_cases a b = ground arith

module _ (buffer : List ℕ) (last : ReadEnd) where
  read_loop-fits :
      (bytes : List ℕ) (reads : List Read)
      → 1 ≤ length bytes
      → length (buffer ++ bytes) ≤ room
      → length buffer < room
      → read_loop (chunk bytes ∷ reads) buffer last ≡ read_loop reads (buffer ++ bytes) got_bytes
  unfolding read_loop
  read_loop-fits [] reads h hl hb = absurd (omega arith)
  read_loop-fits (b ∷ bytes) reads h hl hb =
      let open_room : leb room (length buffer) ≡ false = ground arith in
      let all : drop (room - length buffer) (b ∷ bytes) ≡ [] =
        drop_all (room - length buffer) (b ∷ bytes)
          (omega (arith, length-append buffer (b ∷ bytes))) in
      rw open_room (rw all refl)

  read_loop-overfull :
      (bytes : List ℕ) (reads : List Read)
      → room < length (buffer ++ bytes)
      → length buffer < room
      → (read_loop (chunk bytes ∷ reads) buffer last).1 ≡ got_bytes
  unfolding read_loop
  read_loop-overfull [] reads h hb = absurd (omega (arith, length-append buffer []))
  read_loop-overfull (b ∷ bytes) reads h hb =
      let open_room : leb room (length buffer) ≡ false = ground arith in
      let (y, ys, more) =
        drop_some (room - length buffer) (b ∷ bytes)
          (omega (arith, length-append buffer (b ∷ bytes))) in
      rw open_room (rw more refl)

  read_loop-full :
      (reads : List Read) → length buffer ≡ room → (read_loop reads buffer last).1 ≡ last
  unfolding read_loop
  read_loop-full [] h = rw h refl
  read_loop-full (read_error ∷ reads) h = rw h refl
  read_loop-full (chunk [] ∷ reads) h = rw h refl
  read_loop-full (chunk (b ∷ bytes) ∷ reads) h = rw h refl

read_loop-short :
    (pieces : List (List ℕ)) (buffer : List ℕ) (last : ReadEnd)
    → AllFilled pieces
    → length buffer + length (bytes_of pieces) < room
    → read_loop (reads_of pieces) buffer last ≡ (buffer ++ bytes_of pieces, at_end, [])
unfolding read_loop
read_loop-short [] buffer last f h =
    let open_room : leb room (length buffer) ≡ false = ground arith in
    rw open_room (rw append-nil refl)
read_loop-short (bytes ∷ pieces) buffer last f h =
    let size = length-append buffer bytes in
    let total = length-append bytes (bytes_of pieces) in
    read_loop-fits buffer last bytes (reads_of pieces) f.0 (omega (arith, size, total))
      (omega (arith, total))
    ∙ (read_loop-short pieces (buffer ++ bytes) got_bytes f.1 (omega (arith, size, total))
        ∙ rw (append_assoc buffer bytes (bytes_of pieces)) refl)

read_loop-long :
    (pieces : List (List ℕ)) (buffer : List ℕ) (last : ReadEnd)
    → AllFilled pieces
    → length buffer < room
    → room ≤ length buffer + length (bytes_of pieces)
    → (read_loop (reads_of pieces) buffer last).1 ≡ got_bytes
read_loop-long [] buffer last f hb h = absurd (omega arith)
read_loop-long (bytes ∷ pieces) buffer last f hb h =
    let size = length-append buffer bytes in
    let total = length-append bytes (bytes_of pieces) in
    elim (compare_cases (length (buffer ++ bytes)) room) [
      | inl less ↦
          rw (read_loop-fits buffer last bytes (reads_of pieces) f.0 (omega arith) hb) (
            read_loop-long pieces (buffer ++ bytes) got_bytes f.1 less (omega (arith, size, total)))
      | inr (inl equal) ↦
          rw (read_loop-fits buffer last bytes (reads_of pieces) f.0 (omega arith) hb)
            (read_loop-full (buffer ++ bytes) got_bytes (reads_of pieces) equal)
      | inr (inr more) ↦ read_loop-overfull buffer last bytes (reads_of pieces) more hb
    ]

read_file_long :
    (pieces : List (List ℕ))
    → AllFilled pieces
    → room ≤ length (bytes_of pieces)
    → read_file (record { reads = reads_of pieces; closes = true }) ≡ none
unfolding read_file after_loop accept
read_file_long pieces f h =
    too_long (read_loop (reads_of pieces) [] at_end)
      (read_loop-long pieces [] at_end f (omega arith) (omega arith))

-- A file that can be read and closed is accepted exactly if it has fewer than 255 bytes and no
-- NUL, whatever the pieces that read() returns, and it is accepted as its prepared text. (The
-- buffer could hold 255: the loop leaves `bytes` positive, so the probe for one more byte is
-- never made, and a full buffer counts as too long.)
pub read_file-limit :
    (pieces : List (List ℕ))
    → AllFilled pieces
    → read_file (record { reads = reads_of pieces; closes = true }) ≡ (
        if ltb (length (bytes_of pieces)) room && not (has_nul (bytes_of pieces))
        then some (prepare_config_contents (bytes_of pieces))
        else none)
unfolding read_file after_loop accept
read_file-limit pieces f = elim (Bool-cases (ltb (length (bytes_of pieces)) room)) [
  | inl short ↦ rw (short, read_loop-short pieces [] at_end f (omega tests)) (ground arith)
  | inr long ↦ rw (long, read_file_long pieces f (omega tests)) refl
]
