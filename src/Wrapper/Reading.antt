-- ===== src/Wrapper/Reading.antt =====
-- The loop of main in src/faketime.c that reads the output of the date program.
use mathlib.Core.List.{append-nil, append_assoc}
use libfaketime.Base.{
  take-append, ℕ, Bool, true, false, Option, some, none, List, [], ◌∷◌, ◌++◌, length, take, ltb,
  if◌then◌else◌, ◌≡◌, ◌∙◌, ap, ◌||◌, ◌≤◌, refl, arith, Bool-cases, inl, inr, length-append, suc,
  zero,
}
use libfaketime.Wrapper.{ReadByte, byte, interrupted, failed, room, read_output}

-- The bytes that were read, and whether no read failed.
abbrev pub bytes_of : List ReadByte → List ℕ
bytes_of [] = []
bytes_of (byte b ∷ reads) = b ∷ bytes_of reads
bytes_of (interrupted ∷ reads) = bytes_of reads
bytes_of (failed ∷ reads) = []

abbrev pub all_read : List ReadByte → Bool
all_read [] = true
all_read (byte b ∷ reads) = all_read reads
all_read (interrupted ∷ reads) = all_read reads
all_read (failed ∷ reads) = false

take_all : (n : ℕ) (xs : List ℕ) → length xs ≤ n → take n xs ≡ xs
take_all zero [] h = refl
take_all zero (x ∷ xs) h = absurd (omega arith)
take_all (suc n) [] h = refl
take_all (suc n) (x ∷ xs) h = ap (λ l. x ∷ l) (take_all n xs (omega arith))

abbrev read_so_far : List ℕ → Bool → List ℕ → Option (List ℕ × Bool)
read_so_far buf overflow rest =
    some (take room (buf ++ rest), overflow || ltb room (length (buf ++ rest)))

read_so_far-full :
    (buf : List ℕ) (overflow : Bool) (b : ℕ) (rest : List ℕ)
    → length buf ≡ room
    → read_so_far buf true rest ≡ read_so_far buf overflow (b ∷ rest)
read_so_far-full buf overflow b rest h =
    let over : ltb room (length (buf ++ b ∷ rest)) ≡ true =
      rw (length-append buf (b ∷ rest)) (ground arith) in
    rw (take-append room buf rest h, take-append room buf (b ∷ rest) h, over) (ground arith)

read_so_far-end :
    (buf : List ℕ) (overflow : Bool)
    → length buf ≤ room
    → some (buf, overflow) ≡ read_so_far buf overflow []
read_so_far-end buf overflow h =
    let small : ltb room (length buf) ≡ false = ground arith in
    rw (append-nil, take_all room buf h, small) (ground arith)

read_output-from :
    (reads : List ReadByte) (buf : List ℕ) (overflow : Bool)
    → length buf ≤ room
    → read_output reads buf overflow
      ≡ (if all_read reads then read_so_far buf overflow (bytes_of reads) else none)
unfolding read_output
read_output-from [] buf overflow h = read_so_far-end buf overflow h
read_output-from (interrupted ∷ reads) buf overflow h = read_output-from reads buf overflow h
read_output-from (failed ∷ reads) buf overflow h = refl
read_output-from (byte b ∷ reads) buf overflow h = elim (Bool-cases (ltb (length buf) room)) [
  | inl fits ↦
      let ih =
        read_output-from reads (buf ++ b ∷ []) overflow
          (rw (length-append buf (b ∷ [])) (ground arith)) in
      rw fits (ih ∙ rw (append_assoc buf (b ∷ []) (bytes_of reads)) refl)
  | inr full ↦ rw full (
      read_output-from reads buf true h
      ∙ rw (read_so_far-full buf overflow b (bytes_of reads) (ground arith)) refl)
]

-- The loop that reads the date program's output: if a read fails with an error other than EINTR
-- there is no output. Otherwise the buffer has the first 255 bytes, whatever reads were
-- interrupted, and the overflow is reported exactly if there were more.
pub read_output_lem :
    (reads : List ReadByte)
    → read_output reads [] false ≡ (
        if all_read reads
        then some (take room (bytes_of reads), ltb room (length (bytes_of reads)))
        else none)
read_output_lem reads = read_output-from reads [] false (omega arith)
