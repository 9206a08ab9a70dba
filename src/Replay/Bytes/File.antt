-- ===== src/Replay/Bytes/File.antt =====
-- A whole file of saved timestamps.
use libfaketime.Base.{
  zero, [], suc, ◌+◌, ◌++◌, some, ◌∷◌, ◌*◌, ℕ, length-append, get_elem?, length, drop, List, ◌≡◌,
  ◌∙◌, refl, arith,
}
use libfaketime.TimeOps.{Time}
use libfaketime.Replay.Bytes.{word64, to_bytes, encode_saved, saved_at}
use libfaketime.Replay.Bytes.RoundTrip.{Fits64, length-to_bytes, timespec_from_saved-encode_saved}

-- A file that save_time has filled with the times `ts`.
abbrev pub encode_all : List Time → List ℕ
encode_all [] = []
encode_all (t ∷ ts) = encode_saved t ++ encode_all ts

abbrev pub AllFit64 : List Time → Type 0
AllFit64 [] = Unit
AllFit64 (t ∷ ts) = Fits64 t.sec × Fits64 t.sub × AllFit64 ts

length-encode_saved : (t : Time) → length (encode_saved t) ≡ 16
unfolding encode_saved
length-encode_saved t = omega (
  arith,
  length-append (to_bytes 8 (word64 t.sec)) (to_bytes 8 (word64 t.sub)),
  length-to_bytes 8 (word64 t.sec),
  length-to_bytes 8 (word64 t.sub),
)

pub length-encode_all : (ts : List Time) → length (encode_all ts) ≡ 16 * length ts
length-encode_all [] = refl
length-encode_all (t ∷ ts) = omega (
  arith,
  length-append (encode_saved t) (encode_all ts),
  length-encode_saved t,
  length-encode_all ts,
)

drop_past : (m k : ℕ) (xs ys : List ℕ) → m ≡ length xs + k → drop m (xs ++ ys) ≡ drop k ys
drop_past m k [] ys h = let e : m ≡ k = omega arith in rw e refl
drop_past zero k (x ∷ xs) ys h = absurd (omega arith)
drop_past (suc m) k (x ∷ xs) ys h = drop_past m k xs ys (omega arith)

-- In a file of times whose two fields fit in 64 bits, as save_time writes them, the i-th entry is
-- read as the i-th time.
pub saved_at-encode_all :
    (ts : List Time) (i : ℕ) {t : Time}
    → AllFit64 ts
    → get_elem? ts i ≡ some t
    → saved_at (encode_all ts) i ≡ t
unfolding saved_at
saved_at-encode_all [] i fits h = cc
saved_at-encode_all (u ∷ ts) zero fits h =
    timespec_from_saved-encode_saved u (encode_all ts) fits.0 fits.1 ∙ (cc)
saved_at-encode_all (u ∷ ts) (suc i) fits h =
    rw
      (drop_past (16 * suc i) (16 * i) (encode_saved u) (encode_all ts)
        (omega (arith, length-encode_saved u)))
      (saved_at-encode_all ts i fits.2 h)
