-- ===== src/Replay/Bytes/RoundTrip.antt =====
-- A saved timestamp, written and read.
use mathlib.Core.List.{append_assoc}
use native.Mathlib.Nat.{pow-suc}
use libfaketime.Base.{
  take-append, drop-append, ◌+◌, ◌%◌, ◌/◌, ◌*◌, length-append, [], ℕ, zero, suc, ◌≡◌, refl, List,
  ◌∷◌, ◌++◌, ◌<◌, ◌^◌, length, arith,
}
use libfaketime.Base.Int.{ℤ, pos, negsuc, ◌≤ℤ◌}
use libfaketime.TimeOps.{Time, time_min, time_max}
use libfaketime.Replay.Bytes.{
  word64, signed64, to_bytes, from_bytes, encode_saved, timespec_from_saved, saved_at, saved_size,
}

from_bytes-append :
    (acc : ℕ) (xs : List ℕ) (b : ℕ) → from_bytes acc (xs ++ b ∷ []) ≡ from_bytes acc xs * 256 + b
unfolding from_bytes
from_bytes-append acc [] b = refl
from_bytes-append acc (x ∷ xs) b = from_bytes-append (acc * 256 + x) xs b

from_bytes-to_bytes : (k w : ℕ) → w < 256 ^ k → from_bytes 0 (to_bytes k w) ≡ w
unfolding to_bytes
from_bytes-to_bytes zero w h = unfold from_bytes in omega arith
from_bytes-to_bytes (suc k) w h =
    rw (from_bytes-append 0 (to_bytes k (w / 256)) (w % 256))
      (omega (arith, from_bytes-to_bytes k (w / 256) (omega (arith, pow-suc 256 k))))

pub length-to_bytes : (k w : ℕ) → length (to_bytes k w) ≡ k
unfolding to_bytes
length-to_bytes zero w = refl
length-to_bytes (suc k) w =
    omega (arith, length-append (to_bytes k (w / 256)) (w % 256 ∷ []), length-to_bytes k (w / 256))

signed64-word64 : (z : ℤ) → time_min ≤ℤ z → z ≤ℤ time_max → signed64 (word64 z) ≡ z
unfolding signed64 word64
signed64-word64 (pos n) lo hi = ground arith
signed64-word64 (negsuc n) lo hi = ground arith

word64-lt : (z : ℤ) → word64 z < 256 ^ 8
unfolding word64
word64-lt (pos n) = omega arith
word64-lt (negsuc n) = omega arith

abbrev pub Fits64 : ℤ → Type 0
Fits64 z = (time_min ≤ℤ z) × (z ≤ℤ time_max)

-- What save_time writes, load_time reads: for every time of two 64-bit fields, whatever follows
-- it in the file.
pub timespec_from_saved-encode_saved :
    (t : Time) (rest : List ℕ)
    → Fits64 t.sec
    → Fits64 t.sub
    → timespec_from_saved (encode_saved t ++ rest) ≡ t
unfolding timespec_from_saved encode_saved
timespec_from_saved-encode_saved t rest hs hn =
    let xs = to_bytes 8 (word64 t.sec) in
    let ys = to_bytes 8 (word64 t.sub) in
    let lx = length-to_bytes 8 (word64 t.sec) in
    let ly = length-to_bytes 8 (word64 t.sub) in
    rw (append_assoc xs ys rest) (
      rw (
        take-append 8 xs (ys ++ rest) lx,
        drop-append 8 xs (ys ++ rest) lx,
        take-append 8 ys rest ly,
        from_bytes-to_bytes 8 (word64 t.sec) (word64-lt t.sec),
        from_bytes-to_bytes 8 (word64 t.sub) (word64-lt t.sub),
        signed64-word64 t.sec hs.0 hs.1,
        signed64-word64 t.sub hn.0 hn.1,
      ))

-- The same for the i-th entry of a file: `before` holds i entries.
pub saved_at-encode_saved :
    (before rest : List ℕ) (i : ℕ) (t : Time)
    → length before ≡ saved_size * i
    → Fits64 t.sec
    → Fits64 t.sub
    → saved_at (before ++ encode_saved t ++ rest) i ≡ t
unfolding saved_at
saved_at-encode_saved before rest i t h hs hn =
    rw
      (
        append_assoc before (encode_saved t) rest,
        drop-append (16 * i) before (encode_saved t ++ rest) h,
      )
      (timespec_from_saved-encode_saved t rest hs hn)
