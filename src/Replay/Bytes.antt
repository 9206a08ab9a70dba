-- ===== src/Replay/Bytes.antt =====
-- struct saved_timestamp: two 64-bit words, big endian, sixteen bytes.
pub mod RoundTrip
pub mod File
use libfaketime.Base.{
  ℕ, zero, suc, ◌+◌, ◌-◌, ◌*◌, ◌/◌, ◌%◌, ◌^◌, Bool, ltb, List, [], ◌∷◌, ◌++◌, if◌then◌else◌, take,
  drop,
}
use libfaketime.Base.Int.{ℤ, pos, negsuc}
use libfaketime.TimeOps.{Time, time}

-- sizeof(struct saved_timestamp)
abbrev pub saved_size : ℕ
saved_size = 16

-- The bit pattern of a 64-bit integer, and the integer of a bit pattern.
pub word64 : ℤ → ℕ
word64 (pos n) = n % 2 ^ 64
word64 (negsuc n) = 2 ^ 64 - 1 - n % 2 ^ 64

unfoldable pub signed64 : ℕ → ℤ
signed64 w = if ltb w (2 ^ 63) then pos w else negsuc (2 ^ 64 - 1 - w)

-- htobe64, as the k bytes that it leaves in memory; be64toh of them
pub to_bytes : ℕ → ℕ → List ℕ
to_bytes zero w = []
to_bytes (suc k) w = to_bytes k (w / 256) ++ (w % 256) ∷ []

unfoldable pub from_bytes : ℕ → List ℕ → ℕ
from_bytes acc [] = acc
from_bytes acc (b ∷ bs) = from_bytes (acc * 256 + b) bs

pub encode_saved : Time → List ℕ
encode_saved t = to_bytes 8 (word64 t.sec) ++ to_bytes 8 (word64 t.sub)

unfoldable pub timespec_from_saved : List ℕ → Time
timespec_from_saved bytes =
    time (signed64 (from_bytes 0 (take 8 bytes))) (signed64 (from_bytes 0 (take 8 (drop 8 bytes))))

-- be64toh(saved->nsec) < SEC_TO_nSEC
unfoldable pub saved_timestamp_valid : List ℕ → Bool
saved_timestamp_valid bytes = ltb (from_bytes 0 (take 8 (drop 8 bytes))) 1000000000

-- stss[i]
unfoldable pub saved_at : List ℕ → ℕ → Time
saved_at file i = timespec_from_saved (drop (saved_size * i) file)
