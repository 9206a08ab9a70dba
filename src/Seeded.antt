-- ===== src/Seeded.antt =====
-- Random bytes from a seed, and the process number from a variable: getrandom, getentropy and
-- getpid of src/libfaketime.c. strtoull and strtol belong to the C library and are parameters; so
-- are the real functions, `none` where they were not found.
pub mod Laws
use libfaketime.Base.{
  ℕ, zero, suc, ◌+◌, ◌-◌, ◌*◌, ◌/◌, ◌%◌, ◌^◌, Bool, true, false, not, ◌&&◌, ◌||◌, ltb, Option, none,
  some, List, [], ◌∷◌, ◌==◌, if◌then◌else◌,
}
use libfaketime.Base.Int.{ℤ, pos, negsuc, ltb_ℤ, eqb_ℤ}
use libfaketime.Floats.{Floats}
use libfaketime.World.{World}

-- What a conversion of text to an integer leaves: the value, `*end`, whether anything was
-- converted, and errno == ERANGE.
pub record Converted {ℓ} (A : Type ℓ) : Type ℓ where
  pub value : A
  pub rest : List ℕ
  pub converted : Bool
  pub erange : Bool

abbrev pub whole_text {ℓ} : {A : Type ℓ} → Converted A → Bool
whole_text r = r.converted && (not r.erange && elim r.rest [ [] ↦ true | c ∷ cs ↦ false ])

-- *x and *w after a step of fakerandom_msws: squared and shifted by the Weyl sequence, halves
-- exchanged, modulo 2 ^ 64.
pub weyl : ℕ → ℕ → ℕ
weyl seed w = (w + seed) % 2 ^ 64

pub middle_square : ℕ → ℕ → ℕ → ℕ
unfolding weyl
middle_square seed x w = let y = (x * x + weyl seed w) % 2 ^ 64 in y / 2 ^ 32 + y % 2 ^ 32 * 2 ^ 32

-- The loop of bypass_randomness: n bytes.
pub fill : ℕ → ℕ → ℕ → ℕ → List ℕ
unfolding weyl middle_square
fill seed zero x w = []
fill seed (suc n) x w =
    middle_square seed x w % 256 ∷ fill seed n (middle_square seed x w) (weyl seed w)

-- Conversion to pid_t keeps the value modulo 2 ^ 32.
unfoldable pub wrap32 : ℤ → ℤ
wrap32 (pos n) =
    if ltb (n % 2 ^ 32) (2 ^ 31) then pos (n % 2 ^ 32) else negsuc (2 ^ 32 - n % 2 ^ 32 - 1)
wrap32 (negsuc n) =
    if ltb (n % 2 ^ 32) (2 ^ 31) then negsuc (n % 2 ^ 32) else pos (2 ^ 32 - n % 2 ^ 32 - 1)

module _ (F : Floats) (w : World F) where
  -- The bytes, or `none` for the return value 0. `buffer` says that `buf` is not NULL.
  pub bypass_randomness : (List ℕ → Converted ℕ) → Bool → ℕ → Option (List ℕ)
  bypass_randomness strtoull buffer n = elim (w.getenv "FAKERANDOM_SEED") [
    | none ↦ none
    | some text ↦
        if not buffer && not (n == 0)
        then none
        else if whole_text (strtoull text)
        then some (fill (strtoull text).value n 0 0)
        else none
  ]

  -- getrandom: its result and the bytes that it leaves in the buffer
  pub getrandom : (List ℕ → Converted ℕ) → Option (ℕ → ℤ × List ℕ) → Bool → ℕ → ℤ × List ℕ
  unfolding bypass_randomness
  getrandom strtoull real buffer n = elim (bypass_randomness strtoull buffer n) [
    | some bytes ↦ (pos n, bytes)
    | none ↦ elim real [ none ↦ (negsuc 0, []) | some r ↦ r n ]
  ]

  -- getentropy likewise, with the result 0
  pub getentropy : (List ℕ → Converted ℕ) → Option (ℕ → ℤ × List ℕ) → Bool → ℕ → ℤ × List ℕ
  unfolding bypass_randomness
  getentropy strtoull real buffer n = elim (bypass_randomness strtoull buffer n) [
    | some bytes ↦ (pos 0, bytes)
    | none ↦ elim real [ none ↦ (negsuc 0, []) | some r ↦ r n ]
  ]

  -- getpid
  pub getpid : (List ℕ → Converted ℤ) → Option ℤ → ℤ
  unfolding wrap32
  getpid strtol real = elim (w.getenv "FAKETIME_FAKEPID") [
    | some text ↦
        let pid = (strtol text).value in
        if not (whole_text (strtol text)) || (ltb_ℤ pid (pos 0) || not (eqb_ℤ (wrap32 pid) pid))
        then negsuc 0
        else pid
    | none ↦ elim real [ none ↦ negsuc 0 | some p ↦ p ]
  ]
