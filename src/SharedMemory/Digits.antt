-- ===== src/SharedMemory/Digits.antt =====
-- Numbers in decimal digits, as ft_shm_create of src/libfaketime.c and src/faketime.c print them.
use libfaketime.Base.{
  ℕ, zero, suc, List, [], ◌∷◌, ◌++◌, ◌+◌, ◌-◌, ◌*◌, ◌/◌, ◌%◌, ◌^◌, ◌<◌, ◌≤◌, ◌==◌, ◌≡◌, ◌∙◌, refl,
  true, length, length-append, arith, Bool-cases, inl, inr,
}
use libfaketime.Base.Text.{is_digit}
use libfaketime.Shared.Names.Laws.{AllDigits}
use libfaketime.SharedMemory.{digits}

AllDigits-snoc : (ds : List ℕ) (c : ℕ) → AllDigits ds → is_digit c ≡ true → AllDigits (ds ++ c ∷ [])
AllDigits-snoc [] c h hc = (hc, tt)
AllDigits-snoc (d ∷ ds) c h hc = (h.0, AllDigits-snoc ds c h.1 hc)

last_digit : (n : ℕ) → is_digit (48 + n % 10) ≡ true
last_digit n = ground arith

pub digits-AllDigits : (k n : ℕ) → AllDigits (digits k n)
unfolding digits
digits-AllDigits zero n = tt
digits-AllDigits (suc k) n = elim (Bool-cases (n / 10 == 0)) [
  | inl one ↦ rw one (last_digit n, tt)
  | inr more ↦
      rw more (AllDigits-snoc (digits k (n / 10)) _ (digits-AllDigits k (n / 10)) (last_digit n))
]

pub length-digits : (k n : ℕ) → length (digits k n) ≤ k
unfolding digits
length-digits zero n = omega arith
length-digits (suc k) n =
    ground (arith, length-digits k (n / 10), length-append (digits k (n / 10)) ((48 + n % 10) ∷ []))

snoc_nonempty : (ds : List ℕ) (c : ℕ) → (d : ℕ) × (rest : List ℕ) × (ds ++ c ∷ [] ≡ d ∷ rest)
snoc_nonempty [] c = (c, [], refl)
snoc_nonempty (d ∷ ds) c = (d, ds ++ c ∷ [], refl)

pub digits-nonempty : (k n : ℕ) → (c : ℕ) × (cs : List ℕ) × (digits (suc k) n ≡ c ∷ cs)
unfolding digits
digits-nonempty k n = elim (Bool-cases (n / 10 == 0)) [
  | inl one ↦ (48 + n % 10, [], rw one refl)
  | inr more ↦ rw more (snoc_nonempty (digits k (n / 10)) (48 + n % 10))
]

-- The number that a text of digits stands for, after `n`.
abbrev pub value : ℕ → List ℕ → ℕ
value n [] = n
value n (c ∷ cs) = value (n * 10 + (c - 48)) cs

value-append : (n : ℕ) (cs ds : List ℕ) → value n (cs ++ ds) ≡ value (value n cs) ds
value-append n [] ds = refl
value-append n (c ∷ cs) ds = value-append (n * 10 + (c - 48)) cs ds

pow_suc : (k : ℕ) → 10 ^ suc k ≡ 10 * 10 ^ k
pow_suc k = omega arith

pub value-digits : (k n : ℕ) → n < 10 ^ k → value 0 (digits k n) ≡ n
unfolding digits
value-digits zero n h = omega arith
value-digits (suc k) n h = elim (Bool-cases (n / 10 == 0)) [
  | inl one ↦ rw one (ground arith)
  | inr more ↦
      let small : n / 10 < 10 ^ k = omega (arith, pow_suc k) in
      rw more (
        value-append 0 (digits k (n / 10)) ((48 + n % 10) ∷ [])
        ∙ rw (value-digits k (n / 10) small) (omega arith))
]
