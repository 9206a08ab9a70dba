-- ===== src/Seeded/Laws.antt =====
-- The bytes of a seed, and the range of a process number.
use libfaketime.Base.{
  ◌≤◌, Bool, ℕ, zero, suc, ◌%◌, ◌≡◌, refl, ap, true, false, some, Option, List, [], ◌∷◌, length,
  take, arith, Bool-cases, inl, inr, not, ◌||◌,
}
use libfaketime.Base.Int.{ltb_ℤ, eqb_ℤ, ℤ, pos, negsuc, ◌≤ℤ◌}
use libfaketime.Floats.{Floats}
use libfaketime.World.{World}
use libfaketime.Seeded.{
  whole_text, Converted, weyl, middle_square, fill, wrap32, bypass_randomness, getrandom, getpid,
}

take-fill : (seed m n x w : ℕ) → m ≤ n → take m (fill seed n x w) ≡ fill seed m x w
unfolding fill
take-fill seed zero n x w h = refl
take-fill seed (suc m) zero x w h = absurd (omega arith)
take-fill seed (suc m) (suc n) x w h =
    ap (λ l. middle_square seed x w % 256 ∷ l)
      (take-fill seed m n (middle_square seed x w) (weyl seed w) (omega arith))

length-fill : (seed n x w : ℕ) → length (fill seed n x w) ≡ n
unfolding fill
length-fill seed zero x w = refl
length-fill seed (suc n) x w =
    omega (arith, length-fill seed n (middle_square seed x w) (weyl seed w))

-- The condition of getpid.
abbrev refused : Converted ℤ → Bool
refused r = not (whole_text r) || (ltb_ℤ r.value (pos 0) || not (eqb_ℤ (wrap32 r.value) r.value))

wrap32_range : (z : ℤ) → wrap32 z ≤ℤ pos 2147483647
unfolding wrap32
wrap32_range (pos n) = ground arith
wrap32_range (negsuc n) = ground arith

accepted_range :
    (r : Converted ℤ) → refused r ≡ false → (negsuc 0 ≤ℤ r.value) × (r.value ≤ℤ pos 2147483647)
accepted_range r h = (ground arith, ground (arith, wrap32_range r.value))

module _ (F : Floats) (w : World F) where
  -- With a seed that strtoull converts as a whole, getrandom fills the buffer, and a longer
  -- request begins with the bytes of a shorter one; the real function is not asked.
  pub getrandom_prefix :
      (strtoull : List ℕ → Converted ℕ) (real : Option (ℕ → ℤ × List ℕ)) (text : List ℕ) (m n : ℕ)
      → w.getenv "FAKERANDOM_SEED" ≡ some text
      → (strtoull text).converted ≡ true
      → (strtoull text).erange ≡ false
      → (strtoull text).rest ≡ []
      → m ≤ n
      → ((getrandom F w strtoull real true m).0 ≡ pos m)
        × (length (getrandom F w strtoull real true m).1 ≡ m)
        × (take m (getrandom F w strtoull real true n).1 ≡ (getrandom F w strtoull real true m).1)
  unfolding getrandom bypass_randomness
  getrandom_prefix strtoull real text m n hs hc he hr h =
      let seed = (strtoull text).value in
      rw (hs, getrandom, bypass_randomness)
        (rw (hc, he, hr) (refl, length-fill seed m 0 0, take-fill seed m n 0 0 h))

  -- Whatever text the variable holds, and whatever strtol makes of it, getpid returns -1 or a
  -- number from 0 to 2 ^ 31 - 1.
  pub getpid_range :
      (strtol : List ℕ → Converted ℤ) (real : Option ℤ) (text : List ℕ)
      → w.getenv "FAKETIME_FAKEPID" ≡ some text
      → (negsuc 0 ≤ℤ getpid F w strtol real) × (getpid F w strtol real ≤ℤ pos 2147483647)
  unfolding getpid
  getpid_range strtol real text hs =
      rw (hs, getpid)
        (elim (Bool-cases (refused (strtol text))) [
          | inl bad ↦ rw bad (omega arith, omega arith)
          | inr good ↦ rw good (accepted_range (strtol text) good)
        ])
