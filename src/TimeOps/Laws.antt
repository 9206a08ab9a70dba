-- ===== src/TimeOps/Laws.antt =====
-- timeradd2, timersub2 and timercmp2 at nanoseconds, against the numbers of nanoseconds.
use libfaketime.Base.{if◌then◌else◌, refl, ◌≡◌, ◌∙◌, inl, inr, Bool-cases, arith, tests}
use libfaketime.Base.Int.{ℤ, pos, ◌+ℤ◌, ◌-ℤ◌, ◌≤ℤ◌, int_laws, +ℤ_parts, -ℤ_parts, ltb_ℤ, leb_ℤ}
use libfaketime.TimeOps.{
  Stored, Time, time, sec_to_nsec, cmp, store_add, add, store_sub, subtract, timespecadd,
  timespecsub,
}
use libfaketime.TimeOps.Total.{
  nanos, IsNormal, FitsTime, Saturates, nanos_parts, nanos_laws, min_nanos, max_nanos,
}

store_add-Saturates :
    (s n z : ℤ)
    → IsNormal (time s n)
    → nanos (time s n) ≡ z
    → Saturates z (store_add sec_to_nsec s n)
unfolding store_add
store_add-Saturates s n z h e = ground (arith, nanos_parts (time s n))

store_sub-Saturates :
    (s n z : ℤ)
    → IsNormal (time s n)
    → nanos (time s n) ≡ z
    → Saturates z (store_sub sec_to_nsec s n)
unfolding store_sub
store_sub-Saturates s n z h e = ground (arith, nanos_parts (time s n))

-- timeradd2 of two normalised times, in nanoseconds, stores the normalised time of the sum of
-- their nanoseconds, without EOVERFLOW; a sum that does not fit becomes the greatest or the least
-- time, with EOVERFLOW.
pub add-Saturates :
    (a b : Time) → IsNormal a → IsNormal b → Saturates (nanos a +ℤ nanos b) (add sec_to_nsec a b)
unfolding add
add-Saturates a b ha hb = elim (Bool-cases (leb_ℤ (pos sec_to_nsec) (a.sub +ℤ b.sub))) [
  | inl carry ↦ rw carry (store_add-Saturates _ _ _ (omega (tests, int_laws)) (omega nanos_laws))
  | inr low ↦ elim (Bool-cases (ltb_ℤ (a.sub +ℤ b.sub) (pos 0))) [
    | inl negative ↦ absurd (omega (tests, +ℤ_parts))
    | inr positive ↦
        rw (low, positive) (store_add-Saturates _ _ _ (omega (tests, int_laws)) (omega nanos_laws))
  ]
]

-- timersub2 of two normalised times, in nanoseconds, stores the normalised time of the difference
-- of their nanoseconds, without EOVERFLOW; a difference that does not fit becomes the greatest or
-- the least time, with EOVERFLOW.
pub subtract-Saturates :
    (a b : Time)
    → IsNormal a
    → IsNormal b
    → Saturates (nanos a -ℤ nanos b) (subtract sec_to_nsec a b)
unfolding subtract
subtract-Saturates a b ha hb = elim (Bool-cases (ltb_ℤ (a.sub -ℤ b.sub) (pos 0))) [
  | inl borrow ↦ rw borrow (store_sub-Saturates _ _ _ (omega (tests, int_laws)) (omega nanos_laws))
  | inr other ↦ elim (Bool-cases (leb_ℤ (pos sec_to_nsec) (a.sub -ℤ b.sub))) [
    | inl large ↦ absurd (omega (tests, -ℤ_parts))
    | inr small ↦
        rw (other, small) (store_sub-Saturates _ _ _ (omega (tests, int_laws)) (omega nanos_laws))
  ]
]

pub nanos_inj : (a b : Time) → IsNormal a → IsNormal b → nanos a ≡ nanos b → a ≡ b
nanos_inj a b ha hb e = ground (arith, nanos_parts a, nanos_parts b)

pub nanos-FitsTime :
    (a : Time) → IsNormal a → FitsTime a → (min_nanos ≤ℤ nanos a) × (nanos a ≤ℤ max_nanos)
nanos-FitsTime a ha fa = omega nanos_laws

-- For normalised times, where `a` fits and the difference is in range, taking away `b` and adding
-- it again gives `a` back.
pub timespecadd-timespecsub :
    (a b : Time)
    → IsNormal a
    → IsNormal b
    → FitsTime a
    → min_nanos ≤ℤ nanos a -ℤ nanos b
    → nanos a -ℤ nanos b ≤ℤ max_nanos
    → timespecadd (timespecsub a b) b ≡ a
unfolding timespecadd timespecsub
timespecadd-timespecsub a b ha hb fa lo hi =
    let d = subtract-Saturates a b ha hb in
    let s = add-Saturates (timespecsub a b) b d.normal hb in
    let range = nanos-FitsTime a ha fa in
    let e : nanos (timespecsub a b) +ℤ nanos b ≡ nanos a =
      rw ((d.inside lo hi).0) (omega int_laws) in
    nanos_inj _ _ s.normal ha ((s.inside (rw e range.0) (rw e range.1)).0 ∙ e)

-- timercmp2 of two normalised times, with < and with <=, is the comparison of their nanoseconds.
pub cmp-nanos :
    (a b : Time)
    → IsNormal a
    → IsNormal b
    → (cmp ltb_ℤ a b ≡ ltb_ℤ (nanos a) (nanos b)) × (cmp leb_ℤ a b ≡ leb_ℤ (nanos a) (nanos b))
unfolding cmp
cmp-nanos a b ha hb = ground (arith, nanos_parts a, nanos_parts b)

abbrev pub clamp_nanos : ℤ → ℤ
clamp_nanos z = if ltb_ℤ z min_nanos then min_nanos else if ltb_ℤ max_nanos z then max_nanos else z

Saturates-clamp_nanos : (z : ℤ) (r : Stored) → Saturates z r → nanos r.value ≡ clamp_nanos z
Saturates-clamp_nanos z r h = elim (Bool-cases (ltb_ℤ z min_nanos)) [
  | inl low ↦ rw (low, (h.below (omega tests)).0) (omega nanos_laws)
  | inr enough ↦ elim (Bool-cases (ltb_ℤ max_nanos z)) [
    | inl high ↦ rw (enough, high, (h.above (omega tests)).0) (omega nanos_laws)
    | inr inside ↦ rw (enough, inside, (h.inside (omega tests) (omega tests)).0) refl
  ]
]

pub Saturates_mono :
    {z z' : ℤ} {r r' : Stored}
    → Saturates z r
    → Saturates z' r'
    → z ≤ℤ z'
    → nanos r.value ≤ℤ nanos r'.value
Saturates_mono {z} {z'} {r} {r'} h h' le =
    rw (Saturates-clamp_nanos z r h, Saturates-clamp_nanos z' r' h') (ground arith)

-- Adding `b` and taking `a` away again gives `b` back, unless the sum saturates.
pub timespecsub-timespecadd :
    (a b : Time)
    → IsNormal a
    → IsNormal b
    → FitsTime b
    → min_nanos ≤ℤ nanos a +ℤ nanos b
    → nanos a +ℤ nanos b ≤ℤ max_nanos
    → timespecsub (timespecadd a b) a ≡ b
unfolding timespecadd timespecsub
timespecsub-timespecadd a b ha hb fb lo hi =
    let s = add-Saturates a b ha hb in
    let d = subtract-Saturates (timespecadd a b) a s.normal ha in
    let range = nanos-FitsTime b hb fb in
    let e : nanos (timespecadd a b) -ℤ nanos a ≡ nanos b = rw (s.inside lo hi).0 (omega int_laws) in
    nanos_inj _ _ d.normal hb ((d.inside (rw e range.0) (rw e range.1)).0 ∙ e)

pub timespecadd_comm : (a b : Time) → timespecadd a b ≡ timespecadd b a
unfolding timespecadd add
timespecadd_comm a b =
    let s : a.sec +ℤ b.sec ≡ b.sec +ℤ a.sec = omega int_laws in
    let n : a.sub +ℤ b.sub ≡ b.sub +ℤ a.sub = omega int_laws in cc
