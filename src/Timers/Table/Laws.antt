-- ===== src/Timers/Table/Laws.antt =====
-- The loops of remember_timerfd_clock and timerfd_clock, of src/libfaketime.c.
use libfaketime.Base.{
  if◌then◌else◌, ◌||◌, ◌&&◌, Bool, true, false, List, [], ◌∷◌, ◌≡◌, ◌≢◌, refl, arith, inl, inr,
  Bool-cases,
}
use libfaketime.Base.Int.{eqb_ℤ, ℤ, pos}
use libfaketime.Timers.Table.{Entry, remember, recall, is_home}

-- Whether the table has an entry for `fd`: its own, or a free one.
abbrev pub has_home : ℤ → List Entry → Bool
has_home fd [] = false
has_home fd (e ∷ es) = is_home fd e || has_home fd es

recall-remember :
    (fd clock : ℤ) (es : List Entry)
    → has_home fd es ≡ true
    → recall fd (remember fd clock es) ≡ clock
unfolding recall remember
recall-remember fd clock [] h = cc
recall-remember fd clock (e ∷ es) h = elim (Bool-cases (is_home fd e)) [
  | inl home ↦ ground arith
  | inr other ↦ ground (arith, recall-remember fd clock es)
]

recall-remember_other :
    (fd fd' clock : ℤ) (es : List Entry)
    → fd' ≢ fd
    → fd' ≢ pos 0
    → recall fd' (remember fd clock es) ≡ recall fd' es
unfolding recall remember
recall-remember_other fd fd' clock [] h h0 = refl
recall-remember_other fd fd' clock (e ∷ es) h h0 =
    ground (arith, recall-remember_other fd fd' clock es h h0)

remember_full :
    (fd clock : ℤ) (es : List Entry) → has_home fd es ≡ false → remember fd clock es ≡ es
unfolding remember
remember_full fd clock [] h = refl
remember_full fd clock (e ∷ es) h = ground (arith, remember_full fd clock es)

-- As a map from descriptors other than 0, the table after remember_timerfd_clock differs from the
-- table before it at most at `fd`, where timerfd_clock's loop now finds the new clock if the table
-- had an entry of `fd` or a free one, and what it found before otherwise.
pub recall-remember_update :
    (fd fd' clock : ℤ) (es : List Entry)
    → fd' ≢ pos 0
    → recall fd' (remember fd clock es)
      ≡ (if eqb_ℤ fd' fd && has_home fd es then clock else recall fd' es)
recall-remember_update fd fd' clock es h = elim (Bool-cases (eqb_ℤ fd' fd)) [
  | inl same ↦
      let e : fd' ≡ fd = ground arith in
      rw e (elim (Bool-cases (has_home fd es)) [
        | inl room ↦ rw room (ground (arith, recall-remember fd clock es room))
        | inr full ↦ rw (full, remember_full fd clock es full) (ground arith)
      ])
  | inr other ↦ rw other (recall-remember_other fd fd' clock es (ground arith) h)
]
