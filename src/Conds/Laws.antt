-- ===== src/Conds/Laws.antt =====
-- The table of monotonic condition variables, of src/libfaketime.c.
use libfaketime.Base.{
  ◌-◌, Option, Bool, false, none, some, ℕ, suc, ◌&&◌, ◌==◌, if◌then◌else◌, ◌≡◌, arith,
}
use libfaketime.Conds.{
  realtime, is_monotonic_id, pos, monotonic, ClockId, ℤ, eqb_ℤ, cond_init, cond_destroy, cond_clock,
  PointerTable, InitAnswers, use_attr, register,
}

-- Every step of pthread_cond_init succeeds, and the attribute asks for CLOCK_MONOTONIC.
abbrev pub asks_monotonic : Option (ℤ × ClockId) → Bool
asks_monotonic none = false
asks_monotonic (some (r, clock)) = eqb_ℤ r (pos 0) && is_monotonic_id clock

abbrev pub registers : InitAnswers → Bool
registers a =
    eqb_ℤ a.real (pos 0)
    && (asks_monotonic a.attr && (a.malloc && (eqb_ℤ a.lock (pos 0) && eqb_ℤ a.unlock (pos 0))))

module _ (P : PointerTable) where
  open P use {Table, count, add, delete, count-add, count-delete}

  use_attr-count :
      (attr : Option (ℤ × ClockId)) (a : InitAnswers) (cond : ℕ) (t : Table) (l : ℕ)
      → count l (use_attr P attr a cond t).2 ≡ (
          if l == cond
            && (asks_monotonic attr
                && (a.malloc && (eqb_ℤ a.lock (pos 0) && eqb_ℤ a.unlock (pos 0))))
          then suc (count l t)
          else count l t)
  unfolding use_attr register
  use_attr-count none a cond t l = ground arith
  use_attr-count (some (r, clock)) a cond t l =
      ground (arith, count-add cond t l, count-delete cond (add cond t) l)

  cond_init-count :
      (a : InitAnswers) (cond : ℕ) (t : Table) (l : ℕ)
      → count l (cond_init P a cond t).2
        ≡ (if l == cond && registers a then suc (count l t) else count l t)
  unfolding cond_init
  cond_init-count a cond t l = ground (arith, use_attr-count a.attr a cond t l)

  cond_destroy-count :
      (unlock : ℤ) (cond : ℕ) (t : Table) (l : ℕ)
      → count l (cond_destroy P (pos 0) (pos 0) unlock cond t).1
        ≡ (if l == cond then count l t - 1 else count l t)
  unfolding cond_destroy
  cond_destroy-count unlock cond t l = ground (arith, count-delete cond t l)

  -- A condition variable that is not in the table, from pthread_cond_init to a pthread_cond_destroy
  -- whose real function and locking succeed: in between, pthread_cond_timedwait uses
  -- CLOCK_MONOTONIC exactly if every step of the initialisation succeeded and the attribute's clock
  -- is CLOCK_MONOTONIC, and CLOCK_REALTIME otherwise. Afterwards the table has each pointer as
  -- often as before.
  pub cond_init-cond_destroy :
      (a : InitAnswers) (unlock : ℤ) (cond : ℕ) (t : Table)
      → count cond t ≡ 0
      → (cond_clock P cond (cond_init P a cond t).2 ≡ (if registers a then monotonic else realtime))
        × ((l : ℕ)
            → count l (cond_destroy P (pos 0) (pos 0) unlock cond (cond_init P a cond t).2).1
              ≡ count l t)
  unfolding cond_clock
  cond_init-cond_destroy a unlock cond t h = (
    ground (arith, cond_init-count a cond t cond),
    λ l. ground (
      arith,
      cond_init-count a cond t l,
      cond_destroy-count unlock cond (cond_init P a cond t).2 l,
    ),
  )
