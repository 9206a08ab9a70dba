-- ===== src/SharedMemory/Attach/Laws.antt =====
-- The ends of ft_shm_really_init.
use libfaketime.Base.{
  Bool-cases, Option-cases, ℕ, zero, suc, Bool, true, false, ◌≡◌, refl, none, some, ◌⊎◌, inl, inr,
  arith, ◌+◌,
}
use libfaketime.Shared.{sizeof_shared, Shared, shared_header_valid}
use libfaketime.SharedMemory.{Objects, Answers, Ending, returned, exited, shm_create}
use libfaketime.SharedMemory.Attach.{
  recreate, leave, check_and_attach, attach_and_leave, pos, replace_if_stale, map_shared, ltb_ℤ,
  create_if_unset, two_words, Inherited, attach, and_then, really_init, attempt, open_shared,
}

-- Attached to a valid page of sufficient size, or not attached at all.
abbrev pub Detached : Objects → Type 0
Detached s = (s.sem_initialized ≡ false) × (s.page ≡ none) × (s.attach_fd ≡ false)

abbrev pub Attached : Objects → Type 0
Attached s =
    (s.sem_initialized ≡ true)
    × (s.attach_fd ≡ false)
    × ((page : Shared) × (s.page ≡ some page) × (shared_header_valid page ≡ true))

abbrev pub EndsWell : Ending × Objects → Type 0
EndsWell (returned, s) = Detached s ⊎ Attached s
EndsWell (exited, s) = Detached s

map_shared-EndsWell :
    (i : Inherited) (s : Objects) → s.sem_initialized ≡ true → EndsWell (map_shared i s)
unfolding map_shared
map_shared-EndsWell i s hs = elim (Option-cases i.maps) [
  | inl e ↦ rw (e, map_shared) (refl, refl, refl)
  | inr (page, e) ↦
      rw (e, map_shared)
        (elim (Bool-cases (shared_header_valid page)) [
          | inr bad ↦ rw bad (refl, refl, refl)
          | inl good ↦ rw good (elim (Bool-cases i.closes) [
            | inr fails ↦ rw fails (refl, refl, refl)
            | inl closes ↦ rw closes (inr (hs, refl, (page, refl, good)))
          ])
        ])
]

open_shared-EndsWell :
    (i : Inherited) (s : Objects)
    → s.page ≡ none
    → s.attach_fd ≡ false
    → s.sem_initialized ≡ true
    → EndsWell (open_shared i s)
unfolding open_shared
open_shared-EndsWell i s hp hf hs = elim (Bool-cases i.shm_opens) [
  | inr e ↦ rw e (refl, refl, refl)
  | inl e ↦ rw e (elim (Option-cases i.stat) [
    | inl e ↦ rw (e, open_shared) (refl, refl, refl)
    | inr (size, e) ↦
        rw (e, open_shared)
          (elim (Bool-cases (ltb_ℤ size (pos sizeof_shared))) [
            | inl small ↦ rw small (refl, refl, refl)
            | inr enough ↦ rw enough (map_shared-EndsWell i (record s { attach_fd = true }) hs)
          ])
  ])
]

shm_create-Detached :
    (a : Answers) (pid : ℕ) (s : Objects) → Detached s → Detached (shm_create a pid s).1
unfolding shm_create
shm_create-Detached a pid s h = ground arith

and_then-EndsWell :
    (r : Ending × Objects) (f : Objects → Ending × Objects)
    → Detached r.1
    → ((s : Objects) → Detached s → EndsWell (f s))
    → EndsWell (and_then r f)
and_then-EndsWell (returned, s) f h k = k s h
and_then-EndsWell (exited, s) f h k = h

attempt-EndsWell :
    (i : Inherited) (k : ℕ) (s : Objects) (failed : Objects → Ending × Objects)
    → Detached s
    → EndsWell (failed s)
    → EndsWell (attempt i k s failed)
unfolding attempt
attempt-EndsWell i k s failed h hf =
    let opened = open_shared-EndsWell i (record s { sem_initialized = true }) h.1 h.2 refl in
    elim (Option-cases s.variable) [
      | inl e ↦ rw (e, attempt) (inl h)
      | inr (value, e) ↦
          rw (e, attempt)
            (elim (Bool-cases (two_words value)) [
              | inr bad ↦ rw bad h
              | inl good ↦ rw good (elim (Bool-cases (i.opens k)) [
                | inl opens ↦ rw opens opened
                | inr fails ↦ rw fails hf
              ])
            ])
    ]

recreate-EndsWell :
    (i : Inherited) (pid k : ℕ) (rest : Objects → Ending × Objects) (s : Objects)
    → Detached s
    → ((t : Objects) → Detached t → EndsWell (rest t))
    → EndsWell (recreate i pid k rest s)
unfolding recreate
recreate-EndsWell i pid k rest s h hr = elim (Bool-cases s.creator) [
  | inl own ↦ rw (own, recreate) h
  | inr inherited ↦
      let fresh = record s { variable = none } in
      rw (inherited, recreate)
        (and_then-EndsWell (shm_create (i.creates (k + 2)) pid fresh) rest
          (shm_create-Detached (i.creates (k + 2)) pid fresh h) hr)
]

attach-EndsWell :
    (i : Inherited) (pid retries k : ℕ) (s : Objects)
    → Detached s
    → EndsWell (attach i pid retries k s)
unfolding attach
attach-EndsWell i pid zero k s h = attempt-EndsWell i k s (λ t. (exited, t)) h h
attach-EndsWell i pid (suc retries) k s h =
    let rest = attach i pid retries (k + 1) in
    attempt-EndsWell i k s (recreate i pid k rest) h
      (recreate-EndsWell i pid k rest s h (attach-EndsWell i pid retries (k + 1)))

create_if_unset-Detached :
    (i : Inherited) (pid : ℕ) (s : Objects) → Detached s → Detached (create_if_unset i pid s).1
unfolding create_if_unset
create_if_unset-Detached i pid s h = ground (arith, shm_create-Detached (i.creates 0) pid s h)

replace_if_stale-Detached :
    (i : Inherited) (pid : ℕ) (s : Objects) → Detached s → Detached (replace_if_stale i pid s).1
unfolding replace_if_stale
replace_if_stale-Detached i pid s h = ground (arith, shm_create-Detached (i.creates 1) pid s h)

leave-EndsWell :
    (flush : Bool) (r : Ending × Objects) → EndsWell r → EndsWell (and_then r (leave flush))
unfolding leave
leave-EndsWell true (returned, s) h = h
leave-EndsWell false (returned, s) h = h
leave-EndsWell flush (exited, s) h = h

attach_and_leave-EndsWell :
    (i : Inherited) (flush : Bool) (pid : ℕ) (s : Objects)
    → Detached s
    → EndsWell (attach_and_leave i flush pid s)
unfolding attach_and_leave
attach_and_leave-EndsWell i flush pid s h =
    leave-EndsWell flush (attach i pid 2 0 s) (attach-EndsWell i pid 2 0 s h)

check_and_attach-EndsWell :
    (i : Inherited) (flush : Bool) (pid : ℕ) (s : Objects)
    → Detached s
    → EndsWell (check_and_attach i flush pid s)
unfolding check_and_attach
check_and_attach-EndsWell i flush pid s h =
    and_then-EndsWell (replace_if_stale i pid s) (attach_and_leave i flush pid)
      (replace_if_stale-Detached i pid s h) (attach_and_leave-EndsWell i flush pid)

-- However the system answers and whatever FAKETIME_SHARED holds, a process that was not attached
-- either returns from ft_shm_really_init with its semaphore and a mapped page whose header is
-- valid, or with neither of them; where the function ends the process it has neither. No
-- descriptor stays open.
pub really_init-EndsWell :
    (i : Inherited) (flush : Bool) (pid : ℕ) (s : Objects)
    → Detached s
    → EndsWell (really_init i flush pid s)
unfolding really_init
really_init-EndsWell i flush pid s h =
    and_then-EndsWell (create_if_unset i pid s) (check_and_attach i flush pid)
      (create_if_unset-Detached i pid s h) (check_and_attach-EndsWell i flush pid)
