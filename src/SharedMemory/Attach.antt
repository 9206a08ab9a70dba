-- ===== src/SharedMemory/Attach.antt =====
-- ft_shm_really_init and ft_shm_cleanup_attached of src/libfaketime.c: a process attaches itself to
-- the shared objects, its own or those that it has inherited.
pub mod Laws
use libfaketime.Base.{
  ℕ, zero, suc, ◌+◌, ◌-◌, Bool, true, false, not, ◌||◌, Option, none, some, List, [], ◌∷◌,
  if◌then◌else◌,
}
use libfaketime.Base.Int.{ℤ, pos, ltb_ℤ}
use libfaketime.Shared.{Shared, shared_header_valid, sizeof_shared}
use libfaketime.Shared.Names.{scan_word, parse_shared_objects}
use libfaketime.SharedMemory.{Objects, Answers, Ending, returned, exited, shm_create}

-- The answers of the system: whether the inherited semaphore can be opened, the attempts to open
-- it afterwards, those of each ft_shm_create, and those on the page.
pub record Inherited : Type 0 where
  pub not_stale : Bool
  pub opens : ℕ → Bool
  pub creates : ℕ → Answers
  pub shm_opens : Bool
  pub stat : Option ℤ
  pub maps : Option Shared
  pub closes : Bool

-- ft_shm_cleanup_attached
pub cleanup_attached : Objects → Objects
cleanup_attached s = record s { page = none; attach_fd = false; sem_initialized = false }

-- From close() of the descriptor on.
close_page : Inherited → Objects → Ending × Objects
unfolding cleanup_attached
close_page i s =
    let closed = record s { attach_fd = false } in
    if i.closes then (returned, closed) else (exited, cleanup_attached closed)

-- From mmap() on.
map_shared : Inherited → Objects → Ending × Objects
unfolding close_page cleanup_attached
map_shared i s = elim i.maps [
  | none ↦ (exited, cleanup_attached s)
  | some page ↦
      let mapped = record s { page = some page } in
      if shared_header_valid page then close_page i mapped else (exited, cleanup_attached mapped)
]

-- From shm_open() on: the object has to exist and to be large enough.
open_shared : Inherited → Objects → Ending × Objects
unfolding map_shared cleanup_attached
open_shared i s =
    let opened = record s { attach_fd = true } in
    if not i.shm_opens then (exited, cleanup_attached s) else elim i.stat [
      | none ↦ (exited, cleanup_attached opened)
      | some size ↦
          if ltb_ℤ size (pos sizeof_shared)
          then (exited, cleanup_attached opened)
          else map_shared i opened
    ]

-- sscanf(value, "%255s %255s", ...) < 2
two_words : List ℕ → Bool
two_words value = elim (scan_word 255 value) [
  | none ↦ false
  | some (sem, rest) ↦ elim (scan_word 255 rest) [ none ↦ false | some names ↦ true ]
]

-- A function that returns is followed by the rest; one that ends the process is not.
abbrev pub and_then : Ending × Objects → (Objects → Ending × Objects) → Ending × Objects
and_then (returned, s) f = f s
and_then (exited, s) f = (exited, s)

-- The label retry_shared_objects: the semaphore of FAKETIME_SHARED is opened; `failed` is what
-- follows if it cannot be. `k` counts the attempts.
attempt : Inherited → ℕ → Objects → (Objects → Ending × Objects) → Ending × Objects
unfolding open_shared two_words
attempt i k s failed = elim s.variable [
  | none ↦ (returned, s)
  | some value ↦ elim (two_words value) [
    | false ↦ (exited, s)
    | true ↦ elim (i.opens k) [
      | true ↦ open_shared i (record s { sem_initialized = true })
      | false ↦ failed s
    ]
  ]
]

-- The pair is dropped and created anew, unless the process had created it; then `rest` follows.
recreate : Inherited → ℕ → ℕ → (Objects → Ending × Objects) → Objects → Ending × Objects
recreate i pid k rest s = elim s.creator [
  | true ↦ (exited, s)
  | false ↦ and_then (shm_create (i.creates (k + 2)) pid (record s { variable = none })) rest
]

-- The number of retries that are left is FT_SHM_RETRY_LIMIT - 1 at first.
pub attach : Inherited → ℕ → ℕ → ℕ → Objects → Ending × Objects
unfolding attempt recreate
attach i pid zero k s = attempt i k s (λ t. (exited, t))
attach i pid (suc retries) k s = attempt i k s (recreate i pid k (attach i pid retries (k + 1)))

abbrev pub retry_limit : ℕ
retry_limit = 3

-- The objects are created unless they have been passed along.
create_if_unset : Inherited → ℕ → Objects → Ending × Objects
create_if_unset i pid s = elim s.variable [
  | none ↦ shm_create (i.creates 0) pid s
  | some value ↦ (returned, s)
]

-- The check for stale objects.
replace_if_stale : Inherited → ℕ → Objects → Ending × Objects
replace_if_stale i pid s = elim s.variable [
  | none ↦ (returned, s)
  | some value ↦ elim (parse_shared_objects value) [
    | none ↦ (exited, s)
    | some names ↦ if i.not_stale then (returned, s) else shm_create (i.creates 1) pid s
  ]
]

-- FAKETIME_FLSHM removes the variable.
leave : Bool → Objects → Ending × Objects
leave flush s = (returned, if flush then record s { variable = none } else s)

attach_and_leave : Inherited → Bool → ℕ → Objects → Ending × Objects
attach_and_leave i flush pid s = and_then (attach i pid (retry_limit - 1) 0 s) (leave flush)

check_and_attach : Inherited → Bool → ℕ → Objects → Ending × Objects
check_and_attach i flush pid s = and_then (replace_if_stale i pid s) (attach_and_leave i flush pid)

-- ft_shm_really_init; `flush` says that FAKETIME_FLSHM is set.
pub really_init : Inherited → Bool → ℕ → Objects → Ending × Objects
unfolding create_if_unset check_and_attach attach_and_leave replace_if_stale leave
really_init i flush pid s = and_then (create_if_unset i pid s) (check_and_attach i flush pid)
