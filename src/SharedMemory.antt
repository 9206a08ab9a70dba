-- ===== src/SharedMemory.antt =====
-- The life of the shared objects: ft_shm_create, ft_shm_cleanup_created, ft_shm_destroy and
-- ft_cleanup of src/libfaketime.c. The model keeps which objects exist under their names, what the
-- process holds of them, and FAKETIME_SHARED; whether a system call succeeds is given from outside.
pub mod Laws
pub mod Digits
pub mod RoundTrip
pub mod Attach
use libfaketime.Base.{
  ℕ, zero, suc, ◌+◌, ◌/◌, ◌%◌, Bool, true, false, not, ◌&&◌, Option, none, some, List, [], ◌∷◌,
  ◌++◌, ◌==◌, if◌then◌else◌,
}
use libfaketime.Base.Text.{codes}
use libfaketime.Shared.{Shared, created}
use libfaketime.Shared.Names.{sem_prefix, shm_prefix, parse_shared_objects}

-- "%ld" of a number of at most 20 digits
unfoldable pub digits : ℕ → ℕ → List ℕ
digits zero n = []
digits (suc k) n =
    let rest = digits k (n / 10) in
    if n / 10 == 0 then (48 + n % 10) ∷ [] else rest ++ (48 + n % 10) ∷ []

abbrev pub decimal : ℕ → List ℕ
decimal n = digits 20 n

abbrev pub sem_name : ℕ → List ℕ
sem_name pid = sem_prefix ++ decimal pid

abbrev pub shm_name : ℕ → List ℕ
shm_name pid = shm_prefix ++ decimal pid

-- "%s %s": the value of FAKETIME_SHARED
abbrev pub shared_objects : ℕ → List ℕ
shared_objects pid = sem_name pid ++ 32 ∷ shm_name pid

-- Whether the names of this process exist in the system, what ft_shm_create holds (semN,
-- shm_fdN, ft_sharedN), what the process is attached to (shared_sem_initialized, ticks_shm_fd,
-- ft_shared), shmCreator, and FAKETIME_SHARED.
pub record Objects : Type 0 where
  pub sem_named : Bool
  pub shm_named : Bool
  pub sem_open : Bool
  pub sem_locked : Bool
  pub shm_fd : Bool
  pub mapping : Option Shared
  pub sem_initialized : Bool
  pub attach_fd : Bool
  pub page : Option Shared
  pub creator : Bool
  pub variable : Option (List ℕ)

-- The system calls of ft_shm_create: true for success. `sem_posts` is the semop of ft_sem_create in
-- the back end of System V. Behind setenv stand the calls that undo the creation: ft_sem_unlock,
-- munmap and ft_sem_close of ft_shm_cleanup_created, or of the failing shm_open, and the removal of
-- the two names. `undo_sem_close` is also that of the semaphore that is opened again. A descriptor
-- is gone also where close fails, as on Linux.
pub record Answers : Type 0 where
  pub sem_create : Bool
  pub sem_posts : Bool
  pub shm_create : Bool
  pub truncate : Bool
  pub map : Bool
  pub close_fd : Bool
  pub lock : Bool
  pub unlock : Bool
  pub unmap : Bool
  pub sem_close : Bool
  pub sem_reopen : Bool
  pub setenv : Bool
  pub undo_unlock : Bool
  pub undo_unmap : Bool
  pub undo_sem_close : Bool
  pub sem_unlink : Bool
  pub shm_unlink : Bool

-- A function returns, or ends the process with a failure.
pub data Ending : Type 0 where
  returned exited : Ending

-- ft_sem_unlink and shm_unlink
abbrev unlink_both : Answers → Objects → Objects
unlink_both a s = record s {
  sem_named = s.sem_named && not a.sem_unlink;
  shm_named = s.shm_named && not a.shm_unlink;
}

-- ft_shm_cleanup_created; `mapped` says that `mapping` is not MAP_FAILED.
pub cleanup_created : Answers → Bool → Bool → Objects → Objects
cleanup_created a locked mapped s = record (unlink_both a s) {
  sem_locked = s.sem_locked && not (locked && a.undo_unlock);
  mapping = if mapped && a.undo_unmap then none else s.mapping;
  shm_fd = false;
  sem_open = s.sem_open && not a.undo_sem_close;
}

-- From ft_sem_close on: the pair is published if the semaphore can be opened again, which is closed
-- at once.
publish : Answers → ℕ → Objects → Ending × Objects
publish a pid s =
    let closed = record s { sem_open = false } in
    let reopened = record closed { sem_open = not a.undo_sem_close } in
    if not a.sem_close
    then (returned, unlink_both a s)
    else if not a.sem_reopen
    then (returned, unlink_both a closed)
    else if not a.setenv
    then (returned, unlink_both a reopened)
    else (returned, record reopened { variable = some (shared_objects pid); creator = true })

-- From the lock on: the page is filled, unlocked and unmapped. Where munmap fails, the page is
-- still mapped, but ft_sharedN is MAP_FAILED.
fill_page : Answers → ℕ → Objects → Ending × Objects
unfolding cleanup_created publish
fill_page a pid s =
    let filled = record s { sem_locked = true; mapping = some created } in
    if not a.lock
    then (exited, cleanup_created a false true s)
    else if not a.unlock
    then (exited, cleanup_created a true true filled)
    else if not a.unmap
    then (exited, cleanup_created a false false (record filled { sem_locked = false }))
    else publish a pid (record filled { sem_locked = false; mapping = none })

-- From ftruncate on: the page is sized and mapped, and the descriptor closed.
map_page : Answers → ℕ → Objects → Ending × Objects
unfolding cleanup_created fill_page
map_page a pid s =
    let mapped = record s { mapping = some created } in
    if not a.truncate
    then (exited, cleanup_created a false false s)
    else if not a.map
    then (exited, cleanup_created a false false s)
    else if not a.close_fd
    then (exited, cleanup_created a false true (record mapped { shm_fd = false }))
    else fill_page a pid (record mapped { shm_fd = false })

-- ft_shm_create; O_CREAT|O_EXCL fails where the name exists. A semaphore of System V that cannot be
-- released is left behind, locked.
pub shm_create : Answers → ℕ → Objects → Ending × Objects
unfolding map_page
shm_create a pid s =
    let with_sem = record s { sem_named = true; sem_open = true } in
    if not (a.sem_create && not s.sem_named)
    then (returned, s)
    else if not a.sem_posts
    then (returned, record s { sem_named = true; sem_locked = true })
    else if not (a.shm_create && not s.shm_named)
    then (
      returned,
      record with_sem { sem_open = not a.undo_sem_close; sem_named = not a.sem_unlink },
    )
    else map_page a pid (record with_sem { shm_named = true; shm_fd = true })

-- ft_shm_destroy: the names are those of FAKETIME_SHARED, and their owner removes them, as far as
-- the two calls of `a` succeed. `opens` says whether ft_sem_open succeeds, `owner` is whether the
-- number in the semaphore's name is the process's own.
pub shm_destroy : Answers → Bool → Bool → Objects → Ending × Objects
shm_destroy a opens owner s = elim s.variable [
  | none ↦ (returned, s)
  | some value ↦ elim (parse_shared_objects value) [
    | none ↦ (exited, s)
    | some names ↦
        (returned, if opens && owner then record (unlink_both a s) { variable = none } else s)
  ]
]

-- ft_cleanup, of the shared objects
pub cleanup : Answers → Bool → Bool → Objects → Ending × Objects
unfolding shm_destroy
cleanup a opens owner s =
    let detached = record s { page = none; sem_initialized = false } in
    let (e, s') = shm_destroy a opens owner detached in
    if s.creator then (e, record s' { creator = false }) else (returned, detached)
