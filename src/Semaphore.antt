-- ===== src/Semaphore.antt =====
-- The semaphores of src/ft_sem.c, with its three back ends on Linux. A function is what it asks of
-- the system, and what it makes of the answer; the system's semaphores and locks are not modelled.
pub mod Laws
use libfaketime.Base.{
  ℕ, Bool, true, false, not, ◌&&◌, ◌||◌, Option, none, some, List, [], ◌∷◌, ◌++◌, take, drop,
  length, if◌then◌else◌,
}
use libfaketime.Base.Int.{ℤ, pos, negsuc}
use libfaketime.Base.Text.{codes, starts_with}

-- FT_POSIX, FT_SYSV and FT_FLOCK
pub data Backend : Type 0 where
  posix sysv flock : Backend

-- ft_sem_t: the name, and the object behind sem, semid or fd
pub record Sem : Type 0 where
  pub name : List ℕ
  pub object : List ℕ

-- sizeof(name), sizeof(path) and sizeof(fullname), less the NUL
abbrev pub room : ℕ
room = 255

-- strstr(s, needle) + strlen(needle)
unfoldable pub behind : List ℕ → List ℕ → Option (List ℕ)
behind needle [] = if starts_with needle [] then some (drop (length needle) []) else none
behind needle (c ∷ s) =
    let rest = behind needle s in
    if starts_with needle (c ∷ s) then some (drop (length needle) (c ∷ s)) else rest

-- ft_sem_name_to_path
unfoldable pub ft_sem_name_to_path : List ℕ → Option (List ℕ)
unfolding behind
ft_sem_name_to_path name = elim (behind (codes "/faketime_sem_") name) [
  | none ↦ none
  | some pid ↦ some (take room (codes "/dev/shm/faketime_lock_" ++ pid))
]

-- The object of a name: the semaphore itself, the file that ft_sem_name2key makes a key of, or the
-- file that is locked. `keyed` says whether ft_sem_name2key succeeds; where it fails its result is
-- the key -1, of the semaphore that is written as [] here.
unfoldable pub object_of : Backend → Bool → List ℕ → Option (List ℕ)
unfolding ft_sem_name_to_path
object_of posix keyed name = some name
object_of sysv keyed name = some (if keyed then take room (codes "/tmp" ++ name) else [])
object_of flock keyed name = ft_sem_name_to_path name

-- The system calls. `change n` is semop with sem_op n, or sem_post and sem_wait.
pub data Call : Type 0 where
  create_new open_old remove : List ℕ → Call
  change : List ℕ → ℤ → Call
  lock_file unlock_file : List ℕ → Call
  close_handle : List ℕ → Call
  no_call : Call

unfoldable pub create_call : Backend → Bool → List ℕ → Call
unfolding object_of
create_call b keyed name = elim (object_of b keyed name) [ none ↦ no_call | some o ↦ create_new o ]

unfoldable pub open_call : Backend → Bool → List ℕ → Call
unfolding object_of
open_call b keyed name = elim (object_of b keyed name) [ none ↦ no_call | some o ↦ open_old o ]

-- ft_sem_create: `opens` is the answer to the call, `posts` that to the semop with which the back
-- end of System V releases the new semaphore.
unfoldable pub ft_sem_create : Backend → Bool → Bool → Bool → List ℕ → Option Sem
unfolding object_of
ft_sem_create b keyed opens posts name = elim (object_of b keyed name) [
  | none ↦ none
  | some o ↦
      let s : Sem = record { name = take room name; object = o } in
      if not opens then none else elim b [ sysv ↦ if posts then some s else none | _ ↦ some s ]
]

-- ft_sem_open
unfoldable pub ft_sem_open : Backend → Bool → Bool → List ℕ → Option Sem
unfolding object_of
ft_sem_open b keyed opens name = elim (object_of b keyed name) [
  | none ↦ none
  | some o ↦ if opens then some (record { name = take room name; object = o }) else none
]

-- ft_sem_lock and ft_sem_unlock; the result is that of the call.
pub lock_call : Backend → Sem → Call
lock_call posix s = change s.object (negsuc 0)
lock_call sysv s = change s.object (negsuc 0)
lock_call flock s = lock_file s.object

pub unlock_call : Backend → Sem → Call
unlock_call posix s = change s.object (pos 1)
unlock_call sysv s = change s.object (pos 1)
unlock_call flock s = unlock_file s.object

-- ft_sem_close
pub close_call : Backend → Sem → Call
close_call posix s = close_handle s.object
close_call sysv s = no_call
close_call flock s = close_handle s.object

-- ft_sem_unlink: by the name, or by the identifier with System V
unfoldable pub unlink_call : Backend → Sem → Call
unfolding ft_sem_name_to_path
unlink_call posix s = remove s.name
unlink_call sysv s = remove s.object
unlink_call flock s = elim (ft_sem_name_to_path s.name) [ none ↦ no_call | some path ↦ remove path ]
