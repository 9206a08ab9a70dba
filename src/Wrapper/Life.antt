-- ===== src/Wrapper/Life.antt =====
-- The semaphore and the shared memory of the wrapper, from their creation in main to the end of
-- the program that it runs, of src/faketime.c. `Answers` are those of the system calls in main;
-- `unmap` and `unlock` come in the other order than in the library.
pub mod Laws
use libfaketime.Base.{
  ℕ, Bool, true, false, not, ◌&&◌, ◌||◌, Option, none, some, List, [], ◌∷◌, if◌then◌else◌,
}
use libfaketime.Shared.{Shared, created}
use libfaketime.SharedMemory.{Ending, returned, exited}
use libfaketime.Wrapper.{ReadByte, byte, interrupted, failed}

-- Whether the two names exist, and what the wrapper holds: its lock, the descriptor, the page.
pub record Held : Type 0 where
  pub sem_named : Bool
  pub shm_named : Bool
  pub sem_locked : Bool
  pub shm_fd : Bool
  pub mapping : Option Shared

-- The system calls: true for success. `sem_posts` is the semop of ft_sem_create in the back end of
-- System V, `sem_unlink` and `shm_unlink` are the calls that remove the names, wherever the wrapper
-- makes them, and `preload` is malloc and setenv of LD_PRELOAD.
pub record Answers : Type 0 where
  pub sem_create : Bool
  pub sem_posts : Bool
  pub shm_open : Bool
  pub truncate : Bool
  pub map : Bool
  pub close_fd : Bool
  pub lock : Bool
  pub unmap : Bool
  pub unlock : Bool
  pub sem_unlink : Bool
  pub shm_unlink : Bool
  pub setenv : Bool
  pub preload : Bool

-- cleanup_shobjs: a name that cannot be removed stays.
pub cleanup_shobjs : Answers → Held → Held
cleanup_shobjs a s = record s {
  sem_named = s.sem_named && not a.sem_unlink;
  shm_named = s.shm_named && not a.shm_unlink;
}

-- From ft_sem_lock on: the page is filled, unmapped and unlocked.
fill_page : Answers → Held → Ending × Held
unfolding cleanup_shobjs
fill_page a s =
    let filled = record s { sem_locked = true; mapping = some created } in
    if not a.lock
    then (exited, cleanup_shobjs a s)
    else if not a.unmap
    then (exited, cleanup_shobjs a filled)
    else if not a.unlock
    then (exited, cleanup_shobjs a (record filled { mapping = none }))
    else (returned, record filled { mapping = none; sem_locked = false })

-- From ftruncate on; what mmap shows is not read before it is filled.
size_page : Answers → Held → Ending × Held
unfolding cleanup_shobjs fill_page
size_page a s =
    let closed = record s { shm_fd = false } in
    if not a.truncate
    then (exited, cleanup_shobjs a closed)
    else if not a.map
    then (exited, cleanup_shobjs a closed)
    else if not a.close_fd
    then (exited, cleanup_shobjs a (record closed { mapping = some created }))
    else fill_page a (record closed { mapping = some created })

-- The creation of both objects; O_CREAT|O_EXCL fails where a name exists. A semaphore of System V
-- that cannot be released is left behind, locked.
pub create_objects : Answers → Held → Ending × Held
unfolding size_page
create_objects a s =
    if not (a.sem_create && not s.sem_named)
    then (exited, s)
    else if not a.sem_posts
    then (exited, record s { sem_named = true; sem_locked = true })
    else if not (a.shm_open && not s.shm_named)
    then (exited, record s { sem_named = not a.sem_unlink })
    else size_page a (record s { sem_named = true; shm_named = true; shm_fd = true })

-- The status of the program, as waitpid stores it.
pub data Status : Type 0 where
  exited_with : ℕ → Status
  signaled stopped : Status

-- What becomes of the program: fork fails, or waitpid, or it ends with a status and then the pipe
-- is read until its descendants have closed it.
pub data Child : Type 0 where
  not_forked not_waited : Child
  ended : Status → List ReadByte → Child

-- The loop on the pipe: whether read succeeds.
unfoldable pub pipe_closed : List ReadByte → Bool
pipe_closed [] = true
pipe_closed (interrupted ∷ reads) = pipe_closed reads
pipe_closed (failed ∷ reads) = false
pipe_closed (byte b ∷ reads) = true

pub exit_status : Status → ℕ
exit_status (exited_with n) = n
exit_status signaled = 1
exit_status stopped = 1

-- From fork on: the wrapper's own exit status, and what is left.
pub run_program : Answers → Child → Held → ℕ × Held
unfolding cleanup_shobjs pipe_closed exit_status
run_program a not_forked s = (1, cleanup_shobjs a s)
run_program a not_waited s = (1, cleanup_shobjs a s)
run_program a (ended status reads) s =
    (if pipe_closed reads then exit_status status else 1, cleanup_shobjs a s)

after_creation : Answers → Child → Ending × Held → ℕ × Held
unfolding run_program
after_creation a child (exited, s) = (1, s)
after_creation a child (returned, s) =
    if not a.setenv then (1, s) else if not a.preload then (1, s) else run_program a child s

-- main, from the creation of the objects on
pub run_wrapper : Answers → Child → Held → ℕ × Held
unfolding create_objects after_creation
run_wrapper a child s = after_creation a child (create_objects a s)
