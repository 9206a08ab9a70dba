-- ===== src/Semaphore/Laws.antt =====
-- Names and objects of the semaphores, of src/ft_sem.c and of ft_shm_create in src/libfaketime.c.
use libfaketime.Base.{take, ap, ◌≤◌, sym, length, some, ℕ, List, take, length, some, ◌≤◌, ap, sym}
use libfaketime.Base.Text.{codes}
use libfaketime.Semaphore.{Backend, posix, sysv, flock, Call, create_new}

abbrev place : Backend → List ℕ
place posix = codes "/faketime_sem_"
place sysv = codes "/tmp/faketime_sem_"
place flock = codes "/dev/shm/faketime_lock_"

abbrev object_or : List ℕ → Call → List ℕ
object_or d (create_new o) = o
object_or d _ = d
