-- ===== src/SharedMemory/Laws.antt =====
-- The paths of ft_shm_create, of src/libfaketime.c.
use libfaketime.Base.{◌&&◌, Bool, false, ◌≡◌, none}
use libfaketime.SharedMemory.{Objects, Answers}

-- Nothing of the pair is held by the process.
pub record Released (s : Objects) : Type 0 where
  pub closed : s.sem_open ≡ false
  pub unlocked : s.sem_locked ≡ false
  pub no_fd : s.shm_fd ≡ false
  pub unmapped : s.mapping ≡ none

-- The calls that release something succeed, and so does the semop of ft_sem_create.
abbrev pub undoes : Answers → Bool
undoes a =
    (a.sem_posts && (a.unmap && a.sem_close))
    && ((a.undo_unlock && (a.undo_unmap && a.undo_sem_close)) && (a.sem_unlink && a.shm_unlink))
