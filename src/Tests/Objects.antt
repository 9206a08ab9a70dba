-- ===== src/Tests/Objects.antt =====
-- The shared objects of one process and of the wrapper.
use libfaketime.Base.{
  ◌≡◌, refl, true, false, some, none, [], ◌∷◌, List, if◌then◌else◌, take, ltb, length,
}
use libfaketime.Base.Int.{pos}
use libfaketime.Shared.{created, sizeof_shared}
use libfaketime.SharedMemory.{Objects, Answers, shm_create}
use libfaketime.SharedMemory.Attach.{Inherited, really_init}
use libfaketime.SharedMemory.Attach.Laws.{EndsWell, really_init-EndsWell}
use libfaketime.Wrapper.{ReadByte, byte, interrupted, read_output, room}
use libfaketime.Wrapper.Reading.{read_output_lem, all_read, bytes_of}
use libfaketime.Wrapper.Life as Life
use libfaketime.Wrapper.Life.{Held}

-- Before the library starts.
abbrev pub nothing : Objects
nothing = record {
  sem_named = false;
  shm_named = false;
  sem_open = false;
  sem_locked = false;
  shm_fd = false;
  mapping = none;
  sem_initialized = false;
  attach_fd = false;
  page = none;
  creator = false;
  variable = none;
}

-- ftruncate succeeds and mmap fails.
abbrev map_fails : Answers
map_fails = record {
  sem_create = true;
  sem_posts = true;
  shm_create = true;
  truncate = true;
  map = false;
  close_fd = true;
  lock = true;
  unlock = true;
  unmap = true;
  sem_close = true;
  sem_reopen = true;
  setenv = true;
  undo_unlock = true;
  undo_unmap = true;
  undo_sem_close = true;
  sem_unlink = true;
  shm_unlink = true;
}

-- The pair is created, and the page is as it was created.
abbrev pub attaches : Inherited
attaches = record {
  not_stale = false;
  opens = λ n. true;
  creates = λ n. record map_fails { map = true };
  shm_opens = true;
  stat = some (pos sizeof_shared);
  maps = some created;
  closes = true;
}

really_init-EndsWell_example : EndsWell (really_init attaches false 4711 nothing)
really_init-EndsWell_example = really_init-EndsWell attaches false 4711 nothing (refl, refl, refl)

abbrev all_succeed : Life.Answers
all_succeed = record {
  sem_create = true;
  sem_posts = true;
  shm_open = true;
  truncate = true;
  map = true;
  close_fd = true;
  lock = true;
  unmap = true;
  unlock = true;
  sem_unlink = true;
  shm_unlink = true;
  setenv = true;
  preload = true;
}

abbrev before : Held
before = record {
  sem_named = false;
  shm_named = false;
  sem_locked = false;
  shm_fd = false;
  mapping = none;
}

-- "17", with an interruption
abbrev seventeen : List ReadByte
seventeen = byte 49 ∷ interrupted ∷ byte 55 ∷ []

read_output_lem_example : read_output seventeen [] false ≡ (
    if all_read seventeen
    then some (take room (bytes_of seventeen), ltb room (length (bytes_of seventeen)))
    else none)
read_output_lem_example = read_output_lem seventeen
