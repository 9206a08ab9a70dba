-- ===== src/Wrapper/Life/Laws.antt =====
-- What the wrapper of src/faketime.c leaves behind in the system, and its exit status.
use libfaketime.Base.{if◌then◌else◌, ℕ, Bool, false, not, ◌&&◌, ◌||◌, arith, ◌≡◌, refl}
use libfaketime.Base.{true}
use libfaketime.SharedMemory.{returned}
use libfaketime.Wrapper.Life.{
  pipe_closed, exited_with, signaled, stopped, exit_status, Held, Answers, cleanup_shobjs,
  fill_page, size_page, create_objects, Child, not_forked, not_waited, ended, run_program,
  after_creation, run_wrapper,
}

-- Every call succeeds up to the page's being filled and unlocked.
abbrev pub all_created : Answers → Bool
all_created a =
    a.sem_create
    && (a.sem_posts
        && (a.shm_open
            && (a.truncate && (a.map && (a.close_fd && (a.lock && (a.unmap && a.unlock)))))))

-- The names are not removed: one of the two variables cannot be set.
abbrev pub leaks : Answers → Bool
leaks a = all_created a && not (a.setenv && a.preload)

-- The status of a program that ended by exit, if the pipe was read; 1 otherwise.
abbrev pub reported : Child → ℕ
reported not_forked = 1
reported not_waited = 1
reported (ended (exited_with n) reads) = if pipe_closed reads then n else 1
reported (ended signaled reads) = 1
reported (ended stopped reads) = 1

run_program-reported :
    (a : Answers) (child : Child) (s : Held) → (run_program a child s).0 ≡ reported child
unfolding run_program exit_status
run_program-reported a not_forked s = refl
run_program-reported a not_waited s = refl
run_program-reported a (ended (exited_with n) reads) s = refl
run_program-reported a (ended signaled reads) s = ground arith
run_program-reported a (ended stopped reads) s = ground arith

run_program-names :
    (a : Answers) (child : Child) (s : Held)
    → ((run_program a child s).1.sem_named ≡ (s.sem_named && not a.sem_unlink))
      × ((run_program a child s).1.shm_named ≡ (s.shm_named && not a.shm_unlink))
unfolding run_program cleanup_shobjs
run_program-names a not_forked s = (refl, refl)
run_program-names a not_waited s = (refl, refl)
run_program-names a (ended status reads) s = (refl, refl)

pub run_wrapper_leaves :
    (a : Answers) (child : Child) (s : Held)
    → ((run_wrapper a child s).1.sem_named ≡ (
        s.sem_named
        || (a.sem_create && (not (a.sem_posts && a.sem_unlink) || (not s.shm_named && leaks a)))))
      × ((run_wrapper a child s).1.shm_named ≡ (
          s.shm_named
          || (not s.sem_named
              && (a.sem_create && (a.sem_posts && (a.shm_open && (not a.shm_unlink || leaks a)))))))
      × ((run_wrapper a child s).0 ≡ (
          if all_created a && (a.setenv && (a.preload && not (s.sem_named || s.shm_named)))
          then reported child
          else 1))
unfolding run_wrapper create_objects size_page fill_page cleanup_shobjs after_creation
run_wrapper_leaves a child s =
    ground (arith, run_program-reported a child, run_program-names a child)

pub create_objects-returned :
    (a : Answers) (s : Held)
    → all_created a ≡ true
    → s.sem_named ≡ false
    → s.shm_named ≡ false
    → (create_objects a s).0 ≡ returned
unfolding create_objects size_page fill_page
create_objects-returned a s h hs hm = ground arith
