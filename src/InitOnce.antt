-- ===== src/InitOnce.antt =====
-- ft_init_once_generic of src/libfaketime.c, as the steps that threads take on what they share: the
-- state, the error-checking mutex, and the initializer. One step is what a thread does between two
-- calls that may block or call back.
pub mod Safety
use libfaketime.Outcome.{Outcome, ok, exits}
use libfaketime.Base.{not, if◌then◌else◌, ℕ, ◌+◌, ◌≡◌, ◌≢◌, Bool, true, false, Option, none, some}

-- ft_initialize_errorcheck_mutex, by whether its three calls succeed. exit(-1) has the status 255.
pub initialize_errorcheck_mutex : Bool → Bool → Bool → Outcome {0} Unit
initialize_errorcheck_mutex attr_init attr_settype mutex_init =
    if not attr_init
    then exits 255
    else if not attr_settype
    then exits 255
    else if not mutex_init
    then exits 255
    else ok tt

-- enum ft_init_state
pub data InitState : Type 0 where
  uninitialized initializing ready failed : InitState

-- `running` and the counts tell how often the initializer was started and how often it returned.
pub record Once : Type 0 where
  pub state : InitState
  pub holder : Option ℕ
  pub running : Bool
  pub started : ℕ
  pub completed : ℕ

-- FT_INIT_UNINITIALIZED, and PTHREAD_ONCE_INIT
unfoldable pub at_load : Once
at_load = record {
  state = uninitialized;
  holder = none;
  running = false;
  started = 0;
  completed = 0;
}

-- pthread_once or pthread_mutex_lock reports an error.
pub fail : Once → Once
fail m = record m { state = failed }

-- pthread_mutex_lock succeeds: the first thread marks the initialization and calls the initializer.
unfoldable pub acquire : ℕ → Once → Once
acquire thread m = elim m.state [
  | uninitialized ↦ record m {
    holder = some thread;
    state = initializing;
    running = true;
    started = m.started + 1;
  }
  | _ ↦ record m { holder = some thread }
]

-- The initializer returns.
unfoldable pub complete : Once → Once
complete m = record m { state = ready; running = false; completed = m.completed + 1 }

-- pthread_mutex_unlock
unfoldable pub release : Once → Once
release m = record m { holder = none }

-- pthread_mutex_lock reports EDEADLK to a thread that holds the mutex: the initializer has called
-- back. That is no error while it is initializing.
pub call_back : Once → Once
unfolding fail
call_back m = elim m.state [ initializing ↦ m | _ ↦ fail m ]

-- The value that is returned behind the unlocking: *state == FT_INIT_READY.
unfoldable pub is_ready : Once → Bool
is_ready m = elim m.state [ ready ↦ true | _ ↦ false ]

-- A thread's step. A thread that waits for the mutex has found a state other than FT_INIT_FAILED,
-- perhaps some time ago.
pub data Step (m m' : Once) : Type 0 where
  once_fails : m' ≡ fail m → Step m m'
  lock_fails : m' ≡ fail m → Step m m'
  locks : (thread : ℕ) → m.holder ≡ none → m' ≡ acquire thread m → Step m m'
  calls_back :
      (thread : ℕ) → m.holder ≡ some thread → m.running ≡ true → m' ≡ call_back m → Step m m'
  completes : (thread : ℕ) → m.holder ≡ some thread → m.running ≡ true → m' ≡ complete m → Step m m'
  unlocks : (thread : ℕ) → m.holder ≡ some thread → m.running ≡ false → m' ≡ release m → Step m m'

pub data Reach (m : Once) : Once → Type 0 where
  here : Reach m m
  next : {m' m'' : Once} → Reach m m' → Step m' m'' → Reach m m''
