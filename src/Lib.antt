-- ===== src/Lib.antt =====
-- libfaketime: a model of the library's core, with the theorems that make it correct.
--
-- The library is preloaded into a program. It stands in front of the clock functions of the C
-- library, and answers with a time that the user has asked for in FAKETIME or in a file. It also
-- converts what the program waits for from the fake clock to the real one. Processes that
-- `faketime` has started share a memory page, guarded by a semaphore.
--
-- Parts, and the code that they model:
-- - TimeOps: the macros of src/time_ops.h. A struct timespec or timeval is a `Time` of two
--   integers. FT_WIDE_INT has 128 bits, so that no sum in it overflows, and is ℤ. TimeOps/Scale
--   has timermul2, and normalize_timespec_value of src/libfaketime.c.
-- - Shared: struct system_time_s, struct ft_shared_s and the checks of src/faketime_common.h, with
--   the conversions in src/libfaketime.c; Shared/Names has the names of the shared objects.
-- - Process: the static variables of src/libfaketime.c, as one record that the functions pass on.
-- - Replay: next_time, reset_time, save_time and load_time. The critical sections on the shared
--   data consult `sem_events`, what the semaphore's calls will return. Replay/Bytes has struct
--   saved_timestamp as the bytes of the file, Replay/Write has write_all. Replay/Sections has the
--   critical section of next_time as steps that the processes take in any order, and
--   Replay/Untouched the variables that these functions leave alone.
-- - Request: parse_ft_string, with the conversions of doubles in Request/Double. Request/Parsed and
--   Request/Relative have the lemmas on a new text and on an offset of whole seconds,
--   Request/Untouched those on the variables that no request changes.
-- - Config: read_config_file and, in its children, prepare_config_contents and str_array_contains.
-- - Clock: fake_clock_gettime, clock_gettime and time, and in Clock/Wrappers gettimeofday, ftime
--   and timespec_get; Clock/Internal has the functions of FAKE_INTERNAL_CALLS. Clock/WellFormed has
--   what stays true over every call. Clock/Steps has the tests on limits, age and spawning.
--   fake_clock_gettime calls Config or Request when the request has expired, then Replay, then one
--   of the modes.
-- - Wait: nanosleep, clock_nanosleep, poll, ppoll, select, pselect, epoll, sem_timedwait and
--   sem_clockwait, and in Wait/Sleep usleep, sleep and alarm, as what they ask of the real
--   function and what they make of its answer. Wait/Semaphores has the two semaphore functions as
--   a whole. Wait/FromNow has the lemmas on deadlines that are reckoned from the present.
-- - Timers: timer_settime, timer_gettime and the timerfd functions; Timers/Table has the table of
--   the clocks of timer descriptors. It uses the conversions of Wait and the clock of Clock.
-- - Conds: pthread_cond_init, pthread_cond_destroy and pthread_cond_timedwait. The hash table of
--   src/uthash.h is the interface `PointerTable`.
-- - SetTime: clock_settime, settimeofday and adjtime, which put an offset into FAKETIME.
-- - FileTimes: the functions that fake the times in struct stat and struct statx, on top of
--   fake_clock_gettime, and utime, utimes, utimensat and futimens. FileTimes/Family has
--   the functions of the stat family, each with its real function.
-- - SharedMemory: ft_shm_create, ft_shm_destroy and ft_cleanup. SharedMemory/Attach has
--   ft_shm_really_init. The answers of the system calls are records of booleans, and what the
--   process holds is the state `Objects`. SharedMemory/Digits has the lemmas on "%ld".
-- - Semaphore: src/ft_sem.c and src/ft_sem.h with their three back ends, as the system calls that
--   the functions make.
-- - InitOnce: ft_init_once_generic, as the steps of threads on the state and the mutex.
-- - Startup: ftpl_really_init, with its search for the real functions in Startup/Symbols. It
--   attaches the process with SharedMemory, reads the settings (Settings has the numeric ones,
--   Startup/Flags the limits and switches, Startup/Commands the lists of commands,
--   Startup/Spawning the external command, with run_spawn_exec, and Startup/Files the two files),
--   sets the start time, and parses the request. Startup/Session is a process from its start over
--   any number of calls, and Startup/Stopped one behind its last faked call.
-- - Syscall: syscall(), with the raw clock_nanosleep; Syscall/Futex has its futex calls.
-- - Wrapper: the program src/faketime.c. Wrapper/Switches has its options, Wrapper/Life the
--   shared objects that it creates, the program that it runs, and its exit status. Wrapper/Program
--   is main as a whole, with the environment of the program (Wrapper/Environment has setenv and
--   getenv). Wrapper/Frozen follows the value of --freeze through Request to Clock, and
--   Wrapper/Offset the value without it.
-- - Seeded: getrandom, getentropy and getpid, for a seed or a number in the environment.
-- - World: what a call meets outside: real clocks, environment, files. Floats: the arithmetic of
--   `double` and `long double`. Both are parameters: the C library, the kernel and the hardware
--   are not part of the repository. What a theorem needs of them is a hypothesis of the theorem.
-- - Outcome: `exits n` is a call of exit(n); Outcome/Laws has the lemmas on what holds of a run
--   unless it ends the process.
-- - Tests: the theorems applied to one concrete process.
--
-- Conventions: the model is that of an LP64 Linux with a 64-bit time_t, CLOCK_BOOTTIME, 128-bit
-- integers and FAKE_SLEEP. A C string is a list of character codes without the NUL; where the code
-- cuts a string to a buffer the model takes the same prefix. Messages to stderr are left out. The
-- shared counters `ticks` and `file_idx` are counted without the wrap at 2 ^ 64. A name that cannot
-- be removed stays, and a semaphore of System V that cannot be released stays locked. The count
-- `spawn_calls` is the model's own. In Replay/Sections a process has a handle on the semaphore,
-- which for flock is its open file description. Where a theorem speaks of a valid cache, no limits
-- and no files, no external command is to be run either, and faking is not suspended in the thread.
--
-- Fuel: write_all is given 1000 calls for each byte; it gives up after 1000 interruptions in
-- a row, and a call that succeeds takes a byte. prepare_config_contents is given one
-- round for each character. The retries of an interrupted semaphore end with the list of events.
--
-- ft_shm_really_init makes at most three attempts to open the semaphore, as in the code. The loops
-- of the wrapper end with the list of what read gives.
--
-- Not modelled: the lock of PTHREAD_SINGLETHREADED_TIME and that of the condition variables, which
-- order calls that the model makes one after another; messages and the usage text; src/uthash.h,
-- which is another project's; and the variants for macOS, Android, SunOS and 32-bit systems. In the
-- wrapper, setenv is taken to succeed but for FAKETIME_SHARED and LD_PRELOAD.
pub mod Base
pub mod Floats
pub mod Outcome
pub mod TimeOps
pub mod Shared
pub mod Process
pub mod Replay
pub mod World
pub mod Request
pub mod Config
pub mod Clock
pub mod Wait
pub mod Semaphore
pub mod Seeded
pub mod Settings
pub mod Startup
pub mod Syscall
pub mod SetTime
pub mod Conds
pub mod Timers
pub mod Wrapper
pub mod FileTimes
pub mod InitOnce
pub mod SharedMemory
pub mod Tests
