-- ===== src/Replay/Sections.antt =====
-- The critical section of next_time in src/libfaketime.c, step by step, in processes that share the
-- data and its semaphore. One step is one access to what is shared.
pub mod Laws
use libfaketime.Base.{
  ◌||◌, ◌⊎◌, ℕ, suc, Bool, true, false, List, [], ◌∷◌, ◌++◌, ◌==◌, if◌then◌else◌, ◌≡◌,
}

-- Where a process is in next_time: before the lock, behind it, with the tick that *tp was computed
-- from, with the number that `ticks++` has loaded, and with that number stored.
pub data Phase : Type 0 where
  outside entered : Phase
  computed : ℕ → Phase
  loaded : ℕ → ℕ → Phase
  stored : ℕ → Phase

-- The semaphore, with the handle through which it is held, ft_shared->ticks, where each process is,
-- and the ticks that the calls have computed their times from, in the order in which they have
-- released the semaphore.
pub record Ticking : Type 0 where
  pub free : Bool
  pub holder : ℕ
  pub ticks : ℕ
  pub phase : ℕ → Phase
  pub returned : List ℕ

unfoldable pub at_rest : ℕ → Ticking
at_rest n = record { free = true; holder = 0; ticks = n; phase = λ i. outside; returned = [] }

abbrev pub set_phase : ℕ → Phase → (ℕ → Phase) → ℕ → Phase
set_phase i new phase j = if j == i then new else phase j

-- A step of process `i`, which has the handle `handle i` on the semaphore. With flock, the handle
-- is the open file description behind the descriptor, which a child shares with its parent unless
-- it opens the semaphore itself: the lock is also granted to whoever has the handle that holds it,
-- and it is released through that handle. A call of ft_sem_lock that a signal interrupts is made
-- again.
pub data TickStep (handle : ℕ → ℕ) (m m' : Ticking) : Type 0 where
  retries : (i : ℕ) → m.phase i ≡ outside → m' ≡ m → TickStep handle m m'
  enters :
      (i : ℕ)
      → (m.free ≡ true) ⊎ (m.holder ≡ handle i)
      → m.phase i ≡ outside
      → m' ≡ record m { free = false; holder = handle i; phase = set_phase i entered m.phase }
      → TickStep handle m m'
  computes :
      (i : ℕ)
      → m.phase i ≡ entered
      → m' ≡ record m { phase = set_phase i (computed m.ticks) m.phase }
      → TickStep handle m m'
  loads :
      (i n : ℕ)
      → m.phase i ≡ computed n
      → m' ≡ record m { phase = set_phase i (loaded n m.ticks) m.phase }
      → TickStep handle m m'
  stores :
      (i n k : ℕ)
      → m.phase i ≡ loaded n k
      → m' ≡ record m { ticks = suc k; phase = set_phase i (stored n) m.phase }
      → TickStep handle m m'
  leaves :
      (i n : ℕ)
      → m.phase i ≡ stored n
      → m' ≡ record m {
        free = m.free || m.holder == handle i;
        phase = set_phase i outside m.phase;
        returned = m.returned ++ n ∷ [];
      }
      → TickStep handle m m'

pub data Interleaved (handle : ℕ → ℕ) (m : Ticking) : Ticking → Type 0 where
  here : Interleaved handle m m
  next :
      {m' m'' : Ticking}
      → Interleaved handle m m'
      → TickStep handle m' m''
      → Interleaved handle m m''
