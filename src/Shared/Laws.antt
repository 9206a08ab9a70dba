-- ===== src/Shared/Laws.antt =====
-- The shared header and the start times in it.
use libfaketime.Base.{◌≡◌, refl}
use libfaketime.Shared.{SystemTime, Shared, system_time_to_shared, shared_to_system_time}

-- A process that reads the start times after another has written them gets the same ones.
pub shared_to_system_time-system_time_to_shared :
    (t : SystemTime) (s : Shared) → shared_to_system_time (system_time_to_shared t s) ≡ t
unfolding shared_to_system_time system_time_to_shared
shared_to_system_time-system_time_to_shared t s = refl
