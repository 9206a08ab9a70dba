-- ===== src/SharedMemory/RoundTrip.antt =====
-- The value of FAKETIME_SHARED, as ft_shm_create writes it and parse_shared_objects reads it.
use mathlib.Core.Path.{subst}
use libfaketime.Base.{ap, ℕ, ◌≤◌, ◌≡◌, some, ◌∷◌, length, arith}
use libfaketime.Shared.Names.{parse_shared_objects}
use libfaketime.Shared.Names.Laws.{parse_shared_objects-append, AllDigits}
use libfaketime.SharedMemory.{sem_name, shm_name, shared_objects}
use libfaketime.SharedMemory.Digits.{digits-AllDigits, length-digits, digits-nonempty}

-- The text that ft_shm_create puts into FAKETIME_SHARED, for any process number, is accepted by
-- parse_shared_objects, and yields the two names.
pub parse_shared_objects-shared_objects :
    (pid : ℕ) → parse_shared_objects (shared_objects pid) ≡ some (sem_name pid, shm_name pid)
parse_shared_objects-shared_objects pid =
    let (c, cs, e) = digits-nonempty 19 pid in
    let number : AllDigits (c ∷ cs) = subst AllDigits e (digits-AllDigits 20 pid) in
    let fits : length (c ∷ cs) ≤ 240 = omega (arith, ap length e, length-digits 20 pid) in
    rw e (parse_shared_objects-append c cs number fits)
