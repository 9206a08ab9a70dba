-- ===== src/Tests/Starts.antt =====
-- One thread starts the library.
use libfaketime.Base.{◌≡◌, ◌≤◌, refl, false}
use libfaketime.InitOnce.{
  Once, at_load, acquire, complete, release, is_ready, Reach, here, next, locks, completes, unlocks,
}
use libfaketime.InitOnce.Safety.{started_once, is_ready-completed}

abbrev started : Once
started = acquire 1 at_load

abbrev over : Once
over = release (complete started)

over-Reach : Reach at_load over
unfolding at_load acquire complete release
over-Reach =
    next (next (next here (locks 1 refl refl)) (completes 1 refl refl refl))
      (unlocks 1 refl refl refl)

started_once_example : (over.started ≤ 1) × (over.completed ≤ over.started)
started_once_example = started_once over-Reach

is_ready-completed_example : (over.started ≡ 1) × (over.completed ≡ 1) × (over.running ≡ false)
unfolding at_load acquire complete release is_ready
is_ready-completed_example = is_ready-completed over-Reach refl
