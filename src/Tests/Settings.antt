-- ===== src/Tests/Settings.antt =====
-- The clock of the concrete process is set.
use libfaketime.Base.{if◌then◌else◌, arith, none, ◌≡◌, ◌⊎◌, true, false, List, ℕ, [], ◌∷◌, some}
use libfaketime.Base.Int.{◌+ℤ◌, ℤ, pos, negsuc}
use libfaketime.Process.{realtime}
use libfaketime.World.{World}
use libfaketime.TimeOps.{time}
use libfaketime.Base.Text.{codes, same_text}
use libfaketime.SetTime.{Set, clock_settime}
use libfaketime.SetTime.Laws.{
  moved_by, TakesEffect, HasNoEffect, accepted, clock_settime-TakesEffect,
}
use libfaketime.Tests.{thousandths, process, world}
use libfaketime.Tests.Clocks.{first}

-- The sign is enough of a text here.
abbrev sign_of : ℤ → List ℕ
sign_of (pos n) = 43 ∷ []
sign_of (negsuc n) = 45 ∷ []

-- The file "f" is to be updated.
abbrev updating : World thousandths
updating = record world {
  getenv = λ name.
      if same_text (codes name) (codes "FAKETIME_TIMESTAMP_FILE")
      then some (codes "f")
      else if same_text (codes name) (codes "FAKETIME_UPDATE_TIMESTAMP_FILE")
      then some (codes "1")
      else none;
}

abbrev set_back : Set thousandths
set_back =
    clock_settime thousandths updating sign_of first true true realtime
      (some (time (first.sec +ℤ negsuc 9) (first.sub +ℤ pos 5))) process

clock_settime-TakesEffect_example :
    ((accepted thousandths updating sign_of realtime
          (moved_by thousandths updating sign_of (negsuc 9) (pos 5))
          true
        ≡ true)
      × TakesEffect thousandths updating sign_of true
          (moved_by thousandths updating sign_of (negsuc 9) (pos 5))
          process
          set_back)
    ⊎ ((accepted thousandths updating sign_of realtime
            (moved_by thousandths updating sign_of (negsuc 9) (pos 5))
            true
          ≡ false)
        × HasNoEffect thousandths updating sign_of process set_back)
clock_settime-TakesEffect_example =
    clock_settime-TakesEffect thousandths updating sign_of first (negsuc 9) (pos 5) true true
      realtime process (omega arith, omega arith) (omega arith, omega arith)
