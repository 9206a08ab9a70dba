-- ===== src/Tests/Alarms.antt =====
-- The timers and the condition variables of the concrete process.
use libfaketime.Base.{
  ◌≡◌, refl, arith, some, none, true, false, List, ℕ, suc, ◌-◌, if◌then◌else◌, ◌&&◌, ◌==◌, [], ◌∷◌,
}
use libfaketime.Base.Int.{ℤ, pos, eqb_ℤ}
use libfaketime.Outcome.{ok}
use libfaketime.TimeOps.{Time}
use libfaketime.TimeOps.Total.{nanos_laws}
use libfaketime.Process.{realtime, monotonic}
use libfaketime.Seeded.{Converted}
use libfaketime.Clock.{advanced_time}
use libfaketime.Clock.Calls.{steady_end}
use libfaketime.Clock.Steps.{start_of}
use libfaketime.Timers.Table.{Entry, remember, recall}
use libfaketime.Timers.Table.Laws.{recall-remember_update, has_home}
use libfaketime.Conds.{
  PointerTable, InitAnswers, WaitAnswers, waits, timedwait, cond_init, cond_destroy, cond_clock,
}
use libfaketime.Conds.Laws.{cond_init-cond_destroy, registers}
use libfaketime.Conds.Deadline.{timedwait_shows}
use libfaketime.Wait.FromNow.{InReach}
use libfaketime.Tests.{thousandths, process, hundred, at_thousand, world}
use libfaketime.Tests.Waits.{asked, asked-Reachable}
use libfaketime.Tests.Clocks.{first, process-Steady, first-Shifting}

-- Descriptor 5 has a monotonic timer; two entries are free.
abbrev entries : List Entry
entries =
    record { fd = pos 5; clock = pos 1 }
    ∷ record { fd = pos 0; clock = pos 0 }
    ∷ record { fd = pos 0; clock = pos 0 }
    ∷ []

recall-remember_update_example :
    recall (pos 7) (remember (pos 7) (pos 1) entries)
    ≡ (if eqb_ℤ (pos 7) (pos 7) && has_home (pos 7) entries then pos 1 else recall (pos 7) entries)
recall-remember_update_example =
    recall-remember_update (pos 7) (pos 7) (pos 1) entries (λ e. absurd (ground arith))

abbrev pub no_number : List ℕ → Converted ℤ
no_number s = record { value = pos 0; rest = s; converted = false; erange = false }

abbrev wait_answers : WaitAnswers
wait_answers = record {
  lock = pos 0;
  unlock = pos 0;
  now = some first;
  now_again = none;
  monotonic_now = none;
  monotonic_again = none;
}

pub asked-InReach : InReach thousandths process first asked
unfolding start_of
asked-InReach = record {
  since_low = omega nanos_laws;
  since_high = omega nanos_laws;
  fake_low = omega nanos_laws;
  fake_high = omega nanos_laws;
  left_low = omega nanos_laws;
  left_high = omega nanos_laws;
  deadline = asked-Reachable;
}

timedwait_shows_example :
    (d : Time) × (timedwait thousandths world no_number wait_answers realtime (some asked) process
      ≡ ok (waits (some d), steady_end thousandths world process realtime first))
    × (advanced_time thousandths at_thousand hundred realtime d ≡ asked)
timedwait_shows_example =
    timedwait_shows thousandths world no_number wait_answers process first asked refl refl refl refl
      process-Steady first-Shifting asked-InReach

-- Counts as a table.
abbrev counts : PointerTable
counts = record {
  Table = ℕ → ℕ;
  count = λ k t. t k;
  add = λ k t l. if l == k then suc (t l) else t l;
  delete = λ k t l. if l == k then t l - 1 else t l;
  count-add = λ k t l. refl;
  count-delete = λ k t l. refl;
}

abbrev monotonic_answers : InitAnswers
monotonic_answers = record {
  real = pos 0;
  attr = some (pos 0, monotonic);
  malloc = true;
  lock = pos 0;
  unlock = pos 0;
}

cond_init-cond_destroy_example :
    (cond_clock counts 64 (cond_init counts monotonic_answers 64 (λ k. 0)).2
      ≡ (if registers monotonic_answers then monotonic else realtime))
    × ((l : ℕ)
        → (cond_destroy counts
              (pos 0)
              (pos 0)
              (pos 0)
              64
              (cond_init counts monotonic_answers 64 (λ k. 0)).2).1
            l
          ≡ 0)
cond_init-cond_destroy_example =
    cond_init-cond_destroy counts monotonic_answers (pos 0) 64 (λ k. 0) refl
