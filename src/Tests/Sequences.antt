-- ===== src/Tests/Sequences.antt =====
-- Several calls, one after another and interleaved, of the concrete process.
use libfaketime.Base.{◌==◌, ◌||◌, inl, ◌≡◌, refl, some, false, length, ◌++◌, map, [], ◌∷◌, arith}
use libfaketime.Base.Int.{pos, ◌-ℤ◌, ◌+ℤ◌, ◌%ℤ◌, ◌*ℤ◌}
use libfaketime.Outcome.{ok}
use libfaketime.TimeOps.{Time, time}
use libfaketime.TimeOps.Total.{nanos, nanos_laws}
use libfaketime.Shared.{created}
use libfaketime.Process.{Process, realtime, monotonic}
use libfaketime.Clock.Steps.{start_of, expire, count_call}
use libfaketime.Clock.Calls.{Steady, steady_end}
use libfaketime.Clock.Shift.{Shifting}
use libfaketime.Clock.Wrappers.{with_start, gettimeofday}
use libfaketime.Clock.Wrappers.Laws.{micros, Follows, gettimeofday_elapsed}
use libfaketime.Replay.Laws.{call_ticks}
use libfaketime.Replay.Sections.{
  Ticking, outside, entered, computed, loaded, stored, set_phase, at_rest, Interleaved, here, next,
  enters, retries, computes, loads, stores, leaves,
}
use libfaketime.Replay.Sections.Laws.{time_of_tick, next_time_in_turn}
use libfaketime.Wait.Semaphores.{sem_clockwait}
use libfaketime.Wait.Semaphores.Laws.{Reckoned, sem_clockwait_early}
use libfaketime.Tests.{thousandths, process, world, hundred, at_thousand}
use libfaketime.Tests.Waits.{asked}
use libfaketime.Tests.Clocks.{first, process-Steady}

-- 105.600001 s and 106.000003 s, as struct timeval
abbrev earlier : Time
earlier = time (pos 105) (pos 600001)

abbrev later : Time
later = time (pos 106) (pos 3)

earlier-Shifting :
    Shifting thousandths world process realtime (with_start thousandths process earlier)
unfolding start_of with_start ◌%ℤ◌ ◌+ℤ◌ ◌*ℤ◌
earlier-Shifting = record {
  mode = refl;
  no_rate = refl;
  user_normal = (omega arith, omega arith);
  start_normal = (omega arith, omega arith);
  real_normal = (omega arith, omega arith);
}

earlier-Follows : Follows thousandths process earlier
unfolding with_start ◌%ℤ◌ ◌+ℤ◌ ◌*ℤ◌
earlier-Follows = record {
  since_low = omega nanos_laws;
  since_high = omega nanos_laws;
  fake_low = omega nanos_laws;
  fake_high = omega nanos_laws;
}

later-Follows : Follows thousandths process later
unfolding with_start ◌%ℤ◌ ◌+ℤ◌ ◌*ℤ◌
later-Follows = record {
  since_low = omega nanos_laws;
  since_high = omega nanos_laws;
  fake_low = omega nanos_laws;
  fake_high = omega nanos_laws;
}

shown-Steady :
    Steady thousandths world
      (steady_end thousandths world process realtime (with_start thousandths process earlier))
unfolding expire ◌-ℤ◌ count_call
shown-Steady = record {
  awake = refl;
  unlimited = refl;
  no_spawn = refl;
  cached = refl;
  no_infile = refl;
  no_outfile = refl;
  no_ticks = refl;
}

gettimeofday_elapsed_example :
    (u u' : Time) × (q q' : Process thousandths) × (gettimeofday thousandths world
        (some earlier)
        process
      ≡ ok (pos 0, some u, q))
    × (gettimeofday thousandths world (some later) q ≡ ok (pos 0, some u', q'))
    × (micros u' -ℤ micros u ≡ micros later -ℤ micros earlier)
unfolding with_start ◌%ℤ◌ ◌+ℤ◌ ◌*ℤ◌
gettimeofday_elapsed_example =
    gettimeofday_elapsed thousandths world world process earlier later process-Steady shown-Steady
      earlier-Shifting (omega arith, omega arith) earlier-Follows later-Follows

-- Process 1 is interrupted while it waits for process 0, and enters behind it.
abbrev start_state : Ticking
start_state = at_rest created.ticks

abbrev first_entered : Ticking
first_entered = record start_state {
  free = false;
  holder = 0;
  phase = set_phase 0 entered start_state.phase;
}

abbrev first_computed : Ticking
first_computed = record first_entered {
  phase = set_phase 0 (computed first_entered.ticks) first_entered.phase;
}

abbrev first_loaded : Ticking
first_loaded = record first_computed {
  phase = set_phase 0 (loaded 0 first_computed.ticks) first_computed.phase;
}

abbrev first_stored : Ticking
first_stored = record first_loaded { ticks = 1; phase = set_phase 0 (stored 0) first_loaded.phase }

abbrev first_left : Ticking
first_left = record first_stored {
  free = first_stored.free || first_stored.holder == 0;
  phase = set_phase 0 outside first_stored.phase;
  returned = first_stored.returned ++ 0 ∷ [];
}

abbrev second_entered : Ticking
second_entered = record first_left {
  free = false;
  holder = 1;
  phase = set_phase 1 entered first_left.phase;
}

in_turn : Interleaved (λ i. i) start_state second_entered
unfolding at_rest created
in_turn =
    next
      (next
        (next
          (next
            (next (next (next here (enters 0 (inl refl) refl refl)) (retries 1 refl refl))
              (computes 0 refl refl))
            (loads 0 0 refl refl))
          (stores 0 0 0 refl refl))
        (leaves 0 0 refl refl))
      (enters 1 (inl refl) refl refl)

next_time_in_turn_example :
    call_ticks thousandths (length second_entered.returned) process first
    ≡ ok (map (time_of_tick thousandths at_thousand created) second_entered.returned)
next_time_in_turn_example =
    next_time_in_turn thousandths (λ i. i) process created first (λ i j e. e) refl refl in_turn

monotonic-Shifting : Shifting thousandths world process monotonic first
unfolding start_of
monotonic-Shifting = record {
  mode = refl;
  no_rate = refl;
  user_normal = (omega arith, omega arith);
  start_normal = (omega arith, omega arith);
  real_normal = (omega arith, omega arith);
}

first-Reckoned : Reckoned thousandths process first asked
first-Reckoned = record {
  since_low = omega nanos_laws;
  since_high = omega nanos_laws;
  fake_low = omega nanos_laws;
  fake_high = omega nanos_laws;
  left_low = omega nanos_laws;
  left_high = omega nanos_laws;
  sum_low = omega nanos_laws;
  sum_high = omega nanos_laws;
}

sem_clockwait_early_example :
    (d : Time) × (sem_clockwait thousandths world
        (some (λ clk t. pos 0))
        (some first)
        monotonic
        (some asked)
        process
      ≡ ok (pos 0, steady_end thousandths world process monotonic first))
    × (nanos d
        ≡ (nanos hundred.mon +ℤ (nanos asked -ℤ nanos at_thousand.faked_time))
          -ℤ (nanos first -ℤ nanos hundred.mon))
sem_clockwait_early_example =
    sem_clockwait_early thousandths world process (λ clk t. pos 0) first asked refl process-Steady
      monotonic-Shifting (omega arith, omega arith) first-Reckoned
