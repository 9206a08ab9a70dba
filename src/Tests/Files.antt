-- ===== src/Tests/Files.antt =====
-- Files and shared data of the concrete process.
use libfaketime.Base.{
  ℕ, ◌≡◌, ◌≢◌, ◌↔◌, ◌≤◌, ◌++◌, refl, true, none, some, List, [], ◌∷◌, if◌then◌else◌, ltb, not, ◌&&◌,
  ◌==◌, length, arith,
}
use libfaketime.Base.Int.{pos, negsuc}
use libfaketime.Base.Text.{codes}
use libfaketime.Outcome.{ok}
use libfaketime.TimeOps.{Time, time}
use libfaketime.Shared.{Shared, created, shared_to_system_time}
use libfaketime.Process.{Process, success, interrupted}
use libfaketime.Replay.{next_time, load_time, next_index}
use libfaketime.Replay.Bytes.{encode_saved, timespec_from_saved, saved_at}
use libfaketime.Replay.Bytes.RoundTrip.{timespec_from_saved-encode_saved}
use libfaketime.Replay.Bytes.File.{AllFit64, encode_all, saved_at-encode_all}
use libfaketime.Replay.Write.{WriteResult, wrote, eintr, write_all, unfinished, written}
use libfaketime.Replay.Write.Laws.{write_all_ends, write_all_prefix}
use libfaketime.Replay.Laws.{
  call_ticks, expected_ticks, call_ticks_lem, next_time-interrupted, load_time_next, load_time_end,
}
use libfaketime.Config.Contents.{prepare_config_contents}
use libfaketime.Config.Contents.Laws.{lines, join_kept, prepare_config_contents-lines}
use libfaketime.Config.Limit.{bytes_of, reads_of, read_file-limit}
use libfaketime.Config.{read_file, has_nul, room}
use libfaketime.Tests.{thousandths, process, hundred, at_thousand}

-- Two recorded times.
abbrev one : Time
one = time (pos 7) (pos 25)

abbrev two : Time
two = time (negsuc 0) (pos 999999999)

both_fit : AllFit64 (one ∷ two ∷ [])
both_fit = (
  (omega arith, omega arith),
  (omega arith, omega arith),
  ((omega arith, omega arith), (omega arith, omega arith), tt),
)

abbrev replaying : Process thousandths
replaying = record process { infile = some (encode_all (one ∷ two ∷ [])) }

abbrev both_read : Shared
both_read = record created { file_idx = 2 }

abbrev at_the_end : Process thousandths
at_the_end = record replaying { shared = some both_read }

load_time_next_example :
    load_time thousandths hundred replaying
    ≡ ok (some one, record replaying { shared = some (next_index created); sem_events = [] })
unfolding created
load_time_next_example =
    load_time_next thousandths hundred replaying created (one ∷ two ∷ []) refl refl refl both_fit
      refl

load_time_end_example :
    (q : Process thousandths) × (load_time thousandths hundred at_the_end ≡ ok (none, q))
    × (q.infile ≡ none)
    × (q.user.faked_time ≡ two)
    × (q.start ≡ (if created.ticks == 0 then hundred else shared_to_system_time both_read))
    × ((s' : Shared) × (q.shared ≡ some s') × (shared_to_system_time s' ≡ q.start) × (1 ≤ s'.ticks))
unfolding created
load_time_end_example =
    load_time_end thousandths hundred at_the_end both_read (one ∷ two ∷ []) refl refl refl both_fit
      (omega arith) refl

call_ticks_lem_example :
    call_ticks thousandths 3 process one ≡ ok (expected_ticks thousandths 3 at_thousand created)
call_ticks_lem_example = call_ticks_lem thousandths 3 process created one refl refl

next_time-interrupted_example :
    next_time thousandths (record process { sem_events = interrupted ∷ success ∷ [] }) one
    ≡ next_time thousandths (record process { sem_events = success ∷ [] }) one
next_time-interrupted_example =
    next_time-interrupted thousandths process created (success ∷ []) one refl

-- A write() that is interrupted at first, then takes one byte at a time.
abbrev slow_disk : ℕ → WriteResult
slow_disk n = if n == 0 then eintr else wrote 1

write_all_ends_example : (write_all slow_disk 3000 0 (1 ∷ 2 ∷ 3 ∷ []) 0).0 ≢ unfinished
write_all_ends_example =
    write_all_ends slow_disk 3000 0 (1 ∷ 2 ∷ 3 ∷ []) 0 (omega arith) (omega arith)

write_all_prefix_example :
    (rest : List ℕ) × ((write_all slow_disk 3000 0 (1 ∷ 2 ∷ 3 ∷ []) 0).1 ++ rest ≡ 1 ∷ 2 ∷ 3 ∷ [])
    × (((write_all slow_disk 3000 0 (1 ∷ 2 ∷ 3 ∷ []) 0).0 ≡ written) ↔ (rest ≡ []))
write_all_prefix_example = write_all_prefix slow_disk 3000 0 (1 ∷ 2 ∷ 3 ∷ []) 0

timespec_from_saved-encode_saved_example : timespec_from_saved (encode_saved two ++ 5 ∷ []) ≡ two
timespec_from_saved-encode_saved_example =
    timespec_from_saved-encode_saved two (5 ∷ []) (omega arith, omega arith)
      (omega arith, omega arith)

saved_at-encode_all_example : saved_at (encode_all (one ∷ two ∷ [])) 1 ≡ two
saved_at-encode_all_example = saved_at-encode_all (one ∷ two ∷ []) 1 both_fit refl

prepare_config_contents-lines_example :
    prepare_config_contents (codes " # note\n+2d\n") ≡ join_kept (lines (codes " # note\n+2d\n"))
prepare_config_contents-lines_example = prepare_config_contents-lines (codes " # note\n+2d\n")

abbrev pieces : List (List ℕ)
pieces = codes "+2" ∷ codes "d\n" ∷ []

read_file-limit_example : read_file (record { reads = reads_of pieces; closes = true }) ≡ (
    if ltb (length (bytes_of pieces)) room && not (has_nul (bytes_of pieces))
    then some (prepare_config_contents (bytes_of pieces))
    else none)
read_file-limit_example = read_file-limit pieces (omega arith, (omega arith, tt))
