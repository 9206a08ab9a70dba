-- ===== src/Syscall/Futex.antt =====
-- futex calls that go through syscall(): make_futex_syscall and handle_futex_syscall of
-- src/libfaketime.c. A variable that the code reads before it has stored anything in it holds
-- whatever it held, which is given with the answers of the calls.
pub mod Laws
use libfaketime.Base.{
  Bool, true, false, not, ◌&&◌, ◌||◌, Option, none, some, List, [], ◌∷◌, if◌then◌else◌,
}
use libfaketime.Base.Int.{ℤ, pos, negsuc, ltb_ℤ, leb_ℤ, eqb_ℤ}
use libfaketime.Floats.{Floats}
use libfaketime.Outcome.{Outcome, ok, exits, ◌>>=◌}
use libfaketime.TimeOps.{Time, time, cmp, timespecadd, timespecsub}
use libfaketime.Process.{Process, ClockId, realtime, monotonic}
use libfaketime.World.{World}
use libfaketime.Clock.{fake_clock_gettime}
use libfaketime.Wait.{rated, slower}

-- futex_op & FUTEX_CMD_MASK
pub data Command : Type 0 where
  wait lock_pi lock_pi2 wait_bitset wait_requeue_pi : Command
  other_command : Command

pub futex_cmd_has_timeout : Command → Bool
futex_cmd_has_timeout other_command = false
futex_cmd_has_timeout _ = true

-- A negative field of a timeout becomes 0.
pub not_negative : Time → Time
not_negative t =
    time (if ltb_ℤ t.sec (pos 0) then pos 0 else t.sec)
      (if ltb_ℤ t.sub (pos 0) then pos 0 else t.sub)

-- make_futex_syscall: the timeout that the kernel is given. It is corrected in place.
pub kernel_timeout : Command → Option Time → Option Time
unfolding not_negative futex_cmd_has_timeout
kernel_timeout cmd none = none
kernel_timeout cmd (some t) = some (if futex_cmd_has_timeout cmd then not_negative t else t)

-- One answer of the kernel to FUTEX_WAIT_BITSET, and what is read after it: the old contents of
-- now_fake and fake_now, and the real clock between them.
pub record Round : Type 0 where
  pub result : ℤ
  pub stale_now : Time
  pub real_now : Time
  pub stale_fake : Time

-- The call returns to the program, or it waits in the kernel with a timeout.
pub data FutexEnd : Type 0 where
  returns : ℤ → FutexEnd
  waits : Option Time → FutexEnd

module _ (F : Floats) (w : World F) where
  -- From an answer of the kernel on, while it waits with the timeout `asked`; `timeout` is the
  -- program's.
  pub wait_rounds :
      ClockId → Time → List Round → Option Time → Process F → Outcome (FutexEnd × Process F)
  wait_rounds clk timeout [] asked p = ok (waits asked, p)
  wait_rounds clk timeout (r ∷ rounds) asked p =
      if not (eqb_ℤ r.result (pos 0))
      then ok (returns r.result, p)
      else (fake_clock_gettime F w clk r.stale_now p >>= λ now.
          if not (eqb_ℤ now.0 (pos 0)) || cmp leb_ℤ timeout now.1
          then ok (returns (pos 0), now.2)
          else (fake_clock_gettime F w clk r.stale_fake now.2 >>= λ fake.
              let left = timespecsub timeout fake.1 in
              wait_rounds clk timeout rounds
                (kernel_timeout wait_bitset (
                  some (
                    timespecadd r.real_now
                      (if rated F fake.2 then slower F fake.2 left else left))))
                fake.2))

  -- The timeout of another command goes to the kernel as it is: the label futex_fallback.
  pub fallback : Command → Option Time → List Round → Process F → Outcome (FutexEnd × Process F)
  fallback cmd timeout [] p = ok (waits (kernel_timeout cmd timeout), p)
  fallback cmd timeout (r ∷ rounds) p = ok (returns r.result, p)

  -- FUTEX_WAIT_BITSET, whose timeout is absolute, at the real time `real`.
  with_fake_time :
      ClockId → Time → Time → List Round → ℤ × Time × Process F → Outcome (FutexEnd × Process F)
  unfolding wait_rounds fallback
  with_fake_time clk timeout real rounds (r, fake, p) =
      if eqb_ℤ r (negsuc 0)
      then fallback wait_bitset (some timeout) rounds p
      else wait_rounds clk timeout rounds
          (kernel_timeout wait_bitset (some (timespecsub timeout (timespecsub fake real)))) p

  -- handle_futex_syscall; `real_time` says that FUTEX_CLOCK_REALTIME is set.
  pub handle_futex_syscall :
      Command → Bool → Option Time → Time → List Round → Process F → Outcome (FutexEnd × Process F)
  unfolding with_fake_time fallback
  handle_futex_syscall cmd real_time none real rounds p = fallback cmd none rounds p
  handle_futex_syscall wait_bitset real_time (some timeout) real rounds p =
      let clk = if real_time then realtime else monotonic in
      fake_clock_gettime F w clk real p >>= with_fake_time clk timeout real rounds
  handle_futex_syscall wait real_time (some timeout) real rounds p =
      fallback wait (some (if rated F p then slower F p timeout else timeout)) rounds p
  handle_futex_syscall cmd real_time (some timeout) real rounds p =
      fallback cmd (some timeout) rounds p
