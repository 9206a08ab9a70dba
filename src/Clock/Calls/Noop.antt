-- ===== src/Clock/Calls/Noop.antt =====
-- The threads of a command for which faking is off. ftpl_really_init of src/libfaketime.c sets
-- ft_mode, which is of the process, and dont_fake, which is of the thread that runs it.
use libfaketime.Base.{true, false, not, ◌||◌, some, ◌≡◌, ◌∙◌, refl}
use libfaketime.Base.Int.{pos, negsuc}
use libfaketime.Floats.{Floats}
use libfaketime.Outcome.{ok}
use libfaketime.TimeOps.{Time}
use libfaketime.Process.{Process, noop, ClockId, process_cputime, thread_cputime}
use libfaketime.World.{World}
use libfaketime.Clock.{fake_clock_gettime, clock_gettime, fake_by_rules, fake_by_mode}
use libfaketime.Clock.Steps.{is_monotonic, expire, count_call}
use libfaketime.Clock.Calls.{
  Steady, is_cputime, fake_clock-eq, fake_clock-steady, fake_within_limits-eq,
}

module _ (F : Floats) (w : World F) where
  fake_by_rules-noop :
      (p : Process F) (clk : ClockId) (tp : Time)
      → p.user.mode ≡ noop
      → fake_by_rules F w clk tp p ≡ ok (negsuc 0, tp, p)
  unfolding fake_by_rules fake_by_mode
  fake_by_rules-noop p clk tp h = rw h refl

  abbrev pub counted_call : Process F → Process F
  counted_call p = record p { limits = count_call p.limits p.spawn; cache = expire p.cache w.now }

  fake_clock_gettime-noop :
      (p : Process F) (clk : ClockId) (tp : Time)
      → is_cputime clk ≡ false
      → Steady F w p
      → p.user.mode ≡ noop
      → fake_clock_gettime F w clk tp p ≡ ok (negsuc 0, tp, counted_call p)
  fake_clock_gettime-noop p clk tp hc st hm =
      fake_clock-eq F w clk tp p hc st.awake
      ∙ (fake_clock-steady F w p clk tp st.unlimited st.no_spawn
          ∙ (fake_within_limits-eq F w (record p { limits = count_call p.limits p.spawn }) clk tp
                st.cached st.no_infile
              ∙ fake_by_rules-noop (counted_call p) clk tp hm))

  fake_clock_gettime-asleep :
      (p : Process F) (clk : ClockId) (tp : Time)
      → fake_clock_gettime F w clk tp (record p { dont_fake = true })
        ≡ ok (pos 0, tp, record p { dont_fake = true })
  unfolding fake_clock_gettime
  fake_clock_gettime-asleep p process_cputime tp = refl
  fake_clock_gettime-asleep p thread_cputime tp = refl
  fake_clock_gettime-asleep p _ tp = refl

  -- clock_gettime in the mode FT_NOOP, on a faked clock that is not of the CPU, with no limits, no
  -- files, no ticks and a valid cache: the thread that has started the library, for which
  -- dont_fake is set, gets the real time and the result 0. Any other thread also gets the real
  -- time, but the result -1, as if the call had failed.
  pub clock_gettime-noop :
      (p : Process F) (clk : ClockId) (tp : Time)
      → is_cputime clk ≡ false
      → Steady F w p
      → p.user.mode ≡ noop
      → (p.fake_monotonic_clock || not (is_monotonic clk)) ≡ true
      → (clock_gettime F w (some tp) clk (record p { dont_fake = true })
          ≡ ok (pos 0, some tp, record p { dont_fake = true }))
        × (clock_gettime F w (some tp) clk p ≡ ok (negsuc 0, some tp, counted_call p))
  unfolding clock_gettime
  clock_gettime-noop p clk tp hc st hm hf = (
    rw (hf, fake_clock_gettime-asleep p clk tp) refl,
    rw (hf, fake_clock_gettime-noop p clk tp hc st hm) refl,
  )
