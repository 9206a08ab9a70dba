-- ===== src/Clock/WellFormed/Calls.antt =====
-- From one call of fake_clock_gettime of src/libfaketime.c to the next.
use libfaketime.Base.{refl, ◌&&◌, if◌then◌else◌}
use libfaketime.Base.Int.{ℤ, pos, eqb_ℤ}
use libfaketime.Floats.{Floats}
use libfaketime.Outcome.{Outcome, ok, exits}
use libfaketime.Outcome.Laws.{AllOk, AllOk-bind, AllOk-if, AllOk-option}
use libfaketime.TimeOps.{Time, timespecsub}
use libfaketime.TimeOps.Scale.Laws.{timespecmul-IsNormal}
use libfaketime.TimeOps.Total.{IsNormal}
use libfaketime.Process.{Process, ClockId, process_cputime, thread_cputime}
use libfaketime.World.{World}
use libfaketime.Replay.{load_time}
use libfaketime.Replay.Untouched.{Keeps, Loads, load_time-Loads}
use libfaketime.Request.Untouched.{parse_ft_string-Keeps, Keeps-on}
use libfaketime.Config.{read_config_file}
use libfaketime.Config.Untouched.{read_config_file-Keeps}
use libfaketime.Clock.{
  fake_clock_gettime, fake_clock, fake_within_limits, spawned, counted, refresh_if_expired, refresh,
  reread, reread_file, scaled_cputime, faketime_text,
}
use libfaketime.Clock.Steps.{spawn_step, start_of, count_call, outside_limits, expire}
use libfaketime.Clock.Steps.Window.{spawn_step-RunOnce}
use libfaketime.Clock.WellFormed.{
  WellFormed, Good, Keeps-WellFormed, fake_by_rules-Good, loaded-Good, IsNormal-if,
}

module _ (F : Floats) (w : World F) where
  reread_file-Keeps :
      (p : Process F) (r : ℤ × Process F)
      → Keeps F p r.1
      → AllOk (Keeps F p) (reread_file F w (ok r))
  unfolding reread_file
  reread_file-Keeps p (n, q) k =
      AllOk-if (Keeps F p) (eqb_ℤ n (pos 0)) _ (ok q)
        (Keeps-on F p q _ k (parse_ft_string-Keeps F w (faketime_text F w) q)) k

  from_file-Keeps :
      (p : Process F) (o : Outcome (ℤ × Process F))
      → AllOk (λ r. Keeps F p r.1) o
      → AllOk (Keeps F p) (reread_file F w o)
  unfolding reread_file
  from_file-Keeps p (ok r) k = reread_file-Keeps p r k
  from_file-Keeps p (exits n) k = tt

  reread-Keeps : (p : Process F) → AllOk (Keeps F p) (reread F w p)
  unfolding reread
  reread-Keeps p =
      AllOk-if (Keeps F p) p.parse_config_file _ _
        (from_file-Keeps p (read_config_file F w p) (read_config_file-Keeps F w p))
        (parse_ft_string-Keeps F w (faketime_text F w) p)

  refresh_if_expired-Keeps : (p : Process F) → AllOk (Keeps F p) (refresh_if_expired F w p)
  unfolding refresh_if_expired refresh
  refresh_if_expired-Keeps p =
      let c = expire p.cache w.now in
      let q = record p { cache = record c { last_data_fetch = w.now.sec } } in
      AllOk-if (Keeps F p) c.expired _ _
        (AllOk-bind (Keeps F p) _ (reread F w q) _ (reread-Keeps q) (λ r k. k)) refl

  fake_within_limits-Good :
      (clk : ClockId) (tp : Time) (p : Process F)
      → IsNormal tp
      → WellFormed F p
      → AllOk (Good F) (fake_within_limits F w clk tp p)
  unfolding fake_within_limits
  fake_within_limits-Good clk tp p n h =
      AllOk-bind (Keeps F p) _ (refresh_if_expired F w p) _ (refresh_if_expired-Keeps p) (λ q k.
        AllOk-bind (λ r. Loads F q r.0 r.1) _ (load_time F w.system q) _
          (load_time-Loads F w.system q)
          (λ r l.
            let (normal, h') = loaded-Good F w q r.1 r.0 (Keeps-WellFormed F p q h k) l in
            AllOk-option (Good F) r.0 _ _ (fake_by_rules-Good F w clk tp r.1 n h')
              (λ t e. (normal t e, h'))))

  fake_clock-Good :
      (clk : ClockId) (tp : Time) (p : Process F)
      → IsNormal tp
      → WellFormed F p
      → AllOk (Good F) (fake_clock F w clk tp p)
  unfolding fake_clock counted spawned
  fake_clock-Good clk tp p n h =
      let l = count_call p.limits p.spawn in
      let elapsed = (timespecsub tp (start_of clk p.start)).sec in
      let q = record p { limits = l; spawn = spawn_step p.spawn l.callcounter elapsed } in
      AllOk-if (Good F) (l.limited_faking && outside_limits l elapsed) _ _ (n, h)
        (fake_within_limits-Good clk tp q n (record {
          real_times = h.real_times;
          faked_times = h.faked_times;
          run_once = spawn_step-RunOnce p.spawn l.callcounter elapsed h.run_once;
          accepted = h.accepted;
        }))

  scaled_cputime-IsNormal :
      (p : Process F) (tp : Time)
      → IsNormal tp
      → IsNormal (if p.dont_fake then tp else scaled_cputime F p.user tp)
  unfolding scaled_cputime
  scaled_cputime-IsNormal p tp n =
      IsNormal-if p.dont_fake tp _ n
        (IsNormal-if p.user.rate_set _ tp (timespecmul-IsNormal F tp _) n)

  -- A call of fake_clock_gettime for any clock.
  pub fake_clock_gettime-Good :
      (clk : ClockId) (tp : Time) (p : Process F)
      → IsNormal tp
      → WellFormed F p
      → AllOk (Good F) (fake_clock_gettime F w clk tp p)
  unfolding fake_clock_gettime
  fake_clock_gettime-Good process_cputime tp p n h = (scaled_cputime-IsNormal p tp n, h)
  fake_clock_gettime-Good thread_cputime tp p n h = (scaled_cputime-IsNormal p tp n, h)
  fake_clock_gettime-Good clk tp p n h =
      AllOk-if (Good F) p.dont_fake _ _ (n, h) (fake_clock-Good clk tp p n h)
