-- ===== src/Startup/Stopped.antt =====
-- Calls of fake_clock_gettime in src/libfaketime.c behind the last one that is faked.
use libfaketime.Base.{false, List, [], ◌∷◌, ◌≡◌, refl}
use libfaketime.Floats.{Floats}
use libfaketime.Outcome.{ok}
use libfaketime.TimeOps.{Time}
use libfaketime.Process.{Process}
use libfaketime.Clock.Calls.{is_cputime}
use libfaketime.Clock.Calls.Stopped.{
  HasStopped, count_call-HasStopped, counted_once, fake_clock_gettime-HasStopped,
}
use libfaketime.Startup.Session.{Call, calls}

-- The calls are for clocks that are not of the CPU.
abbrev pub AllWall : {F : Floats} → List (Call F) → Type 0
AllWall [] = Unit
AllWall (c ∷ cs) = (is_cputime c.clock ≡ false) × AllWall cs

abbrev pub reals : {F : Floats} → List (Call F) → List Time
reals [] = []
reals (c ∷ cs) = c.real ∷ reals cs

module _ (F : Floats) where
  -- Once the counted calls have reached FAKETIME_STOP_AFTER_NUMCALLS, where faking is limited and
  -- this bound is set to a number that is not negative, any number of further calls of
  -- fake_clock_gettime, for clocks that are not of the CPU, each with whatever environment, files
  -- and disk it meets, return the real times that they are given, and the user's request and its
  -- age stay as they are. Faking is not suspended.
  pub calls-HasStopped :
      (cs : List (Call F)) (p : Process F)
      → p.dont_fake ≡ false
      → HasStopped p.limits
      → AllWall cs
      → (q : Process F) × (calls F cs p ≡ ok (reals cs, q))
        × (q.user ≡ p.user)
        × (q.cache ≡ p.cache)
  calls-HasStopped [] p hd h n = (p, refl, refl, refl)
  calls-HasStopped (c ∷ cs) p hd h n =
      let later = count_call-HasStopped p.limits p.spawn h in
      let (q, eq, user, cache) = calls-HasStopped cs (counted_once F p) hd later n.1 in
      (
        q,
        rw (fake_clock_gettime-HasStopped F c.answers c.clock c.real p n.0 hd h, eq) refl,
        user,
        cache,
      )
