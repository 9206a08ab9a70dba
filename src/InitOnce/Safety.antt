-- ===== src/InitOnce/Safety.antt =====
-- What holds of the initialization in every order of the threads' steps.
use libfaketime.Base.{Bool, ℕ, ◌≤◌, ◌≡◌, ◌≢◌, refl, true, false, none, some, arith}
use libfaketime.InitOnce.{
  Once, uninitialized, ready, at_load, fail, acquire, complete, release, call_back, is_ready, Step,
  once_fails, lock_fails, locks, calls_back, completes, unlocks, Reach, here, next,
}

abbrev Running : Once → Type 0
Running m = (m.started ≡ 1) × (m.completed ≡ 0)

record IsSafe (m : Once) : Type 0 where
  -- The initializer is started at most once, and returns no more often.
  pub once : m.started ≤ 1
  pub ends : m.completed ≤ m.started
  -- It has not been started in the state uninitialized, and has returned in the state ready.
  pub fresh : (m.state ≡ uninitialized) → m.started ≡ 0
  pub done : (m.state ≡ ready) → m.completed ≡ 1
  -- While it runs some thread holds the mutex, and it has not returned.
  pub held : (m.running ≡ true) → m.holder ≢ none
  pub active : (m.running ≡ true) → Running m

module _ (m : Once) (h : IsSafe m) where
  fail-IsSafe : IsSafe (fail m)
  unfolding fail
  fail-IsSafe = record {
    once = h.once;
    ends = h.ends;
    fresh = λ e. cc;
    done = λ e. cc;
    held = h.held;
    active = h.active;
  }

  acquire-IsSafe : (thread : ℕ) → m.holder ≡ none → IsSafe (acquire thread m)
  unfolding acquire
  acquire-IsSafe thread e = record {
    once = ground (arith, h.fresh);
    ends = ground (arith, h.fresh);
    fresh = λ p. ground (arith, h.fresh);
    done = λ p. ground (arith, h.done);
    held = λ p. ground arith;
    active = λ p. ground (arith, h.fresh, h.held, h.active);
  }

  call_back-IsSafe : IsSafe (call_back m)
  unfolding call_back fail
  call_back-IsSafe = record {
    once = ground arith;
    ends = ground arith;
    fresh = λ p. ground (arith, h.fresh);
    done = λ p. ground (arith, h.done);
    held = λ p. ground (arith, h.held);
    active = λ p. ground (arith, h.active);
  }

  complete-IsSafe : (thread : ℕ) → m.holder ≡ some thread → m.running ≡ true → IsSafe (complete m)
  unfolding complete
  complete-IsSafe thread e r = record {
    once = h.once;
    ends = omega (arith, (h.active r).0, (h.active r).1);
    fresh = λ p. cc;
    done = λ p. omega (arith, (h.active r).1);
    held = λ p. cc;
    active = λ p. cc;
  }

  release-IsSafe : m.running ≡ false → IsSafe (release m)
  unfolding release
  release-IsSafe r = record {
    once = h.once;
    ends = h.ends;
    fresh = h.fresh;
    done = h.done;
    held = λ p. cc;
    active = h.active;
  }

not_running : (b : Bool) → ¬ (b ≡ true) → b ≡ false
not_running true h = absurd (h refl)
not_running false h = refl

Step-IsSafe : {m m' : Once} → Step m m' → IsSafe m → IsSafe m'
Step-IsSafe {m} (once_fails e) h = rw e (fail-IsSafe m h)
Step-IsSafe {m} (lock_fails e) h = rw e (fail-IsSafe m h)
Step-IsSafe {m} (locks thread free e) h = rw e (acquire-IsSafe m h thread free)
Step-IsSafe {m} (calls_back thread held r e) h = rw e (call_back-IsSafe m h)
Step-IsSafe {m} (completes thread held r e) h = rw e (complete-IsSafe m h thread held r)
Step-IsSafe {m} (unlocks thread held r e) h = rw e (release-IsSafe m h r)

at_load-IsSafe : IsSafe at_load
unfolding at_load
at_load-IsSafe = record {
  once = omega arith;
  ends = omega arith;
  fresh = λ e. refl;
  done = λ e. cc;
  held = λ e. cc;
  active = λ e. cc;
}

Reach-IsSafe : {m m' : Once} → IsSafe m → Reach m m' → IsSafe m'
Reach-IsSafe h here = h
Reach-IsSafe h (next r s) = Step-IsSafe s (Reach-IsSafe h r)

Reach-at_load-IsSafe : {m : Once} → Reach at_load m → IsSafe m
Reach-at_load-IsSafe r = Reach-IsSafe at_load-IsSafe r

-- In every order of the threads' steps from the state at load, failures of the locks and calls
-- back from the initializer included, the initializer is started at most once, and returns no more
-- often than it is started.
pub started_once : {m : Once} → Reach at_load m → (m.started ≤ 1) × (m.completed ≤ m.started)
started_once r = ((Reach-at_load-IsSafe r).once, (Reach-at_load-IsSafe r).ends)

-- Where the state is FT_INIT_READY, which is what a call that had the mutex returns true for, the
-- initializer has been started once and has returned, and it is not running.
pub is_ready-completed :
    {m : Once}
    → Reach at_load m
    → is_ready m ≡ true
    → (m.started ≡ 1) × (m.completed ≡ 1) × (m.running ≡ false)
unfolding is_ready
is_ready-completed {m} r e =
    let safe = Reach-at_load-IsSafe r in
    let done : m.completed ≡ 1 = ground (arith, safe.done) in
    (
      omega (arith, safe.once, safe.ends),
      done,
      not_running m.running (λ p. omega (arith, (safe.active p).1)),
    )
