-- ===== src/Replay/Sections/Laws.antt =====
-- Calls of next_time in src/libfaketime.c that are interleaved, against calls one after another.
use libfaketime.Base.{
  ◌⊎◌, ◌||◌, ℕ, zero, suc, ◌+◌, Bool-cases, true, false, some, List, [], ◌∷◌, ◌++◌, map, length,
  length-append, ◌==◌, ◌≡◌, ◌≢◌, ◌∙◌, inl, inr, refl, sym, ap, arith,
}
use mathlib.Core.Path.{subst}
use libfaketime.Floats.{Floats}
use libfaketime.Outcome.{ok}
use libfaketime.TimeOps.{Time}
use libfaketime.Shared.{Shared}
use libfaketime.Process.{Process, User}
use libfaketime.Replay.{tick_time, next_tick}
use libfaketime.Replay.Laws.{call_ticks, expected_ticks, call_ticks_lem}
use libfaketime.Replay.Sections.{
  Phase, outside, entered, computed, loaded, stored, Ticking, at_rest, set_phase, TickStep, retries,
  enters, computes, loads, stores, leaves, Interleaved, here, next,
}

abbrev up_from : ℕ → ℕ → List ℕ
up_from n zero = []
up_from n (suc k) = n ∷ up_from (suc n) k

up_from-suc : (n k : ℕ) → up_from n (suc k) ≡ up_from n k ++ (n + k) ∷ []
up_from-suc n zero = let e : n ≡ n + 0 = omega arith in ap (λ k. k ∷ []) e
up_from-suc n (suc k) =
    let e : suc n + k ≡ n + suc k = omega arith in
    ap (λ l. n ∷ l) (up_from-suc (suc n) k ∙ ap (λ i. up_from (suc n) k ++ i ∷ []) e)

-- What a process that is not outside has read, while `t` is the next tick, and `ticks` the number
-- in the shared data.
abbrev Reads : Phase → ℕ → ℕ → Type 0
Reads outside t ticks = ⊥
Reads entered t ticks = ticks ≡ t
Reads (computed n) t ticks = (n ≡ t) × (ticks ≡ t)
Reads (loaded n k) t ticks = (n ≡ t) × (k ≡ t)
Reads (stored n) t ticks = (n ≡ t) × (ticks ≡ suc t)

-- Nobody is in the section, or one process is.
data Held (handle : ℕ → ℕ) (m : Ticking) (t : ℕ) : Type 0 where
  idle : m.free ≡ true → ((j : ℕ) → m.phase j ≡ outside) → m.ticks ≡ t → Held handle m t
  held :
      (i : ℕ)
      → m.free ≡ false
      → m.holder ≡ handle i
      → ((j : ℕ) → j ≢ i → m.phase j ≡ outside)
      → Reads (m.phase i) t m.ticks
      → Held handle m t

record InOrder (handle : ℕ → ℕ) (start : ℕ) (m : Ticking) : Type 0 where
  pub listed : m.returned ≡ up_from start (length m.returned)
  pub section : Held handle m (start + length m.returned)

set_phase-same : (i : ℕ) (new : Phase) (phase : ℕ → Phase) → set_phase i new phase i ≡ new
set_phase-same i new phase = ground arith

set_phase-other :
    (i j : ℕ) (new : Phase) (phase : ℕ → Phase) → j ≢ i → set_phase i new phase j ≡ phase j
set_phase-other i j new phase h = ground arith

-- A process that is not outside is the one that holds the semaphore.
owner :
    (handle : ℕ → ℕ) (m : Ticking) (t i : ℕ)
    → Held handle m t
    → m.phase i ≢ outside
    → (m.free ≡ false)
      × (m.holder ≡ handle i)
      × ((j : ℕ) → j ≢ i → m.phase j ≡ outside)
      × Reads (m.phase i) t m.ticks
owner handle m t i (idle free all same) h = absurd (h (all i))
owner handle m t i (held k taken by others reads) h = elim (Bool-cases (i == k)) [
  | inl equal ↦
      let e : i ≡ k = ground arith in
      (
        taken,
        rw e by,
        (λ j d. others j (λ q. d (q ∙ sym e))),
        subst (λ x. Reads (m.phase x) t m.ticks) (sym e) reads,
      )
  | inr different ↦ absurd (h (others i (λ e. ground arith)))
]

-- While a process that is outside may enter nobody is in the section.
unowned :
    (handle : ℕ → ℕ) (m : Ticking) (t i : ℕ)
    → ((j k : ℕ) → handle j ≡ handle k → j ≡ k)
    → Held handle m t
    → (m.free ≡ true) ⊎ (m.holder ≡ handle i)
    → m.phase i ≡ outside
    → ((j : ℕ) → m.phase j ≡ outside) × (m.ticks ≡ t)
unowned handle m t i own (idle free all same) h o = (all, same)
unowned handle m t i own (held k taken by others reads) (inl free) o = absurd (cc)
unowned handle m t i own (held k taken by others reads) (inr same) o =
    let e : k ≡ i = own k i (sym by ∙ same) in
    absurd (subst (λ x. Reads x t m.ticks) (ap m.phase e ∙ o) reads)

moved :
    (handle : ℕ → ℕ) (m : Ticking) (t i ticks : ℕ) (new : Phase)
    → m.free ≡ false
    → m.holder ≡ handle i
    → ((j : ℕ) → j ≢ i → m.phase j ≡ outside)
    → Reads new t ticks
    → Held handle (record m { ticks = ticks; phase = set_phase i new m.phase }) t
moved handle m t i ticks new taken by others reads =
    held i taken by (λ j d. set_phase-other i j new m.phase d ∙ others j d)
      (rw (set_phase-same i new m.phase) reads)

module _ (handle : ℕ → ℕ) (start : ℕ) (m : Ticking) (h : InOrder handle start m) where
  abbrev now : ℕ
  now = start + length m.returned

  enters-InOrder :
      (i : ℕ)
      → ((j k : ℕ) → handle j ≡ handle k → j ≡ k)
      → (m.free ≡ true) ⊎ (m.holder ≡ handle i)
      → m.phase i ≡ outside
      → InOrder handle start
          (record m { free = false; holder = handle i; phase = set_phase i entered m.phase })
  enters-InOrder i own free o =
      let (all, same) = unowned handle m now i own h.section free o in
      record {
        listed = h.listed;
        section =
            moved handle (record m { free = false; holder = handle i }) now i m.ticks entered refl
              refl (λ j d. all j) same;
      }

  computes-InOrder :
      (i : ℕ)
      → m.phase i ≡ entered
      → InOrder handle start (record m { phase = set_phase i (computed m.ticks) m.phase })
  computes-InOrder i e =
      let (taken, by, others, reads) = owner handle m now i h.section (λ q. cc) in
      let r : Reads entered now m.ticks = subst (λ x. Reads x now m.ticks) e reads in
      record {
        listed = h.listed;
        section = moved handle m now i m.ticks (computed m.ticks) taken by others (r, r);
      }

  loads-InOrder :
      (i n : ℕ)
      → m.phase i ≡ computed n
      → InOrder handle start (record m { phase = set_phase i (loaded n m.ticks) m.phase })
  loads-InOrder i n e =
      let (taken, by, others, reads) = owner handle m now i h.section (λ q. cc) in
      let r : Reads (computed n) now m.ticks = subst (λ x. Reads x now m.ticks) e reads in
      record {
        listed = h.listed;
        section = moved handle m now i m.ticks (loaded n m.ticks) taken by others r;
      }

  stores-InOrder :
      (i n k : ℕ)
      → m.phase i ≡ loaded n k
      → InOrder handle start (record m { ticks = suc k; phase = set_phase i (stored n) m.phase })
  stores-InOrder i n k e =
      let (taken, by, others, reads) = owner handle m now i h.section (λ q. cc) in
      let r : Reads (loaded n k) now m.ticks = subst (λ x. Reads x now m.ticks) e reads in
      record {
        listed = h.listed;
        section = moved handle m now i (suc k) (stored n) taken by others (r.0, ap suc r.1);
      }

  leaves-InOrder :
      (i n : ℕ)
      → m.phase i ≡ stored n
      → InOrder handle start (record m {
        free = m.free || m.holder == handle i;
        phase = set_phase i outside m.phase;
        returned = m.returned ++ n ∷ [];
      })
  leaves-InOrder i n e =
      let (taken, by, others, reads) = owner handle m now i h.section (λ q. cc) in
      let r : Reads (stored n) now m.ticks = subst (λ x. Reads x now m.ticks) e reads in
      let one_more : length (m.returned ++ n ∷ []) ≡ suc (length m.returned) =
        omega (arith, length-append m.returned (n ∷ [])) in
      let later : start + length (m.returned ++ n ∷ []) ≡ suc now = omega (arith, one_more) in
      record {
        listed =
            rw (one_more, up_from-suc start (length m.returned))
              (ap (λ k. m.returned ++ k ∷ []) r.0 ∙ ap (λ l. l ++ now ∷ []) h.listed);
        section = rw later (idle (ground (arith, by)) (λ j. ground (arith, others j)) r.1);
      }

module _ (handle : ℕ → ℕ) (own : (j k : ℕ) → handle j ≡ handle k → j ≡ k) where
  Step-InOrder :
      (start : ℕ) {m m' : Ticking}
      → TickStep handle m m'
      → InOrder handle start m
      → InOrder handle start m'
  Step-InOrder start {m} (retries i o e) h = rw e h
  Step-InOrder start {m} (enters i free o e) h = rw e (enters-InOrder handle start m h i own free o)
  Step-InOrder start {m} (computes i o e) h = rw e (computes-InOrder handle start m h i o)
  Step-InOrder start {m} (loads i n o e) h = rw e (loads-InOrder handle start m h i n o)
  Step-InOrder start {m} (stores i n k o e) h = rw e (stores-InOrder handle start m h i n k o)
  Step-InOrder start {m} (leaves i n o e) h = rw e (leaves-InOrder handle start m h i n o)

  Interleaved-InOrder :
      (start : ℕ) {m : Ticking} → Interleaved handle (at_rest start) m → InOrder handle start m
  unfolding at_rest
  Interleaved-InOrder start here = record {
    listed = refl;
    section = idle refl (λ j. refl) (omega arith);
  }
  Interleaved-InOrder start (next r s) = Step-InOrder start s (Interleaved-InOrder start r)

module _ (F : Floats) where
  -- The time that next_time computes from the n-th tick.
  abbrev pub time_of_tick : User F → Shared → ℕ → Time
  time_of_tick u s n = tick_time F u (record s { ticks = n })

  times_up_from :
      (k : ℕ) (u : User F) (s : Shared)
      → expected_ticks F k u s ≡ map (time_of_tick u s) (up_from s.ticks k)
  times_up_from zero u s = refl
  times_up_from (suc k) u s =
      let e : s.ticks + 1 ≡ suc s.ticks = omega arith in
      ap (λ l. tick_time F u s ∷ l)
        (times_up_from k u (next_tick s) ∙ ap (λ n. map (time_of_tick u s) (up_from n k)) e)

  -- Calls of next_time by any number of processes, each with a handle of its own on the semaphore
  -- (that has opened it itself) and in one thread, with one request and with the shared data `s`,
  -- whose accesses to the semaphore and to the data are interleaved in whatever order, and of which
  -- some may be interrupted in their wait or have got no further than into the section: the calls
  -- that are over have returned, in the order in which they have released the semaphore, the times
  -- that as many calls of next_time one after another return.
  pub next_time_in_turn :
      (handle : ℕ → ℕ) (p : Process F) (s : Shared) (tp : Time) {m : Ticking}
      → ((i j : ℕ) → handle i ≡ handle j → i ≡ j)
      → p.shared ≡ some s
      → p.sem_events ≡ []
      → Interleaved handle (at_rest s.ticks) m
      → call_ticks F (length m.returned) p tp ≡ ok (map (time_of_tick p.user s) m.returned)
  next_time_in_turn handle p s tp {m} own hs he r =
      call_ticks_lem F (length m.returned) p s tp hs he
      ∙ ap ok (
          times_up_from (length m.returned) p.user s
          ∙ ap (map (time_of_tick p.user s))
              (sym (Interleaved-InOrder handle own s.ticks r).listed))
