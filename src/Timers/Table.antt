-- ===== src/Timers/Table.antt =====
-- The table timerfd_clocks of src/libfaketime.c: the clock of each timer descriptor.
pub mod Laws
use libfaketime.Base.{
  drop, ◌&&◌, ◌||◌, Bool, not, Option, none, some, List, [], ◌∷◌, ℕ, if◌then◌else◌,
}
use libfaketime.Base.Int.{ℤ, pos, negsuc, eqb_ℤ, leb_ℤ}
use libfaketime.Base.Text.{codes, starts_with}
use libfaketime.Seeded.{Converted}
use libfaketime.Wait.{int_max}

-- CLOCK_REALTIME and CLOCK_MONOTONIC of Linux
abbrev pub clock_realtime : ℤ
clock_realtime = pos 0

abbrev pub clock_monotonic : ℤ
clock_monotonic = pos 1

-- struct timerfd_clock_entry; the descriptor 0 marks a free entry.
pub record Entry : Type 0 where
  pub fd : ℤ
  pub clock : ℤ

abbrev pub is_home : ℤ → Entry → Bool
is_home fd e = eqb_ℤ e.fd fd || eqb_ℤ e.fd (pos 0)

-- The loop of remember_timerfd_clock.
pub remember : ℤ → ℤ → List Entry → List Entry
remember fd clock [] = []
remember fd clock (e ∷ es) =
    let rest = remember fd clock es in
    if is_home fd e then record { fd = fd; clock = clock } ∷ es else e ∷ rest

-- remember_timerfd_clock; `locked` says that the mutex was taken.
pub remember_timerfd_clock : Bool → ℤ → ℤ → List Entry → List Entry
unfolding remember
remember_timerfd_clock locked fd clock es = if locked then remember fd clock es else es

-- The loop of timerfd_clock.
pub recall : ℤ → List Entry → ℤ
recall fd [] = clock_realtime
recall fd (e ∷ es) = let rest = recall fd es in if eqb_ℤ e.fd fd then e.clock else rest

-- strstr(s, "\nclockid:") + 9
after_line : List ℕ → Option (List ℕ)
after_line [] = none
after_line (c ∷ s) =
    let rest = after_line s in
    if starts_with (10 ∷ codes "clockid:") (c ∷ s) then some (drop 8 s) else rest

-- The text behind clockid: in /proc/self/fdinfo. Where the match is the start of the buffer the
-- code takes off 8 characters, also for the longer pattern.
pub clockid_text : List ℕ → Option (List ℕ)
unfolding after_line
clockid_text s =
    if starts_with (10 ∷ codes "clockid:") s then some (drop 8 s) else elim (after_line s) [
      | some rest ↦ some rest
      | none ↦ if starts_with (codes "clockid:") s then some (drop 8 s) else none
    ]

-- timerfd_clock: `fdinfo` is what read stored, up to the first NUL, if it stored anything.
pub timerfd_clock : (List ℕ → Converted ℤ) → Bool → Option (List ℕ) → ℤ → List Entry → ℤ
unfolding recall clockid_text
timerfd_clock strtol locked fdinfo fd es = if not locked then clock_realtime else elim fdinfo [
  | none ↦ recall fd es
  | some text ↦ elim (clockid_text text) [
    | none ↦ recall fd es
    | some digits ↦
        let n = strtol digits in
        if n.converted && (leb_ℤ (pos 0) n.value && leb_ℤ n.value int_max)
        then n.value
        else recall fd es
  ]
]

-- timerfd_create, for what the real function returns, `none` where it was not found
pub timerfd_create : Option ℤ → Bool → ℤ → List Entry → ℤ × List Entry
unfolding remember_timerfd_clock
timerfd_create none locked clock es = (negsuc 0, es)
timerfd_create (some fd) locked clock es =
    (fd, if eqb_ℤ fd (negsuc 0) then es else remember_timerfd_clock locked fd clock es)
