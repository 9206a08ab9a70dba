-- ===== src/Wrapper/Switches.antt =====
-- The switches of the wrapper: the loop at the start of main, of src/faketime.c.
use libfaketime.Base.{ℕ, Bool, true, Option, some, List, [], ◌∷◌, if◌then◌else◌, ◌||◌}
use libfaketime.Base.Text.{codes, same_text}

-- use_mt, use_direct, freeze_clock, fake_pid with pid_val, date_cmd, and what --exclude-monotonic
-- and --disable-shm put into the environment
pub record Options : Type 0 where
  pub use_mt : Bool
  pub use_direct : Bool
  pub freeze_clock : Bool
  pub pid : Option (List ℕ)
  pub date_cmd : List ℕ
  pub exclude_monotonic : Bool
  pub disable_shm : Bool

pub data Switch : Type 0 where
  multi_threaded pid direct freeze exclude_monotonic disable_shm date_prog version help : Switch
  not_a_switch : Switch

-- The comparisons of an argument, in their order.
unfoldable pub switch_of : List ℕ → Switch
switch_of a =
    if same_text a (codes "-m")
    then multi_threaded
    else if same_text a (codes "-p")
    then pid
    else if same_text a (codes "-f")
    then direct
    else if same_text a (codes "--freeze")
    then freeze
    else if same_text a (codes "--exclude-monotonic")
    then exclude_monotonic
    else if same_text a (codes "--disable-shm")
    then disable_shm
    else if same_text a (codes "--date-prog")
    then date_prog
    else if same_text a (codes "-v") || same_text a (codes "--version")
    then version
    else if same_text a (codes "-h") || (same_text a (codes "-?") || same_text a (codes "--help"))
    then help
    else not_a_switch

-- What the loop ends with: the rest of the arguments, or an exit.
pub data Parsed : Type 0 where
  ready : Options → List (List ℕ) → Parsed
  missing_argument shows_version shows_help : Parsed

-- A switch without an argument.
unfoldable pub set_switch : Switch → Options → Options
set_switch multi_threaded o = record o { use_mt = true }
set_switch direct o = record o { use_direct = true }
set_switch freeze o = record o { freeze_clock = true }
set_switch exclude_monotonic o = record o { exclude_monotonic = true }
set_switch disable_shm o = record o { disable_shm = true }
set_switch _ o = o

-- The loop over argv, from curr_opt on.
unfoldable pub parse_options : List (List ℕ) → Options → Parsed
unfolding set_switch
parse_options [] o = ready o []
parse_options (a ∷ []) o = elim (switch_of a) [
  | pid ↦ missing_argument
  | date_prog ↦ missing_argument
  | version ↦ shows_version
  | help ↦ shows_help
  | not_a_switch ↦ ready o (a ∷ [])
  | s ↦ ready (set_switch s o) []
]
parse_options (a ∷ v ∷ args) o = elim (switch_of a) [
  | pid ↦ parse_options args (record o { pid = some v })
  | date_prog ↦ parse_options args (record o { date_cmd = v })
  | version ↦ shows_version
  | help ↦ shows_help
  | not_a_switch ↦ ready o (a ∷ v ∷ args)
  | s ↦ parse_options (v ∷ args) (set_switch s o)
]
