-- ===== src/State.antt =====
-- watchpost/state.py: the confirmation counters of one monitor.
pub mod Laws
pub mod Runs
use ip_montior.Base.{
  ℕ, suc, String, Option, none, some, Bool, true, false, ◌&&◌, not, if◌then◌else◌, leb,
}
use ip_montior.Check.{Result, CheckResult}

pub data State : Type 0 where
  pending up warn down : State

-- `is` on two members of the enumeration
abbrev pub state_eq : State → State → Bool
state_eq State.pending State.pending = true
state_eq State.up State.up = true
state_eq State.warn State.warn = true
state_eq State.down State.down = true
state_eq _ _ = false

-- Times are readings of one clock, in its smallest unit.
pub record Transition : Type 0 where
  pub previous : State
  pub current : State
  pub at : ℕ
  pub message : String

unfoldable pub alertable : Transition → Bool
alertable tr = not (state_eq tr.previous State.pending && state_eq tr.current State.up)

pub record MonitorState : Type 0 where
  pub failures_to_down : ℕ
  pub recoveries_to_up : ℕ
  pub state : State
  pub since : ℕ
  pub bad : ℕ
  pub warnish : ℕ
  pub good : ℕ
  pub last : Option CheckResult
  pub last_at : Option ℕ
  pub alert_open : Bool

-- `MonitorState(failures_to_down, recoveries_to_up)` at a time
unfoldable pub initial : ℕ → ℕ → ℕ → MonitorState
initial failures recoveries now = record {
  failures_to_down = failures;
  recoveries_to_up = recoveries;
  state = State.pending;
  since = now;
  bad = 0;
  warnish = 0;
  good = 0;
  last = none;
  last_at = none;
  alert_open = false;
}

-- The first `if` of `observe`: the counters.
count_result : MonitorState → Result → MonitorState
count_result s Result.fail = record s { bad = suc s.bad; warnish = suc s.warnish; good = 0 }
count_result s Result.warn = record s { bad = 0; warnish = suc s.warnish; good = 0 }
count_result s Result.ok = record s { bad = 0; warnish = 0; good = suc s.good }

abbrev pub is_ok : Result → Bool
is_ok Result.ok = true
is_ok _ = false

-- The second `if` of `observe`: the state that the counters call for.
target : MonitorState → Result → Option State
target s r =
    if leb s.failures_to_down s.bad
    then some State.down
    else if leb s.failures_to_down s.warnish && not (is_ok r)
    then some State.warn
    else if leb s.recoveries_to_up s.good
    then some State.up
    else none

move_to : MonitorState → Option State → ℕ → String → MonitorState × Option Transition
move_to s none now text = (s, none)
move_to s (some t) now text = if state_eq t s.state then (s, none) else (
  record s { state = t; since = now },
  some (record { previous = s.state; current = t; at = now; message = text }),
)

unfoldable pub observe : MonitorState → CheckResult → ℕ → MonitorState × Option Transition
unfolding count_result target move_to
observe s res now =
    let noted = record s { last = some res; last_at = some now } in
    let counted = count_result noted res.result in
    move_to counted (target counted res.result) now res.message
