-- ===== src/Scheduler.antt =====
-- watchpost/scheduler.py: polls, alert decisions and the release of dependents, as tasks that
-- interleave. A task is a stack of frames, the running one first; a frame stands where the code
-- waits, and one step runs the code from there to the next wait.
pub mod Ancestors
pub mod System
pub mod Frames
pub mod Pairing
pub mod Suppression
pub mod Maintenance
use ip_montior.Base.{
  ℕ, zero, suc, ◌+◌, String, Option, none, some, Bool, true, false, ◌&&◌, ◌||◌, not, if◌then◌else◌,
  List, [], ◌∷◌, ◌++◌, length, filter, truthy?, str_eq, ltb, ◌==◌, is_some, ◌<>◌,
}
use ip_montior.Check.{Result, CheckResult}
use ip_montior.State.{State, Transition, MonitorState, observe, is_ok, state_eq}
use ip_montior.Config.Types.{Monitor, Config}
use ip_montior.Config.Graph.{parents}
use ip_montior.Rollup.{States, is_down, is_up, is_problem, blocking_parent}
use ip_montior.Store.{Store, record_result, record_event}
use ip_montior.Scheduler.Ancestors.{is_ancestor}

-- A call of `_send`: the monitor's slug and the transition that a delivery task was made for.
pub record Sent : Type 0 where
  pub slug : String
  pub tr : Transition

-- What the tasks share. `outbox` is newest first.
pub record World : Type 0 where
  pub states : States
  pub locks : String → Bool
  pub store : Store
  pub outbox : List Sent

pub data Frame : Type 0 where
  -- `poll_once`: before the lock, and inside it, waiting for the check
  polling : Monitor → Frame
  probing : Monitor → Frame
  -- `poll_once` returning its result to its caller
  returning : CheckResult → Frame
  -- `_on_transition`: at its start, in the loop of `_confirm_parents` with the parents left and the
  -- attempts made on the first of them, and before `record_event`
  transition : Monitor → Transition → Frame
  confirming : Monitor → Transition → List Monitor → ℕ → Frame
  recording : Monitor → Transition → Frame
  -- `_release_children`: at the head of its loop, after the poll of a child, and before the
  -- `record_event` for a child
  releasing : Monitor → List Monitor → Frame
  released : Monitor → Monitor → List Monitor → Frame
  recording_child : Monitor → Monitor → Transition → List Monitor → Frame

abbrev pub Task : Type 0
Task = List Frame

abbrev pub update {ℓ} : {A : Type ℓ} → (String → A) → String → A → String → A
update f k v s = if str_eq k s then v else f s

unfoldable pub enabled_monitors : Config → List Monitor
enabled_monitors c = filter (λ m. m.enabled) c.monitors

unfoldable pub set_open : World → String → Bool → World
set_open w s b = record w { states = update w.states s (record (w.states s) { alert_open = b }) }

unfoldable pub send : World → String → Transition → World
send w s tr = record w { outbox = record { slug = s; tr = tr } ∷ w.outbox }

-- `st.alert_open = b; self._send(monitor, tr)`
unfoldable pub send_and_mark : World → Monitor → Transition → Bool → World
send_and_mark w m tr b = send (set_open w m.slug b) m.slug tr

unfoldable pub name_of : Option String → String
name_of none = ""
name_of (some n) = n

-- The end of the `if tr.current in _PROBLEM` branch, for the blocker found last.
unfoldable pub settle : World → Monitor → Transition → Option String → World × Transition
settle w m tr blocker =
    if truthy? blocker
    then (
      w,
      record tr {
        message = tr.message <> " [alert suppressed: " <> name_of blocker <> " is down]";
      },
    )
    else (send_and_mark w m tr true, tr)

-- What a task becomes: the shared state, and its frames.
abbrev pub Outcome : Type 0
Outcome = World × Task

abbrev pub then_record : World × Transition → Monitor → Task → Outcome
then_record found m rest = (found.0, recording m found.1 ∷ rest)

abbrev pub is_none : Option String → Bool
is_none none = true
is_none (some _) = false

abbrev pub is_empty : List String → Bool
is_empty [] = true
is_empty (_ ∷ _) = false

-- `_on_transition` up to its first wait.
unfoldable pub on_transition : Config → World → Monitor → Transition → Task → Outcome
on_transition c w m tr rest =
    let blocker = blocking_parent c w.states m in
    let recovered = (w.states m.slug).alert_open in
    if is_problem tr.current
    then (if is_none blocker && not (is_empty m.depends_on)
        then (w, confirming m tr (parents c m) 0 ∷ rest)
        else then_record (settle w m tr blocker) m rest)
    else if is_up tr.current && recovered
    then (send_and_mark w m tr false, recording m tr ∷ rest)
    else (w, recording m tr ∷ rest)

-- The condition of the `while` in `_confirm_parents`.
unfoldable pub unconfirmed : MonitorState → ℕ → Bool
unconfirmed st attempts =
    not (is_down st.state)
    && (ltb 0 st.bad || state_eq st.state State.pending && (st.good == 0))
    && ltb attempts st.failures_to_down

-- `_confirm_parents` from one wait to the next; after it `_on_transition` looks for a blocker again.
unfoldable pub confirm : Config → World → Monitor → Transition → List Monitor → ℕ → Task → Outcome
confirm c w m tr [] attempts rest =
    then_record (settle w m tr (blocking_parent c w.states m)) m rest
confirm c w m tr (p ∷ ps) attempts rest =
    if p.enabled && unconfirmed (w.states p.slug) attempts
    then (w, polling p ∷ confirming m tr (p ∷ ps) (suc attempts) ∷ rest)
    else (w, confirming m tr ps 0 ∷ rest)

-- `_release_children` up to the poll of the first child that needs one.
unfoldable pub release : Config → World → Monitor → List Monitor → Task → Outcome
release c w m [] rest = (w, rest)
release c w m (child ∷ children) rest =
    let st = w.states child.slug in
    if is_ancestor c m child && is_problem st.state && not st.alert_open
    then (w, polling child ∷ released m child children ∷ rest)
    else (w, releasing m children ∷ rest)

unfoldable pub state_value : State → String
state_value State.pending = "pending"
state_value State.up = "up"
state_value State.warn = "warn"
state_value State.down = "down"

-- The transition that stands for a child that is still down or in warning.
abbrev pub still : State → ℕ → Monitor → CheckResult → Transition
still state now m res = record {
  previous = state;
  current = state;
  at = now;
  message = "still " <> state_value state <> " after " <> m.name <> " recovered: " <> res.message;
}

-- The two tests that follow the poll of a child.
unfoldable pub leave_alone : Config → World → CheckResult → Monitor → Bool
leave_alone c w res child =
    let st = w.states child.slug in
    is_ok res.result
    || not (is_problem st.state)
    || st.alert_open
    || not (is_none (blocking_parent c w.states child))

-- `_release_children` after the poll of a child returned `res`, at the time `now`.
unfoldable pub after_poll :
    Config → World → CheckResult → ℕ → Monitor → Monitor → List Monitor → Task → Outcome
after_poll c w res now m child children rest =
    let tr = still (w.states child.slug).state now m res in
    if leave_alone c w res child
    then (w, releasing m children ∷ rest)
    else (send_and_mark w child tr true, recording_child m child tr children ∷ rest)

unfoldable pub enter : Monitor → Option Transition → Task → Task
enter m none rest = rest
enter m (some tr) rest = transition m tr ∷ rest

-- `poll_once` when the check has answered: the row, the counters, the end of the lock.
unfoldable pub observed : World → CheckResult → ℕ → Monitor → Task → Outcome
unfolding enter
observed w res now m rest =
    let (st, tr) = observe (w.states m.slug) res now in
    (
      record w {
        states = update w.states m.slug st;
        locks = update w.locks m.slug false;
        store = record_result m.slug now res w.store;
      },
      enter m tr (returning res ∷ rest),
    )

-- One step of a task. The environment gives the check's answer, an exception already turned into
-- FAIL by `_probe`, and the time. A task that waits for a lock that is held does not move.
unfoldable pub step : Config → CheckResult → ℕ → World → Task → Outcome
step c res now w [] = (w, [])
step c res now w (polling m ∷ rest) =
    if w.locks m.slug
    then (w, polling m ∷ rest)
    else (record w { locks = update w.locks m.slug true }, probing m ∷ rest)
step c res now w (probing m ∷ rest) = observed w res now m rest
step c res now w (returning r ∷ released m child children ∷ rest) =
    after_poll c w r now m child children rest
step c res now w (returning r ∷ rest) = (w, rest)
step c res now w (transition m tr ∷ rest) = on_transition c w m tr rest
step c res now w (confirming m tr ps attempts ∷ rest) = confirm c w m tr ps attempts rest
step c res now w (recording m tr ∷ rest) = (
  record w { store = record_event m.slug tr w.store },
  if is_up tr.current then releasing m (enabled_monitors c) ∷ rest else rest,
)
step c res now w (releasing m children ∷ rest) = release c w m children rest
step c res now w (released m child children ∷ rest) = (w, releasing m children ∷ rest)
step c res now w (recording_child m child tr children ∷ rest) =
    (record w { store = record_event child.slug tr w.store }, releasing m children ∷ rest)
