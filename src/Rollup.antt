-- ===== src/Rollup.antt =====
-- watchpost/rollup.py: reachability through the dependencies, and the states of groups.
mod Scan
pub mod Reach
pub mod Groups
use ip_montior.Base.{
  ℕ, zero, suc, length, filter, String, Option, none, some, Bool, true, false, ◌&&◌, ◌||◌, not,
  if◌then◌else◌, List, [], ◌∷◌, ◌++◌, truthy?, lookup, insert, str_eq, ltb, ◌==◌, ◌+◌,
}
use ip_montior.State.{State, MonitorState, state_eq}
use ip_montior.Config.Types.{Monitor, Config}
use ip_montior.Config.Graph.{parents}

-- `self.states`: one entry for each enabled monitor, read only at the slugs of those.
abbrev pub States : Type 0
States = String → MonitorState

-- Slugs are unique and `by_slug` holds the enabled monitors, so a slug of `by_slug` is passed as
-- its monitor, and `p.slug in by_slug` asks whether `p` is enabled.
unfoldable pub enabled_parents : Config → Monitor → List Monitor
enabled_parents c m = filter (λ p. p.enabled) (parents c m)

abbrev pub is_down : State → Bool
is_down s = state_eq s State.down

abbrev pub is_up : State → Bool
is_up s = state_eq s State.up

-- `upstream or parent.name`
abbrev pub or_name : Option String → String → Option String
or_name upstream name = if truthy? upstream then upstream else some name

-- The loop of `blocking_parent`; `upstream` is the recursive call.
unfoldable pub first_blocker : (Monitor → Option String) → States → List Monitor → Option String
first_blocker upstream states [] = none
first_blocker upstream states (p ∷ ps) =
    let rest = first_blocker upstream states ps in
    if is_down (states p.slug).state
    then or_name (upstream p) p.name
    else if truthy? (upstream p) && not (is_up (states p.slug).state)
    then upstream p
    else rest

-- The recursion on fuel.
unfoldable pub blocker_within : ℕ → Config → States → Monitor → Option String
unfolding first_blocker
blocker_within zero c states m = none
blocker_within (suc fuel) c states m =
    first_blocker (blocker_within fuel c states) states (enabled_parents c m)

-- One more than the number of monitors is enough fuel where there is no cycle:
-- `blocking_parent_ends`.
unfoldable pub blocking_parent : Config → States → Monitor → Option String
unfolding blocker_within
blocking_parent c states m = blocker_within (suc (length c.monitors)) c states m

-- What `effective` returns: the state's own value, or "unreachable".
pub data Effective : Type 0 where
  own : State → Effective
  unreachable : Effective

abbrev pub is_problem : State → Bool
is_problem State.down = true
is_problem State.warn = true
is_problem _ = false

unfoldable pub effective : Config → States → Monitor → Effective × Option String
effective c states m =
    let state = (states m.slug).state in
    let blocker = blocking_parent c states m in
    if is_problem state && truthy? blocker then (unreachable, blocker) else (own state, none)

-- `SEVERITY`
unfoldable pub severity : Effective → ℕ
severity (own State.up) = 0
severity (own State.pending) = 1
severity (own State.warn) = 2
severity unreachable = 3
severity (own State.down) = 4

-- What a member counts as: one that is not critical brings its group to WARN at most.
unfoldable pub counted : Bool → Effective → Effective
counted true eff = eff
counted false (own State.down) = own State.warn
counted false unreachable = own State.warn
counted false eff = eff

-- One value of `groups`. `counts` is how many members have each effective state.
pub record Group : Type 0 where
  pub state : Effective
  pub counts : Effective → ℕ
  pub worst : List String

abbrev pub effective_eq : Effective → Effective → Bool
effective_eq (own a) (own b) = state_eq a b
effective_eq unreachable unreachable = true
effective_eq _ _ = false

-- `setdefault` gives a group that is met first.
abbrev pub new_group : Group
new_group = record { state = own State.up; counts = λ _. 0; worst = [] }

-- The body of the loop, for a member's name, flag and effective state.
unfoldable pub add_member : String → Bool → Effective → Group → Group
add_member name critical eff g =
    let c = counted critical eff in
    let tallied = record g {
      counts = λ e. if effective_eq e eff then suc (g.counts e) else g.counts e;
    } in
    if ltb (severity g.state) (severity c)
    then record tallied { state = c; worst = name ∷ [] }
    else if (severity c == severity g.state) && not (effective_eq c (own State.up))
    then record tallied { worst = g.worst ++ name ∷ [] }
    else tallied

abbrev pub or_new : Option Group → Group
or_new none = new_group
or_new (some g) = g

unfoldable pub add_to :
    List (String × Group) → String → String → Bool → Effective → List (String × Group)
unfolding add_member
add_to groups group name critical eff =
    insert group (add_member name critical eff (or_new (lookup group groups))) groups

unfoldable pub group_loop :
    Config → States → List Monitor → List (String × Group) → List (String × Group)
unfolding add_to
group_loop c states [] groups = groups
group_loop c states (m ∷ ms) groups =
    group_loop c states ms (add_to groups m.group m.name m.critical (effective c states m).0)

unfoldable pub group_states : Config → States → List (String × Group)
unfolding group_loop
group_states c states = group_loop c states (filter (λ m. m.enabled) c.monitors) []
