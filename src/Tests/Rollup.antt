-- ===== src/Tests/Rollup.antt =====
-- The sample configuration with its switch down.
use mathlib.Core.Option
use ip_montior.Base.{
  arith, length, ◌<◌, true, false, none, some, [], ◌≡◌, ◌↔◌, refl, Memᴰ, lookup, insert, filter,
  str_eq, if◌then◌else◌,
}
use ip_montior.State.{State, MonitorState}
use ip_montior.Config.Types.{Monitor}
use ip_montior.Config.Graph.{parents, resolve_monitor}
use ip_montior.Config.Valid.{IsValid, validate-IsValid}
use ip_montior.Rollup.{
  States, enabled_parents, blocker_within, blocking_parent, effective, unreachable, is_problem,
  group_states, severity, counted,
}
use ip_montior.Rollup.Reach.{BlockedBy, Chain, blocking_parent_ends, effective-unreachable}
use ip_montior.Rollup.Groups.{Accounts, gather, group_states-Accounts}
use ip_montior.Tests.Sample.{lab, server, switch}
use ip_montior.Tests.Config.{lab_loads}

abbrev in_state : State → MonitorState
in_state s = record {
  failures_to_down = 1;
  recoveries_to_up = 1;
  state = s;
  since = 0;
  bad = 0;
  warnish = 0;
  good = 0;
  last = none;
  last_at = none;
  alert_open = false;
}

abbrev outage : States
outage s = if str_eq s "probe" then in_state State.up else in_state State.down

abbrev lab_valid : IsValid lab
lab_valid = validate-IsValid lab lab_loads

server_mem : Memᴰ server lab.monitors
server_mem = Memᴰ.tail (Memᴰ.head refl)

server_effective : effective lab outage server ≡ (unreachable, some "Switch")
unfolding effective blocking_parent enabled_parents parents resolve_monitor
server_effective = refl

blocking_parent_ends_example :
    (1 < length lab.monitors)
    × (blocker_within 9 lab outage server ≡ blocking_parent lab outage server)
unfolding enabled_parents parents resolve_monitor
blocking_parent_ends_example =
    blocking_parent_ends lab outage lab_valid server 1 9 server_mem
      (Chain.on_to switch (Memᴰ.head refl) Chain.own) (omega arith)

effective-unreachable_example : ((effective lab outage server).0 ≡ unreachable) ↔ (
    (is_problem (outage server.slug).state ≡ true) × (r : Monitor) × BlockedBy lab outage r server)
effective-unreachable_example =
    effective-unreachable lab outage lab_valid (refl, (refl, (refl, tt))) server server_mem

-- The only server of the group is hidden behind the switch, and the probe is up.
lab_group_state :
    Option.map (λ g. g.state) (lookup "lab" (group_states lab outage)) ≡ some unreachable
unfolding group_states effective blocking_parent enabled_parents parents resolve_monitor lookup
    insert severity counted
lab_group_state = refl

group_states-Accounts_example :
    Accounts
      (gather lab outage "lab" (filter (λ m. m.enabled) lab.monitors) [])
      (lookup "lab" (group_states lab outage))
group_states-Accounts_example = group_states-Accounts lab outage "lab"
