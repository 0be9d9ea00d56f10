-- ===== src/Tests/Alerts.antt =====
-- Two targets and a network on which the first attempt fails.
use ip_montior.Base.{
  ◌+◌, none, some, [], ◌∷◌, filter, ◌≡◌, ◌⊎◌, refl, true, false, ◌&&◌, if◌then◌else◌, ◌==◌, str_eq,
  suc,
}
use ip_montior.State.{alertable, State, Transition, state_eq}
use ip_montior.Config.Types.{Alert, AlertKind, Config}
use ip_montior.Alerts.{Network, initial_status, deliver, notify, targets, chosen, wants}
use ip_montior.Alerts.Laws.{deliver_lem, notify_lem, delivered, succeeds}
use ip_montior.Tests.Sample.{lab, server}

abbrev hook : Alert
hook = record {
  name = "hook";
  notify_on = State.down ∷ State.up ∷ [];
  kind = AlertKind.webhook (record { url = "https://example.test/"; headers = [] });
}

abbrev topic : Alert
topic = record {
  name = "topic";
  notify_on = State.down ∷ [];
  kind = AlertKind.ntfy (record { url = "https://ntfy.test/t"; token = some "k" });
}

abbrev with_alerts : Config
with_alerts = record lab { alerts = hook ∷ topic ∷ [] }

abbrev flaky : Network
flaky a k =
    if k == 1 then some "timeout" else if str_eq a.name "topic" then some "refused" else none

abbrev went_down : Transition
went_down = record { previous = State.up; current = State.down; at = 5; message = "no answer" }

hook_sent : (notify flaky with_alerts server went_down initial_status "hook").sent ≡ 1
unfolding notify targets initial_status alertable deliver
hook_sent = refl

topic_error :
    (notify flaky with_alerts server went_down initial_status "topic").last_error ≡ some "refused"
unfolding notify targets initial_status alertable deliver
topic_error = refl

deliver_lem_example :
    let after = deliver flaky hook initial_status in
    ((str_eq hook.name "hook" ≡ true)
      × (succeeds flaky hook ≡ true)
      × ((after "hook").sent ≡ suc (initial_status "hook").sent)
      × ((after "hook").last_error ≡ none))
    ⊎ ((str_eq hook.name "hook" ≡ true)
        × (succeeds flaky hook ≡ false)
        × ((after "hook").sent ≡ (initial_status "hook").sent)
        × ((after "hook").last_error ≡ flaky hook 2))
    ⊎ ((str_eq hook.name "hook" ≡ false) × (after "hook" ≡ initial_status "hook"))
deliver_lem_example = deliver_lem flaky hook initial_status "hook"

notify_lem_example :
    (notify flaky with_alerts server went_down initial_status "hook").sent
    ≡ (initial_status "hook").sent
      + (if state_eq went_down.previous State.pending && state_eq went_down.current State.up
          then 0
          else delivered flaky "hook"
              (filter (λ a. chosen server a && wants went_down.current a) with_alerts.alerts))
notify_lem_example = notify_lem flaky with_alerts server went_down initial_status "hook"
