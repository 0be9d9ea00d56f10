-- ===== src/Alerts.antt =====
-- watchpost/alerts.py: which targets a transition goes to, what is sent to them, and the retry.
pub mod Laws
use ip_montior.Base.{
  ℕ, zero, suc, String, Option, none, some, Bool, true, false, ◌&&◌, not, if◌then◌else◌, List, [],
  ◌∷◌, ◌++◌, filter, contains, any, str_eq, truthy?, ◌<>◌,
}
use ip_montior.State.{State, Transition, alertable, state_eq}
use ip_montior.Config.Kinds.{Kind}
use ip_montior.Config.Types.{Monitor, Alert, AlertKind, Config}

-- `Literal` of a monitor's `type`
unfoldable pub type_name : Kind → String
type_name (Kind.homeassistant _) = "homeassistant"
type_name (Kind.unifi_network _) = "unifi_network"
type_name (Kind.unifi_protect _) = "unifi_protect"
type_name (Kind.technitium _) = "technitium"
type_name (Kind.truenas _) = "truenas"
type_name (Kind.proxmox _) = "proxmox"
type_name (Kind.vsphere _) = "vsphere"
type_name (Kind.linux _) = "linux"
type_name (Kind.docker _) = "docker"
type_name (Kind.ping _) = "ping"
type_name (Kind.tcp _) = "tcp"
type_name (Kind.http _) = "http"
type_name (Kind.dns _) = "dns"
type_name (Kind.tls_cert _) = "tls_cert"
type_name (Kind.snmp _) = "snmp"
type_name (Kind.winrm _) = "winrm"
type_name (Kind.wmi _) = "wmi"
type_name (Kind.mqtt _) = "mqtt"

-- `payload`; `at` stays a time, which the code prints in UTC.
pub record Payload : Type 0 where
  pub monitor : String
  pub slug : String
  pub group : String
  pub kind : String
  pub previous : State
  pub state : State
  pub message : String
  pub at : ℕ

unfoldable pub payload : Monitor → Transition → Payload
unfolding type_name
payload m tr = record {
  monitor = m.name;
  slug = m.slug;
  group = m.group;
  kind = type_name m.kind;
  previous = tr.previous;
  state = tr.current;
  message = tr.message;
  at = tr.at;
}

-- One entry of `Alerter.status`, by the target's name.
pub record Status : Type 0 where
  pub sent : ℕ
  pub last_error : Option String

abbrev pub Statuses : Type 0
Statuses = String → Status

unfoldable pub initial_status : Statuses
initial_status name = record { sent = 0; last_error = none }

abbrev put_status : Statuses → String → Status → Statuses
put_status statuses name status other = if str_eq name other then status else statuses other

-- `(monitor.alerts is None or a.name in monitor.alerts)`
abbrev pub chosen : Monitor → Alert → Bool
chosen m a = elim m.alerts [ none ↦ true | some names ↦ contains a.name names ]

-- `tr.current.value in a.notify_on`
abbrev pub wants : State → Alert → Bool
wants s a = any (λ on. state_eq on s) a.notify_on

unfoldable pub targets : Config → Monitor → Transition → List Alert
targets c m tr =
    if alertable tr then filter (λ a. chosen m a && wants tr.current a) c.alerts else []

-- `_deliver`: the environment says for each attempt whether `_send` raised, and what.
abbrev pub Network : Type 0
Network = Alert → ℕ → Option String

note_error : Statuses → Alert → String → Statuses
note_error statuses a text =
    put_status statuses a.name (record (statuses a.name) { last_error = some text })

note_sent : Statuses → Alert → Statuses
note_sent statuses a =
    put_status statuses a.name
      (record (statuses a.name) { sent = suc (statuses a.name).sent; last_error = none })

-- The attempts left, and the number of the next one.
attempts_from : ℕ → ℕ → Network → Alert → Statuses → Statuses
unfolding note_error note_sent
attempts_from zero k net a statuses = statuses
attempts_from (suc left) k net a statuses = elim (net a k) [
  | none ↦ note_sent statuses a
  | some text ↦ attempts_from left (suc k) net a (note_error statuses a text)
]

unfoldable pub deliver : Network → Alert → Statuses → Statuses
unfolding attempts_from
deliver net a statuses = attempts_from 2 1 net a statuses

-- The deliveries of `notify`, which run to their ends in some order; here that of the targets.
unfoldable pub deliver_all : Network → List Alert → Statuses → Statuses
deliver_all net [] statuses = statuses
deliver_all net (a ∷ rest) statuses = deliver_all net rest (deliver net a statuses)

unfoldable pub notify : Network → Config → Monitor → Transition → Statuses → Statuses
unfolding deliver_all targets
notify net c m tr statuses = deliver_all net (targets c m tr) statuses

-- What `_send` hands to the libraries.
pub data Request : Type 0 where
  post_json : String → Payload → List (String × String) → Request
  post_text : String → String → List (String × String) → Request
  mail : String → Payload → Request
  publish_state : String → State → Request
  publish_event : String → Payload → Request

-- `state.upper()`
upper : State → String
upper State.pending = "PENDING"
upper State.up = "UP"
upper State.warn = "WARN"
upper State.down = "DOWN"

unfoldable pub title : Payload → String
unfolding upper
title body = "[" <> upper body.state <> "] " <> body.monitor

-- `_PRIORITY` and `_TAGS`, which have no entry for PENDING: a KeyError there.
unfoldable pub ntfy_marks : State → Option (String × String)
ntfy_marks State.down = some ("high", "red_circle")
ntfy_marks State.warn = some ("default", "warning")
ntfy_marks State.up = some ("default", "white_check_mark")
ntfy_marks State.pending = none

authorization : Option String → List (String × String)
authorization none = []
authorization (some token) =
    if str_eq token "" then [] else ("Authorization", "Bearer " <> token) ∷ []

-- `_send`; `none` is the KeyError.
unfoldable pub requests : AlertKind → Payload → Option (List Request)
unfolding authorization
requests (AlertKind.webhook a) body = some (post_json a.url body a.headers ∷ [])
requests (AlertKind.ntfy a) body = elim (ntfy_marks body.state) [
  | none ↦ none
  | some marks ↦ some (
      post_text a.url body.message
        (("Title", title body) ∷ ("Priority", marks.0) ∷ ("Tags", marks.1) ∷ authorization a.token)
      ∷ [])
]
requests (AlertKind.smtp a) body = some (mail (title body) body ∷ [])
requests (AlertKind.mqtt a) body =
    let base = a.topic_prefix <> "/" <> body.slug in
    some (publish_state (base <> "/state") body.state ∷ publish_event (base <> "/event") body ∷ [])
