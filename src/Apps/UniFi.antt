-- ===== src/Apps/UniFi.antt =====
-- watchpost/checks/apps.py: the UniFi checks over the lists that unifi_list_all returns. Counts and
-- percentages are in tenths, and a reported percentage in hundredths.
pub mod Laws
use ip_montior.Base.{
  ℕ, ◌-◌, String, Bool, true, false, not, ◌&&◌, ◌||◌, List, [], ◌∷◌, Option, none, some, str_eq,
  if◌then◌else◌, ◌==◌, ◌<>◌, ℤ, pos, any, filter, map, length, truthy?, replace, lower, is_some,
  Try, done, raised,
}
use ip_montior.Check.{Result, CheckResult, failed, passed, Thresholds}
use ip_montior.Config.Kinds.{
  UniFiNetworkMonitor, UniFiNetworkMode, UniFiProtectMonitor, UniFiProtectMode,
}
use ip_montior.Net.{sorted}
use ip_montior.Snmp.Modes.{round_ℤ}
use ip_montior.Platforms.{shown, is, same, count_of, find_first}
use ip_montior.Platforms.TrueNas.{join_with}
use ip_montior.Apps.{ApiError, on_api_error}

pub record Site : Type 0 where
  pub name : Option String
  pub id : String

-- A device or a camera; `mac` is the first of `macAddress` and `mac` that is there.
pub record Device : Type 0 where
  pub id : String
  pub name : Option String
  pub mac_address : Option String
  pub mac : Option String
  pub state : Option String
  pub model : Option String
  pub firmware_version : Option String
  pub updatable : Bool

abbrev or_text : Option String → Option String → Option String
or_text a b = if truthy? a then a else b

-- `s.lower().replace("-", ":")`
unfoldable pub plain_mac : String → String
unfolding lower replace
plain_mac s = replace "-" ":" (lower s)

-- `matches`
unfoldable pub matches : String → Device → Bool
unfolding plain_mac
matches want d =
    is d.name want
    || str_eq (plain_mac (shown (or_text d.mac_address (or_text d.mac (some ""))))) (plain_mac want)

-- `item.get("name") in names`
abbrev named_in : List String → Option String → Bool
named_in names none = false
named_in names (some name) = any (λ n. str_eq n name) names

-- A list of texts without `None`; `none` is the TypeError of `sorted` or `join`.
unfoldable pub all_texts : List (Option String) → Option (List String)
all_texts [] = some []
all_texts (none ∷ os) = none
all_texts (some s ∷ os) = elim (all_texts os) [ none ↦ none | some ss ↦ some (s ∷ ss) ]

module _ (digits : ℕ → String) (listed : List (Option String) → String) where
  -- `site_id`, of the sites
  unfoldable pub site_id : Option String → List Site → Try ApiError String
  site_id wanted sites =
      let names = listed (map (λ s. s.name) sites) in
      if truthy? wanted
      then elim (filter (λ s. same s.name wanted) sites) [
        | [] ↦
            raised
              (ApiError.lookup_error ("site " <> shown wanted <> " not found; sites: " <> names))
        | s ∷ more ↦ done s.id
      ]
      else elim sites [
        | [] ↦ raised (ApiError.lookup_error (digits 0 <> " sites; set site to one of " <> names))
        | s ∷ more ↦
            if length more == 0
            then done s.id
            else raised (
                ApiError.lookup_error
                  (digits (length (s ∷ more)) <> " sites; set site to one of " <> names))
      ]

-- Some of `all` are down: the message, the count and, without thresholds, the given result.
module _ (digits : ℕ → String) where
  -- The result of the modes `devices` and `cameras`, of those considered and the labels of those down
  unfoldable pub judge_down : String → String → Option Thresholds → ℕ → List String → CheckResult
  unfolding join_with
  judge_down what sep th considered [] =
      passed (digits considered <> "/" <> digits considered <> " " <> what) (some (pos 0)) ""
  judge_down what sep th considered (d ∷ down) =
      record (passed
        (digits (considered - length (d ∷ down))
          <> "/"
          <> digits considered
          <> " "
          <> what
          <> sep
          <> join_with ", " (d ∷ down))
        (some (count_of (d ∷ down))) "") { result = if is_some th then Result.ok else Result.fail }

  abbrev considered : List String → List Device → List Device
  considered ignore = filter (λ d. not (named_in ignore d.name))

  abbrev offline : Device → Bool
  offline d = not (is d.state "ONLINE")

  unfoldable pub judge_devices :
      UniFiNetworkMonitor → Option Thresholds → List Device → Option CheckResult
  unfolding all_texts sorted judge_down
  judge_devices m th devices =
      let chosen = considered m.ignore devices in
      elim (all_texts (map (λ d. or_text d.name d.mac_address) (filter offline chosen))) [
        | none ↦ none
        | some down ↦
            some (judge_down "devices online" "; not online: " th (length chosen) (sorted down))
      ]

  -- The result of the mode `firmware`, of the sorted names
  unfoldable pub judge_updatable : Option Thresholds → List String → CheckResult
  unfolding join_with
  judge_updatable th [] = passed (digits 0 <> " devices have firmware updates") (some (pos 0)) ""
  judge_updatable th (d ∷ upd) =
      record (passed
        (digits (length (d ∷ upd))
          <> " devices have firmware updates: "
          <> join_with ", " (d ∷ upd))
        (some (count_of (d ∷ upd))) "") { result = if is_some th then Result.ok else Result.warn }

  unfoldable pub judge_firmware :
      UniFiNetworkMonitor → Option Thresholds → List Device → Option CheckResult
  unfolding all_texts sorted judge_updatable
  judge_firmware m th devices =
      elim (all_texts
        (map (λ d. d.name) (filter (λ d. d.updatable && not (named_in m.ignore d.name)) devices))) [
          | none ↦ none
          | some upd ↦ some (judge_updatable th (sorted upd))
        ]

  -- The statistics of a device: a percentage for each key, and the printed uptime.
  pub record Latest : Type 0 where
    pub cpu : Option ℤ
    pub memory : Option ℤ
    pub uptime : String

  abbrev device_label : Device → String
  device_label d = shown d.name <> " (" <> shown d.model <> ")"

  unfoldable pub judge_statistics : (ℤ → String) → Bool → Device → Latest → CheckResult
  unfolding round_ℤ
  judge_statistics text of_cpu d stats =
      let key = if of_cpu then "cpuUtilizationPct" else "memoryUtilizationPct" in
      elim (if of_cpu then stats.cpu else stats.memory) [
        | none ↦ failed (device_label d <> " reports no " <> key)
        | some v ↦
            passed
              (device_label d
                <> (if of_cpu then " CPU " else " memory ")
                <> text v
                <> "%, up "
                <> stats.uptime
                <> " days")
              (some (round_ℤ v 10)) "%"
      ]

  abbrev or_error {ℓ} :
      {A : Type ℓ} → Try ApiError A → (A → Option CheckResult) → Option CheckResult
  or_error (raised e) k = some (on_api_error e)
  or_error (done a) k = k a

  -- The modes for one device; `latest` is the request of its statistics.
  unfoldable pub judge_device :
      (ℤ → String)
      → UniFiNetworkMonitor
      → (Device → Try ApiError Latest)
      → List Device
      → Option CheckResult
  unfolding find_first matches judge_statistics on_api_error
  judge_device text m latest devices = elim (find_first (matches (shown m.device)) devices) [
    | none ↦ some (failed ("device " <> shown m.device <> " not found"))
    | some d ↦
        if offline d
        then some (failed (device_label d <> " is " <> shown d.state))
        else elim m.mode [
          | UniFiNetworkMode.device_cpu ↦
              or_error (latest d) (λ stats. some (judge_statistics text true d stats))
          | UniFiNetworkMode.device_memory ↦
              or_error (latest d) (λ stats. some (judge_statistics text false d stats))
          | _ ↦ some (
              passed
                (device_label d
                  <> " online, firmware "
                  <> shown d.firmware_version
                  <> (if d.updatable then " (update available)" else ""))
                none "")
        ]
  ]

  -- `UniFiNetworkCheck._probe` within `probe`; `none` is a TypeError.
  unfoldable pub unifi_network :
      (ℤ → String)
      → (List (Option String) → String)
      → UniFiNetworkMonitor
      → Option Thresholds
      → Try ApiError (List Site)
      → (String → Try ApiError (List Device))
      → (String → Device → Try ApiError Latest)
      → Option CheckResult
  unfolding site_id judge_devices judge_firmware judge_device on_api_error
  unifi_network text listed m th sites devices_of latest = or_error sites (λ found.
      or_error (site_id digits listed m.site found) (λ sid. or_error (devices_of sid) (λ devices.
        elim m.mode [
          | UniFiNetworkMode.devices ↦ judge_devices m th devices
          | UniFiNetworkMode.firmware ↦ judge_firmware m th devices
          | _ ↦ judge_device text m (latest sid) devices
        ])))

  abbrev disconnected : Device → Bool
  disconnected c = not (is c.state "CONNECTED")

  abbrev camera_text : Device → String
  camera_text c = shown c.name <> " (" <> shown c.state <> ")"

  -- One camera
  unfoldable pub judge_camera : Device → CheckResult
  judge_camera c =
      let label = shown c.name <> " (" <> elim c.model [ none ↦ "camera" | some s ↦ s ] <> ")" in
      if is c.state "CONNECTED"
      then passed (label <> " connected") none ""
      else if is c.state "CONNECTING"
      then record (passed (label <> " connecting") none "") { result = Result.warn }
      else failed (label <> " is " <> shown c.state)

  -- `UniFiProtectCheck._probe` within `probe`; `model` is the key `modelKey` here.
  unfoldable pub unifi_protect :
      UniFiProtectMonitor
      → Option Thresholds
      → Try ApiError (Option String)
      → Try ApiError (List Device)
      → Option CheckResult
  unfolding find_first matches sorted judge_down judge_camera on_api_error
  unifi_protect m th info cameras = elim m.mode [
    | UniFiProtectMode.info ↦ or_error info (λ version.
        some (
          passed ("Protect " <> elim version [ none ↦ "?" | some v ↦ v ] <> " responding") none ""))
    | UniFiProtectMode.cameras ↦ or_error cameras (λ cams.
        let chosen = considered m.ignore cams in
        some (
          judge_down "cameras connected" "; " th (length chosen)
            (sorted (map camera_text (filter disconnected chosen)))))
    | UniFiProtectMode.camera ↦ or_error cameras (λ cams.
        elim (find_first (matches (shown m.camera)) cams) [
          | none ↦ some (failed ("camera " <> shown m.camera <> " not found"))
          | some c ↦ some (judge_camera c)
        ])
  ]
