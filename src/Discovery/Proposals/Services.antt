-- ===== src/Discovery/Proposals/Services.antt =====
-- watchpost/discovery.py: `propose`, what it proposes for the other services, and the whole of it.
use ip_montior.Base.{
  ℕ, String, Bool, true, false, ◌&&◌, not, if◌then◌else◌, List, [], ◌∷◌, ◌++◌, Option, none, some,
  ltb, map, filter, take, length, str_eq, sort_by, ◌<>◌, truthy, truthy?,
}
use ip_montior.Config.Kinds.{
  Kind, ApiTarget, TrueNasMode, AlertLevel, HomeAssistantMode, UniFiNetworkMode, UniFiProtectMode,
  TechnitiumMode, StatsRange,
}
use ip_montior.Config.Types.{Monitor, DiscoverySettings}
use ip_montior.Discovery.Finding.{
  HostFinding, WebFinding, UniFiFinding, Device, TrueNasFinding, MqttFinding,
}
use ip_montior.Discovery.Proposals.{add, graded, forecasting, ca, host_part, fallback}
use ip_montior.Discovery.Proposals.Platforms.{
  place, api_common, sort_texts, concat_map, proxmox_part, vsphere_part,
}

module _ (digits : ℕ → String) (f : HostFinding) (s : DiscoverySettings) where
  -- `web_common`, of the fields that all API targets have. Without HTTPS nothing is said of the
  -- certificate, so the default stands.
  unfoldable pub web_common : WebFinding → ApiTarget
  web_common w = record {
    host = w.host;
    credential = w.credential;
    verify_tls = if w.https then w.verify else true;
    ca_bundle = if w.https && w.verify then ca s else none;
    port = w.port;
  }

  abbrev homeassistant : WebFinding → HomeAssistantMode → Kind
  homeassistant ha mode = Kind.homeassistant (record {
    target = web_common ha;
    https = ha.https;
    mode = mode;
    entity_id = none;
    expect = none;
    domains = [];
    ignore = [];
  })

  unfoldable pub homeassistant_part : WebFinding → List Monitor
  unfolding web_common
  homeassistant_part ha =
      place digits f s "homeassistant" "Home Assistant API" (homeassistant ha HomeAssistantMode.api)
      ∷ graded 1 25 (
          place digits f s "homeassistant" "HA unavailable entities"
            (homeassistant ha HomeAssistantMode.unavailable))
      ∷ place digits f s "homeassistant" "HA updates" (homeassistant ha HomeAssistantMode.updates)
      ∷ []

  abbrev technitium : WebFinding → TechnitiumMode → Kind
  technitium dns mode = Kind.technitium (record {
    target = web_common dns;
    https = dns.https;
    mode = mode;
    range = StatsRange.last_hour;
    token_in_query = false;
  })

  unfoldable pub technitium_part : WebFinding → List Monitor
  unfolding web_common
  technitium_part dns =
      graded 2 10
        (place digits f s "dns" "Technitium SERVFAIL rate" (technitium dns TechnitiumMode.stats))
      ∷ record (place digits f s "dns" "Technitium update" (technitium dns TechnitiumMode.update)) {
        interval = some 21600;
      }
      ∷ []

  -- `sc`, `tag` and the two lists of devices of a site
  abbrev many_sites : UniFiFinding → Bool
  many_sites un = ltb 1 (length un.sites)

  abbrev site_key : UniFiFinding → String → Option String
  site_key un site = if many_sites un then some site else none

  abbrev tag : UniFiFinding → String → String
  tag un site = if many_sites un then " " <> site else ""

  abbrev is_online : Device → Bool
  is_online d = str_eq d.state "ONLINE"

  unfoldable pub offline : UniFiFinding → String → List String
  offline un site = sort_texts (
      map (λ (d : Device). d.name)
        (filter (λ (d : Device). str_eq d.site site && not (is_online d)) un.devices))

  abbrev unifi : UniFiFinding → String → UniFiNetworkMode → Option String → List String → Kind
  unifi un site mode device ignore = Kind.unifi_network (record {
    target = api_common digits f s un.host un.credential un.port un.verify;
    base_path = "/proxy/network/integration/v1";
    site = site_key un site;
    mode = mode;
    device = device;
    ignore = ignore;
  })

  unfoldable pub device_part : UniFiFinding → String → Device → List Monitor
  device_part un site d =
      place digits f s "unifi" d.name (unifi un site UniFiNetworkMode.device (some d.name) [])
      ∷ graded 85 95 (
          place digits f s "unifi" (d.name <> " CPU")
            (unifi un site UniFiNetworkMode.device_cpu (some d.name) []))
      ∷ forecasting 85 95 (
          place digits f s "unifi" (d.name <> " memory")
            (unifi un site UniFiNetworkMode.device_memory (some d.name) []))
      ∷ []

  unfoldable pub site_part : UniFiFinding → String → List Monitor
  unfolding offline device_part
  site_part un site =
      place digits f s "unifi" ("UniFi devices" <> tag un site)
        (unifi un site UniFiNetworkMode.devices none (offline un site))
      ∷ record (place digits f s "unifi" ("UniFi firmware" <> tag un site)
          (unifi un site UniFiNetworkMode.firmware none [])) { interval = some 21600 }
      ∷ concat_map (device_part un site) (
          filter (λ (d : Device). truthy d.name)
            (take s.max_guests
              (filter (λ (d : Device). str_eq d.site site && is_online d) un.devices)))

  abbrev protect : UniFiFinding → UniFiProtectMode → Option String → Kind
  protect un mode camera = Kind.unifi_protect (record {
    target = api_common digits f s un.host un.credential un.port un.verify;
    base_path = "/proxy/protect/integration/v1";
    mode = mode;
    camera = camera;
    ignore = [];
  })

  unfoldable pub camera_part : UniFiFinding → List String → List Monitor
  camera_part un cameras =
      place digits f s "protect" "Protect cameras" (protect un UniFiProtectMode.cameras none)
      ∷ map
          (λ cam.
            place digits f s "protect" ("camera " <> cam)
              (protect un UniFiProtectMode.camera (some cam)))
          (filter truthy (take s.max_guests cameras))

  unfoldable pub unifi_part : UniFiFinding → List Monitor
  unfolding site_part camera_part
  unifi_part un =
      concat_map (site_part un) un.sites
      ++ elim un.cameras [ none ↦ [] | some cameras ↦ camera_part un cameras ]

  abbrev truenas : TrueNasFinding → TrueNasMode → Option String → Kind
  truenas tn mode pool = Kind.truenas (record {
    target = api_common digits f s tn.host tn.credential tn.port tn.verify;
    mode = mode;
    pool = pool;
    min_alert_level = AlertLevel.warning;
  })

  unfoldable pub truenas_part : TrueNasFinding → List Monitor
  truenas_part tn =
      place digits f s "truenas" "pools" (truenas tn TrueNasMode.pools none)
      ∷ place digits f s "truenas" "alerts" (truenas tn TrueNasMode.alerts none)
      ∷ map
          (λ pool. forecasting 80 90 (
            place digits f s "truenas" ("pool " <> pool) (truenas tn TrueNasMode.pool (some pool))))
          tn.pools

  unfoldable pub mqtt_entry : ℕ → MqttFinding → Monitor
  mqtt_entry port mq = add digits f s ("MQTT " <> digits port) (
      Kind.mqtt (record {
        host = mq.host;
        port = port;
        credential = if truthy? mq.credential then mq.credential else none;
        tls = mq.tls;
        ca_bundle = if mq.tls then ca s else none;
        topic = none;
        expect = none;
        numeric = false;
      }))

  unfoldable pub mqtt_part : List Monitor
  unfolding mqtt_entry
  mqtt_part =
      map (λ (e : ℕ × MqttFinding). mqtt_entry e.0 e.1)
        (filter (λ (e : ℕ × MqttFinding). (e.1).ok) (sort_by (λ (e : ℕ × MqttFinding). e.0) f.mqtt))

  abbrev part {ℓ} : {A : Type ℓ} → (A → List Monitor) → Option A → List Monitor
  part g none = []
  part g (some a) = g a

  unfoldable pub service_part : List Monitor
  unfolding homeassistant_part technitium_part unifi_part truenas_part mqtt_part
  service_part =
      part (proxmox_part digits f s) f.proxmox
      ++ part (vsphere_part digits f s) f.vsphere
      ++ part homeassistant_part f.homeassistant
      ++ part technitium_part f.technitium
      ++ part unifi_part f.unifi
      ++ part truenas_part f.truenas
      ++ mqtt_part

  -- The monitors that `propose` returns.
  unfoldable pub propose : List Monitor
  unfolding service_part
  propose = let ms = host_part digits f s in ms ++ fallback digits f s ms ++ service_part
