-- ===== src/Discovery/Probes/Answers.antt =====
-- watchpost/discovery.py: the probes with credentials, as `scan_host` makes them: the gate, then the
-- credentials in their order until one is answered. Lockout has the tests that come between.
use ip_montior.Base.{
  ℕ, String, Bool, true, false, if◌then◌else◌, List, [], ◌∷◌, Option, none, some, map,
}
use ip_montior.Config.Types.{DiscoverySettings}
use ip_montior.Discovery.Finding.{
  HostFinding, TlsFinding, WinRmFinding, SshFinding, WebFinding, UniFiFinding, dns_name, at_port,
  api_host,
}
use ip_montior.Discovery.Gates.{
  Channel, winrm_channel, tls_gate, http_gate, host_key_state, ssh_offers,
}
use ip_montior.Discovery.Scan.{
  Probe, Offers, for_snmp, for_winrm, for_mqtt, for_ssh, for_truenas, for_proxmox, for_vsphere,
  for_homeassistant, for_unifi, for_technitium,
}
use ip_montior.Discovery.Probes.{
  HostNet, tls_probe, put_port, ping, tcp, ptr, ssh_banner, web, mqtt, is_vsphere,
}
use ip_montior.Discovery.Probes.Platforms.{
  Resource, Collected, Tables, proxmox_finding, vsphere_finding, truenas_finding, snmp_finding,
}

-- What `_unifi`'s attempt returns
pub data UniFiReply : Type 0 where
  not_unifi : UniFiReply
  console : (String → ℕ → Bool → UniFiFinding) → UniFiReply

-- What a host answers to a credential; `none` is a credential that is retired, rejected or failed, and for
-- SNMP also an answer without rows.
pub record Replies : Type 0 where
  pub net : HostNet
  pub icmp_denied : Bool
  -- Whether the file of known hosts has a key for the host, and whether a line names it
  pub key_parsed : Bool
  pub key_named : Bool
  pub has_key : String → Bool
  pub snmp : String → Option (List (String × String) × Tables)
  pub winrm : String → Option WinRmFinding
  pub ssh : String → Option SshFinding
  pub homeassistant : String → Option (Unit {0})
  pub technitium : String → Option (Unit {0})
  pub unifi : String → Option UniFiReply
  pub proxmox : String → Option (List Resource)
  pub vsphere : String → Option Collected
  pub truenas : String → Option (List String)

-- `for cred in creds: ...; if it is answered: return`
unfoldable pub first_answer {ℓ} :
    {A : Type ℓ} → (String → Option A) → List String → Option (String × A)
first_answer ask [] = none
first_answer ask (cred ∷ creds) = elim (ask cred) [
  | none ↦ first_answer ask creds
  | some a ↦ some (cred, a)
]

abbrev is_validated : Channel → Bool
is_validated Channel.validated = true
is_validated Channel.unchecked = false
is_validated Channel.cleartext = false

abbrev is_https : Channel → Bool
is_https Channel.cleartext = false
is_https Channel.validated = true
is_https Channel.unchecked = true

module _ (digits : ℕ → String) (number : String → ℕ) (s : DiscoverySettings) (offers : Offers)
    (r : Replies) where
  -- `f.tls.get(port)`, and `_tls_probe` where there is none
  unfoldable pub known_tls : ℕ → HostFinding → Option TlsFinding
  unfolding tls_probe at_port dns_name
  known_tls port f = elim (at_port port f.tls) [
    | some tls ↦ some tls
    | none ↦ tls_probe r.net port (dns_name f)
  ]

  -- What a gate writes to `f.tls`
  unfoldable pub note_tls : ℕ → Option TlsFinding → HostFinding → HostFinding
  unfolding put_port
  note_tls port none f = f
  note_tls port (some tls) f = record f { tls = put_port port tls f.tls }

  abbrev listener : Option TlsFinding → Option Bool
  listener none = none
  listener (some tls) = some tls.valid

  -- A probe behind a gate: `ask` gets the finding and the channel.
  unfoldable pub behind :
      (Bool → Option Bool → Option Channel × Bool)
      → ℕ
      → (Channel → HostFinding → HostFinding × Bool)
      → HostFinding
      → HostFinding × Bool
  unfolding known_tls note_tls
  behind gate port ask f =
      let tls = known_tls port f in
      let noted = note_tls port tls f in
      elim (gate s.api_require_valid_tls (listener tls)).0 [
        | none ↦ (noted, false)
        | some channel ↦ ask channel noted
      ]

  unfoldable pub snmp : HostFinding → HostFinding × Bool
  unfolding first_answer snmp_finding
  snmp f = elim (first_answer r.snmp (offers for_snmp)) [
    | none ↦ (f, false)
    | some (cred, (sysv, tables)) ↦
        (record f { snmp = some (snmp_finding number cred sysv tables) }, false)
  ]

  -- `_winrm`: the listener is probed again, and not noted.
  unfoldable pub winrm : HostFinding → HostFinding × Bool
  unfolding first_answer winrm_channel tls_probe dns_name
  winrm f =
      elim (winrm_channel s.winrm_require_valid_tls
        (listener (tls_probe r.net s.winrm_port (dns_name f)))) [
          | none ↦ (f, false)
          | some channel ↦ elim (first_answer r.winrm (offers for_winrm)) [
            | none ↦ (f, false)
            | some (cred, data') ↦ (record f { winrm = some data' }, false)
          ]
        ]

  unfoldable pub ssh : HostFinding → HostFinding × Bool
  unfolding first_answer ssh_offers host_key_state
  ssh f =
      let creds =
        ssh_offers s.ssh_trust_on_first_use (host_key_state r.key_parsed r.key_named) r.has_key
          (offers for_ssh) in
      elim (first_answer r.ssh creds) [
        | none ↦ (f, false)
        | some (cred, data') ↦ (record f { ssh = some data' }, false)
      ]

  abbrev web_finding : String → ℕ → Channel → HostFinding → WebFinding
  web_finding cred port channel f = record {
    credential = cred;
    host = if is_https channel then api_host f port else f.address;
    port = port;
    https = is_https channel;
    verify = is_validated channel;
  }

  unfoldable pub ask_homeassistant : Channel → HostFinding → HostFinding × Bool
  unfolding first_answer api_host
  ask_homeassistant channel f = elim (first_answer r.homeassistant (offers for_homeassistant)) [
    | none ↦ (f, false)
    | some (cred, _) ↦
        (record f { homeassistant = some (web_finding cred s.homeassistant_port channel f) }, false)
  ]

  unfoldable pub ask_technitium : Channel → HostFinding → HostFinding × Bool
  unfolding first_answer api_host
  ask_technitium channel f = elim (first_answer r.technitium (offers for_technitium)) [
    | none ↦ (f, false)
    | some (cred, _) ↦
        (record f { technitium = some (web_finding cred s.technitium_port channel f) }, false)
  ]

  unfoldable pub tell_proxmox : Channel → HostFinding → String → List Resource → HostFinding
  unfolding api_host proxmox_finding
  tell_proxmox channel f cred [] = f
  tell_proxmox channel f cred (i ∷ items) = record f {
    proxmox =
        some (proxmox_finding cred (api_host f s.proxmox_port) (is_validated channel) (i ∷ items));
  }

  -- A token that sees nothing ends the loop without a finding.
  unfoldable pub ask_proxmox : Channel → HostFinding → HostFinding × Bool
  unfolding first_answer tell_proxmox
  ask_proxmox channel f = elim (first_answer r.proxmox (offers for_proxmox)) [
    | none ↦ (f, false)
    | some (cred, items) ↦ (tell_proxmox channel f cred items, false)
  ]

  unfoldable pub ask_vsphere : ℕ → Channel → HostFinding → HostFinding × Bool
  unfolding first_answer api_host vsphere_finding
  ask_vsphere port channel f = elim (first_answer r.vsphere (offers for_vsphere)) [
    | none ↦ (f, false)
    | some (cred, data') ↦ (
      record f {
        vsphere = some (vsphere_finding cred (api_host f port) port (is_validated channel) data');
      },
      false,
    )
  ]

  unfoldable pub ask_truenas : ℕ → Channel → HostFinding → HostFinding × Bool
  unfolding first_answer api_host truenas_finding
  ask_truenas port channel f = elim (first_answer r.truenas (offers for_truenas)) [
    | none ↦ (f, false)
    | some (cred, pools) ↦ (
      record f {
        truenas = some (truenas_finding cred (api_host f port) port (is_validated channel) pools);
      },
      false,
    )
  ]

  unfoldable pub tell_unifi : ℕ → Channel → HostFinding → String → UniFiReply → HostFinding × Bool
  unfolding api_host
  tell_unifi port channel f cred UniFiReply.not_unifi = (f, false)
  tell_unifi port channel f cred (UniFiReply.console found) = (
    record f {
      unifi =
          some (record (found (api_host f port) port (is_validated channel)) { credential = cred });
    },
    true,
  )

  -- Whether it is a UniFi console that answered
  unfoldable pub ask_unifi : ℕ → Channel → HostFinding → HostFinding × Bool
  unfolding first_answer tell_unifi
  ask_unifi port channel f = elim (first_answer r.unifi (offers for_unifi)) [
    | none ↦ (f, false)
    | some (cred, reply) ↦ tell_unifi port channel f cred reply
  ]

  -- Every probe of the scan
  unfoldable pub answers : Probe → HostFinding → HostFinding × Bool
  unfolding ping tcp ptr ssh_banner web mqtt is_vsphere snmp winrm ssh behind tls_gate http_gate
      ask_homeassistant ask_technitium ask_proxmox ask_vsphere ask_truenas ask_unifi
  answers Probe.ping f = ((ping digits r.net r.icmp_denied f).0, false)
  answers Probe.ptr f = (ptr digits r.net f, false)
  answers (Probe.tcp port) f = (tcp digits r.net port f, false)
  answers Probe.snmp f = snmp f
  answers Probe.winrm f = winrm f
  answers Probe.ssh f = ssh f
  answers Probe.proxmox f = behind tls_gate s.proxmox_port ask_proxmox f
  answers Probe.homeassistant f = behind http_gate s.homeassistant_port ask_homeassistant f
  answers Probe.technitium f = behind http_gate s.technitium_port ask_technitium f
  answers (Probe.is_vsphere port) f = (f, is_vsphere digits r.net port)
  answers (Probe.vsphere port) f = behind tls_gate port (ask_vsphere port) f
  answers (Probe.unifi port) f = behind tls_gate port (ask_unifi port) f
  answers (Probe.truenas port) f = behind tls_gate port (ask_truenas port) f
  answers Probe.ssh_banner f = (ssh_banner digits r.net f, false)
  answers (Probe.mqtt port) f =
      (mqtt digits r.net (none ∷ map some (offers for_mqtt)) port f, false)
  answers (Probe.web port) f = (web digits r.net port f, false)
