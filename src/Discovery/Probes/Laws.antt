-- ===== src/Discovery/Probes/Laws.antt =====
-- The probes of discovery leave the ports alone that the sweep found open.
use ip_montior.Base.{
  ℕ, String, Bool, true, false, if◌then◌else◌, List, [], ◌∷◌, Option, none, some, All, map, ◌≡◌,
  refl, ◌∙◌, arith,
}
use ip_montior.Config.Types.{DiscoverySettings}
use ip_montior.Discovery.Finding.{HostFinding, TlsFinding, dns_name}
use ip_montior.Discovery.Gates.{Channel, tls_gate, http_gate}
use ip_montior.Discovery.Scan.{
  Probe, Offers, scan_host, for_snmp, for_winrm, for_truenas, for_proxmox, for_vsphere,
  for_homeassistant, for_unifi, for_technitium, for_mqtt,
}
use ip_montior.Discovery.Scan.Asked.{is_sweep, allowed}
use ip_montior.Discovery.Scan.Allowed.{scan_host-allowed}
use ip_montior.Discovery.Probes.{
  HostNet, tls_probe, ssh_banner, set_http, set_mqtt, mqtt_attempts, mqtt, web,
}
use ip_montior.Discovery.Probes.Platforms.{Resource}
use ip_montior.Discovery.Probes.Answers.{
  UniFiReply, Replies, first_answer, known_tls, note_tls, behind, snmp, winrm, ssh,
  ask_homeassistant, ask_technitium, ask_proxmox, ask_vsphere, ask_truenas, ask_unifi, answers,
  tell_unifi, tell_proxmox,
}

pub option_holds :
    {A B : Type 0} (P : B → Type 0) (o : Option A) (x : B) (f : A → B)
    → P x
    → ((a : A) → P (f a))
    → P (elim o [ none ↦ x | some a ↦ f a ])
option_holds P none x f h k = h
option_holds P (some a) x f h k = k a

if_keeps :
    {A : Type 0} (P : A → Type 0) (test : Bool) (x y : A) → P x → P y → P (if test then x else y)
if_keeps P true x y h k = h
if_keeps P false x y h k = k

-- The ports are those of an earlier finding.
abbrev Same : HostFinding → HostFinding → Type 0
Same f g = g.open_ports ≡ f.open_ports

abbrev Same? : HostFinding → HostFinding × Bool → Type 0
Same? f x = Same f x.0

module _ (digits : ℕ → String) (net : HostNet) where
  ssh_banner-Same : (f : HostFinding) → Same f (ssh_banner digits net f)
  unfolding ssh_banner
  ssh_banner-Same f = option_holds (Same f) net.banner _ _ refl (λ line. refl)

  set_http-Same :
      (port : ℕ) (scheme host : String) (status : Option ℕ) (f : HostFinding)
      → Same f (set_http digits net port scheme host status f)
  unfolding set_http
  set_http-Same port scheme host none f = refl
  set_http-Same port scheme host (some status) f = refl

  web-Same : (port : ℕ) (f : HostFinding) → Same f (web digits net port f)
  unfolding web
  web-Same port f =
      option_holds (Same f) (tls_probe net port (dns_name f)) _ _
        (set_http-Same port "http" f.address _ f) (λ tls. set_http-Same port "https" _ _ _)

  mqtt_attempts-Same :
      (port : ℕ) (tls : Bool) (host : String) (creds : List (Option String)) (f : HostFinding)
      → Same f (mqtt_attempts digits net port tls host creds f)
  unfolding mqtt_attempts set_mqtt
  mqtt_attempts-Same port tls host [] f = refl
  mqtt_attempts-Same port tls host (cred ∷ creds) f =
      if_keeps (Same f) (net.mqtt_passes host port cred tls) _ _ refl
        (mqtt_attempts-Same port tls host creds _)

  mqtt-Same :
      (creds : List (Option String)) (port : ℕ) (f : HostFinding)
      → Same f (mqtt digits net creds port f)
  unfolding mqtt set_mqtt
  mqtt-Same creds port f =
      option_holds (Same f) (tls_probe net port (dns_name f)) _ _
        (mqtt_attempts-Same port false f.address creds f)
        (λ tls. if_keeps (Same f) tls.valid _ _ (mqtt_attempts-Same port true _ creds f) refl)

module _ (digits : ℕ → String) (number : String → ℕ) (s : DiscoverySettings) (offers : Offers)
    (r : Replies) where
  note_tls-Same :
      (port : ℕ) (tls : Option TlsFinding) (f : HostFinding)
      → Same f (note_tls digits number s offers r port tls f)
  unfolding note_tls
  note_tls-Same port none f = refl
  note_tls-Same port (some tls) f = refl

  behind-Same :
      (gate : Bool → Option Bool → Option Channel × Bool) (port : ℕ)
      (ask : Channel → HostFinding → HostFinding × Bool)
      → ((channel : Channel) (f : HostFinding) → Same? f (ask channel f))
      → (f : HostFinding) → Same? f (behind digits number s offers r gate port ask f)
  unfolding behind
  behind-Same gate port ask keeps f =
      let noted = note_tls-Same port (known_tls digits number s offers r port f) f in
      option_holds (Same? f) _ _ _ noted (λ channel. keeps channel _ ∙ noted)

  tell_unifi-Same :
      (port : ℕ) (channel : Channel) (f : HostFinding) (cred : String) (reply : UniFiReply)
      → Same? f (tell_unifi digits number s offers r port channel f cred reply)
  unfolding tell_unifi
  tell_unifi-Same port channel f cred UniFiReply.not_unifi = refl
  tell_unifi-Same port channel f cred (UniFiReply.console found) = refl

  tell_proxmox-Same :
      (channel : Channel) (f : HostFinding) (cred : String) (items : List Resource)
      → Same f (tell_proxmox digits number s offers r channel f cred items)
  unfolding tell_proxmox
  tell_proxmox-Same channel f cred [] = refl
  tell_proxmox-Same channel f cred (i ∷ items) = refl

  ask_homeassistant-Same :
      (channel : Channel) (f : HostFinding)
      → Same? f (ask_homeassistant digits number s offers r channel f)
  unfolding ask_homeassistant
  ask_homeassistant-Same channel f =
      option_holds (Same? f) (first_answer r.homeassistant (offers for_homeassistant)) _ _ refl
        (λ x. refl)

  ask_technitium-Same :
      (channel : Channel) (f : HostFinding)
      → Same? f (ask_technitium digits number s offers r channel f)
  unfolding ask_technitium
  ask_technitium-Same channel f =
      option_holds (Same? f) (first_answer r.technitium (offers for_technitium)) _ _ refl
        (λ x. refl)

  ask_proxmox-Same :
      (channel : Channel) (f : HostFinding)
      → Same? f (ask_proxmox digits number s offers r channel f)
  unfolding ask_proxmox
  ask_proxmox-Same channel f =
      option_holds (Same? f) (first_answer r.proxmox (offers for_proxmox)) _ _ refl
        (λ x. tell_proxmox-Same channel f x.0 x.1)

  ask_vsphere-Same :
      (port : ℕ) (channel : Channel) (f : HostFinding)
      → Same? f (ask_vsphere digits number s offers r port channel f)
  unfolding ask_vsphere
  ask_vsphere-Same port channel f =
      option_holds (Same? f) (first_answer r.vsphere (offers for_vsphere)) _ _ refl (λ x. refl)

  ask_truenas-Same :
      (port : ℕ) (channel : Channel) (f : HostFinding)
      → Same? f (ask_truenas digits number s offers r port channel f)
  unfolding ask_truenas
  ask_truenas-Same port channel f =
      option_holds (Same? f) (first_answer r.truenas (offers for_truenas)) _ _ refl (λ x. refl)

  ask_unifi-Same :
      (port : ℕ) (channel : Channel) (f : HostFinding)
      → Same? f (ask_unifi digits number s offers r port channel f)
  unfolding ask_unifi
  ask_unifi-Same port channel f =
      option_holds (Same? f) (first_answer r.unifi (offers for_unifi)) _ _ refl
        (λ x. tell_unifi-Same port channel f x.0 x.1)

  -- No probe after the sweep changes the open ports.
  keeps_ports :
      (p : Probe) (f : HostFinding)
      → is_sweep p ≡ false
      → (answers digits number s offers r p f).0.open_ports ≡ f.open_ports
  unfolding answers snmp winrm ssh
  keeps_ports Probe.ping f h = absurd (ground (arith, h))
  keeps_ports Probe.ptr f h = absurd (ground (arith, h))
  keeps_ports (Probe.tcp port) f h = absurd (ground (arith, h))
  keeps_ports Probe.snmp f h =
      option_holds (Same? f) (first_answer r.snmp (offers for_snmp)) _ _ refl (λ x. refl)
  keeps_ports Probe.winrm f h =
      option_holds (Same? f) _ _ _ refl
        (λ c. option_holds (Same? f) (first_answer r.winrm (offers for_winrm)) _ _ refl (λ x. refl))
  keeps_ports Probe.ssh f h = option_holds (Same? f) _ _ _ refl (λ x. refl)
  keeps_ports Probe.proxmox f h =
      behind-Same tls_gate s.proxmox_port (ask_proxmox digits number s offers r) ask_proxmox-Same f
  keeps_ports Probe.homeassistant f h =
      behind-Same http_gate s.homeassistant_port (ask_homeassistant digits number s offers r)
        ask_homeassistant-Same f
  keeps_ports Probe.technitium f h =
      behind-Same http_gate s.technitium_port (ask_technitium digits number s offers r)
        ask_technitium-Same f
  keeps_ports (Probe.is_vsphere port) f h = refl
  keeps_ports (Probe.vsphere port) f h =
      behind-Same tls_gate port (ask_vsphere digits number s offers r port) (ask_vsphere-Same port)
        f
  keeps_ports (Probe.unifi port) f h =
      behind-Same tls_gate port (ask_unifi digits number s offers r port) (ask_unifi-Same port) f
  keeps_ports (Probe.truenas port) f h =
      behind-Same tls_gate port (ask_truenas digits number s offers r port) (ask_truenas-Same port)
        f
  keeps_ports Probe.ssh_banner f h = ssh_banner-Same digits r.net f
  keeps_ports (Probe.mqtt port) f h =
      mqtt-Same digits r.net (none ∷ map some (offers for_mqtt)) port f
  keeps_ports (Probe.web port) f h = web-Same digits r.net port f

  -- In a scan of a host with these probes, a credential of WinRM, SSH or an API goes only to the port
  -- of the settings that it is for, which the host has open, and only where the settings name one of
  -- its kind; and after the sweep no TCP port is asked for anything that is not open. SNMP, on UDP, is
  -- asked of every host.
  pub answers-allowed :
      (f : HostFinding)
      → let t = scan_host s offers (answers digits number s offers r) f in
        All (λ p. allowed s offers t.finding.open_ports p ≡ true) t.made
  answers-allowed f = scan_host-allowed s offers (answers digits number s offers r) keeps_ports f
