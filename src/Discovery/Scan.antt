-- ===== src/Discovery/Scan.antt =====
-- watchpost/discovery.py: `Discoverer.__init__` and `scan_host`, the order of the probes of one host.
-- Probes that are gathered write to different parts of the finding; they stand here in their order.
pub mod Asked
pub mod Allowed
pub mod Apart
use ip_montior.Base.{
  ℕ, String, Bool, true, false, ◌&&◌, ◌||◌, not, if◌then◌else◌, List, [], ◌∷◌, ◌++◌, Option, none,
  some, ◌==◌, any, map, filter, sort_by, lookup, is_some,
}
use ip_montior.Config.Credentials.{Credential}
use ip_montior.Config.Types.{Config, DiscoverySettings}
use ip_montior.Discovery.Finding.{HostFinding, filled, there}

pub data Probe : Type 0 where
  ping ptr snmp winrm ssh proxmox homeassistant technitium ssh_banner : Probe
  tcp is_vsphere vsphere unifi truenas mqtt web : ℕ → Probe

pub data CredentialKind : Type 0 where
  for_snmp for_winrm for_mqtt for_ssh for_truenas for_proxmox for_vsphere for_homeassistant
        for_unifi for_technitium for_directory :
      CredentialKind

-- `c.type`; the two of SNMP are one kind here.
abbrev pub kind_of : Credential → CredentialKind
kind_of (Credential.snmpv2c c) = for_snmp
kind_of (Credential.snmpv3 c) = for_snmp
kind_of (Credential.winrm c) = for_winrm
kind_of (Credential.mqtt c) = for_mqtt
kind_of (Credential.ssh c) = for_ssh
kind_of (Credential.ldap c) = for_directory
kind_of (Credential.truenas c) = for_truenas
kind_of (Credential.proxmox c) = for_proxmox
kind_of (Credential.vsphere c) = for_vsphere
kind_of (Credential.homeassistant c) = for_homeassistant
kind_of (Credential.unifi c) = for_unifi
kind_of (Credential.technitium c) = for_technitium

abbrev number_of : CredentialKind → ℕ
number_of for_snmp = 0
number_of for_winrm = 1
number_of for_mqtt = 2
number_of for_ssh = 3
number_of for_truenas = 4
number_of for_proxmox = 5
number_of for_vsphere = 6
number_of for_homeassistant = 7
number_of for_unifi = 8
number_of for_technitium = 9
number_of for_directory = 10

-- `[(n, self.config.credentials[n]) for n in self.s.credentials]`; `none` is a KeyError.
unfoldable pub named_credentials : Config → List String → Option (List (String × Credential))
unfolding lookup
named_credentials c [] = some []
named_credentials c (n ∷ ns) = elim (lookup n c.credentials) [
  | none ↦ none
  | some cred ↦ elim (named_credentials c ns) [ none ↦ none | some rest ↦ some ((n, cred) ∷ rest) ]
]

-- `self.snmp_creds` and the lists that follow it
abbrev pub Offers : Type 0
Offers = CredentialKind → List String

unfoldable pub of_kind : List (String × Credential) → Offers
of_kind creds kind = map (λ x. x.0) (filter (λ x. number_of (kind_of x.1) == number_of kind) creds)

-- The finding so far, and the probes made, in their order
pub record Trip : Type 0 where
  pub finding : HostFinding
  pub made : List Probe

abbrev pub has_port : ℕ → List ℕ → Bool
has_port port = any (λ p. p == port)

-- `set(ports)`
unfoldable pub unique : List ℕ → List ℕ
unique [] = []
unique (p ∷ ps) = let rest = unique ps in if has_port p rest then rest else p ∷ rest

-- `ports.add(port)`, where there are credentials
abbrev pub add_if : List String → ℕ → List ℕ → List ℕ
add_if creds port ports =
    if filled creds && not (has_port port ports) then ports ++ port ∷ [] else ports

module _ (s : DiscoverySettings) (offers : Offers) where
  unfoldable pub ports_of : List ℕ
  unfolding unique
  ports_of = add_if (offers for_winrm) s.winrm_port (
      add_if (offers for_ssh) s.ssh_port (
        add_if (offers for_vsphere ++ offers for_truenas) s.https_api_port (
          add_if (offers for_proxmox) s.proxmox_port (
            add_if (offers for_unifi) s.https_api_port (
              add_if (offers for_technitium) s.technitium_port
                (add_if (offers for_homeassistant) s.homeassistant_port (unique s.tcp_ports)))))))

  -- What is asked of a port when all credentials have been tried; `none` is nothing.
  unfoldable pub last_probe : HostFinding → ℕ → List Probe
  last_probe f port =
      if (port == 22) && not (there f.ssh)
      then Probe.ssh_banner ∷ []
      else if has_port port s.mqtt_ports
      then Probe.mqtt port ∷ []
      else if not ((port == 3389) || (port == s.winrm_port))
          && not ((port == s.proxmox_port) && there f.proxmox)
          && not ((port == s.homeassistant_port) && there f.homeassistant)
          && not ((port == s.technitium_port) && there f.technitium)
      then Probe.web port ∷ []
      else []

  unfoldable pub last_probes : HostFinding → List ℕ → List Probe
  unfolding last_probe
  last_probes f [] = []
  last_probes f (port ∷ ports) = last_probe f port ++ last_probes f ports

  -- `answer` is what a probe does to the finding, and what it returns.
  module _ (answer : Probe → HostFinding → HostFinding × Bool) where
    unfoldable pub make : Probe → Trip → Trip
    make p t = record { finding = (answer p t.finding).0; made = t.made ++ p ∷ [] }

    unfoldable pub make_all : List Probe → Trip → Trip
    unfolding make
    make_all [] t = t
    make_all (p ∷ ps) t = make_all ps (make p t)

    abbrev pub make_if : Bool → Probe → Trip → Trip
    make_if test p t = if test then make p t else t

    -- The `gather` of the sweep, and the sort
    unfoldable pub sweep : Trip → Trip
    unfolding make_all ports_of
    sweep t =
        let after = make_all (Probe.ping ∷ Probe.ptr ∷ map Probe.tcp ports_of) t in
        record after {
          finding = record after.finding { open_ports = sort_by (λ p. p) after.finding.open_ports };
        }

    -- `if port in f.open_ports and creds`
    unfoldable pub try_on : ℕ → CredentialKind → Probe → Trip → Trip
    unfolding make
    try_on port kind p t = make_if (has_port port t.finding.open_ports && filled (offers kind)) p t

    -- Where the port speaks HTTPS: what vSphere, UniFi or TrueNAS are told.
    unfoldable pub if_truenas : ℕ → Trip → Trip
    unfolding make
    if_truenas api t = make_if (filled (offers for_truenas)) (Probe.truenas api) t

    unfoldable pub if_unifi : ℕ → Trip → Trip
    unfolding make if_truenas
    if_unifi api t =
        if filled (offers for_unifi)
        then (let next = make (Probe.unifi api) t in
            if (answer (Probe.unifi api) t.finding).1 then next else if_truenas api next)
        else if_truenas api t

    unfoldable pub try_api : ℕ → Trip → Trip
    unfolding make if_unifi
    try_api api t =
        if has_port api t.finding.open_ports
          && (filled (offers for_vsphere)
              || filled (offers for_truenas)
              || filled (offers for_unifi))
        then (let next = make (Probe.is_vsphere api) t in
            if (answer (Probe.is_vsphere api) t.finding).1
            then make_if (filled (offers for_vsphere)) (Probe.vsphere api) next
            else if_unifi api next)
        else t

    -- The probes with credentials, in their order
    unfoldable pub try_credentials : Trip → Trip
    unfolding make try_on
    try_credentials t = try_on s.technitium_port for_technitium Probe.technitium (
        try_on s.homeassistant_port for_homeassistant Probe.homeassistant (
          try_on s.proxmox_port for_proxmox Probe.proxmox (
            try_on s.ssh_port for_ssh Probe.ssh
              (try_on s.winrm_port for_winrm Probe.winrm (make Probe.snmp t)))))

    unfoldable pub scan_host : HostFinding → Trip
    unfolding sweep try_credentials try_api last_probes make_all
    scan_host f =
        let known =
          try_api s.https_api_port (try_credentials (sweep (record { finding = f; made = [] }))) in
        make_all (last_probes known.finding known.finding.open_ports) known
