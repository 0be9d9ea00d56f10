-- ===== src/Discovery/Finding.antt =====
-- watchpost/discovery.py: `HostFinding`, what a scan found out about one host. Its dictionaries are
-- records with the keys that are read later; a list that may be missing is empty then.
use ip_montior.Base.{
  ℕ, String, Bool, true, false, ◌||◌, if◌then◌else◌, List, [], ◌∷◌, Option, none, some, ◌==◌,
  cut_first, truthy?, truthy,
}

pub record Link : Type 0 where
  pub index : String
  pub name : String
  pub speed_mbps : ℕ

pub record SnmpFinding : Type 0 where
  pub credential : String
  pub sys_name : Option String
  pub links_up : List Link
  pub has_cpu : Bool
  pub has_ram : Bool

pub record WinRmFinding : Type 0 where
  pub credential : String
  pub host : String
  pub computer : Option String
  pub disks : List String
  pub services : List String

-- What the probe script says of docker; `parse_linux_probe` writes the text of an error out.
pub data Docker : Type 0 where
  ok absent denied : Docker
  error : String → Docker

pub record Container : Type 0 where
  pub name : String
  pub image : String
  pub status : String

pub record SshFinding : Type 0 where
  pub credential : String
  pub fqdn : Option String
  pub mounts : List String
  pub units : List String
  pub docker : Docker
  pub containers : List Container

pub record TlsFinding : Type 0 where
  pub valid : Bool
  pub reason : String

pub record HttpFinding : Type 0 where
  pub scheme : String
  pub host : String
  pub status : ℕ

pub record MqttFinding : Type 0 where
  pub ok : Bool
  pub tls : Bool
  pub host : String
  pub credential : Option String

pub record Storage : Type 0 where
  pub storage : String
  pub node : String
  pub shared : Bool

-- `kind` is "VM" or "CT"; `vmid` as text.
pub record Guest : Type 0 where
  pub vmid : String
  pub name : Option String
  pub node : String
  pub kind : String

pub record ProxmoxFinding : Type 0 where
  pub credential : String
  pub host : String
  pub nodes : List String
  pub storages : List Storage
  pub guests : List Guest
  pub verify : Bool

pub record Vm : Type 0 where
  pub name : String
  pub host : Option String

pub record VSphereFinding : Type 0 where
  pub credential : String
  pub host : String
  pub port : ℕ
  pub hosts : List String
  pub datastores : List String
  pub vms : List Vm
  pub verify : Bool

-- What Home Assistant's and Technitium's findings have in common.
pub record WebFinding : Type 0 where
  pub credential : String
  pub host : String
  pub port : ℕ
  pub https : Bool
  pub verify : Bool

-- The API names every device and camera; the name may be empty.
pub record Device : Type 0 where
  pub name : String
  pub state : String
  pub site : String

pub record UniFiFinding : Type 0 where
  pub credential : String
  pub host : String
  pub port : ℕ
  pub verify : Bool
  pub sites : List String
  pub devices : List Device
  pub cameras : Option (List String)

pub record TrueNasFinding : Type 0 where
  pub credential : String
  pub host : String
  pub port : ℕ
  pub pools : List String
  pub verify : Bool

-- `is_ip` is what `ipaddress` says of the address.
pub record HostFinding : Type 0 where
  pub address : String
  pub is_ip : Bool
  pub ptr : Option String
  pub icmp : Bool
  pub open_ports : List ℕ
  pub snmp : Option SnmpFinding
  pub winrm : Option WinRmFinding
  pub tls : List (ℕ × TlsFinding)
  pub http : List (ℕ × HttpFinding)
  pub ssh_banner : Option String
  pub mqtt : List (ℕ × MqttFinding)
  pub ssh : Option SshFinding
  pub proxmox : Option ProxmoxFinding
  pub homeassistant : Option WebFinding
  pub unifi : Option UniFiFinding
  pub technitium : Option WebFinding
  pub vsphere : Option VSphereFinding
  pub truenas : Option TrueNasFinding

-- `bool(o)` of an optional record, and of a list
abbrev pub there {ℓ} : {A : Type ℓ} → Option A → Bool
there none = false
there (some _) = true

abbrev pub filled {ℓ} : {A : Type ℓ} → List A → Bool
filled [] = false
filled (_ ∷ _) = true

unfoldable pub responded : HostFinding → Bool
responded f = f.icmp || filled f.open_ports || there f.snmp

unfoldable pub dns_name : HostFinding → Option String
dns_name f = if f.is_ip then f.ptr else some f.address

-- `d.get(port)`
unfoldable pub at_port {ℓ} : {A : Type ℓ} → ℕ → List (ℕ × A) → Option A
at_port port [] = none
at_port port ((k, a) ∷ rest) = if k == port then some a else at_port port rest

abbrev pub or_address : Option String → String → String
or_address name address = elim name [ none ↦ address | some s ↦ if truthy s then s else address ]

unfoldable pub api_host : HostFinding → ℕ → String
unfolding dns_name at_port
api_host f port = elim (at_port port f.tls) [
  | none ↦ f.address
  | some tls ↦ if tls.valid then or_address (dns_name f) f.address else f.address
]

-- `text.split(".")[0]`
abbrev first_label : String → String
first_label s = elim (cut_first b'.' s) [ none ↦ s | some (left, _) ↦ left ]

-- The first candidate that is neither `None` nor empty.
unfoldable pub first_name : List (Option String) → Option String
first_name [] = none
first_name (c ∷ rest) = if truthy? c then c else first_name rest

abbrev only : List String → Option String
only (x ∷ []) = some x
only _ = none

abbrev of_some {ℓ κ} : {A : Type ℓ} {B : Type κ} → (A → Option B) → Option A → Option B
of_some f none = none
of_some f (some a) = f a

unfoldable pub label : HostFinding → String
unfolding first_name
label f =
    elim (first_name (
      of_some (λ (x : SnmpFinding). x.sys_name) f.snmp
      ∷ of_some (λ (x : WinRmFinding). x.computer) f.winrm
      ∷ of_some (λ (x : ProxmoxFinding). only x.nodes) f.proxmox
      ∷ of_some (λ (x : VSphereFinding). only x.hosts) f.vsphere
      ∷ of_some (λ (x : SshFinding). x.fqdn) f.ssh
      ∷ f.ptr
      ∷ (if f.is_ip then none else some f.address)
      ∷ [])) [ none ↦ f.address | some name ↦ first_label name ]
