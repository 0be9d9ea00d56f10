-- ===== src/Discovery/Render.antt =====
-- watchpost/discovery.py: `render`, which proposals stay and under which names. The text around them
-- is not modelled.
pub mod Names
pub mod Laws
pub mod Total
pub mod Dropped
use ip_montior.Base.{
  any, Try, done, raised, ℕ, zero, suc, ◌+◌, String, Bool, true, false, ◌&&◌, not, if◌then◌else◌,
  List, [], ◌∷◌, ◌++◌, Option, none, some, ◌==◌, map, length, contains, lookup, insert, str_eq,
  ◌<>◌, truthy,
}
use ip_montior.Config.Kinds.{
  Kind, SnmpMode, WinRmMode, LinuxMode, DockerMode, TrueNasMode, ProxmoxMode, VSphereMode,
  HomeAssistantMode, UniFiNetworkMode, UniFiProtectMode, TechnitiumMode,
}
use ip_montior.Config.Types.{Monitor, Config}
use ip_montior.Config.Slug.{slug}
use ip_montior.Alerts.{type_name}
use ip_montior.Discovery.Finding.{HostFinding}
use ip_montior.Discovery.Proposals.Services.{propose}

-- What `_key` looks at, of a monitor that validates.
pub record Key : Type 0 where
  pub type : String
  pub target : Option String
  pub port : Option ℕ
  pub mode : Option String
  pub interface : Option String
  pub service : Option String
  pub disk : Option String
  pub topic : Option String

snmp_mode : SnmpMode → String
snmp_mode SnmpMode.oid = "oid"
snmp_mode SnmpMode.uptime = "uptime"
snmp_mode SnmpMode.interface = "interface"
snmp_mode SnmpMode.cpu = "cpu"
snmp_mode SnmpMode.memory = "memory"

winrm_mode : WinRmMode → String
winrm_mode WinRmMode.service = "service"
winrm_mode WinRmMode.cpu = "cpu"
winrm_mode WinRmMode.memory = "memory"
winrm_mode WinRmMode.disk = "disk"
winrm_mode WinRmMode.powershell = "powershell"

linux_mode : LinuxMode → String
linux_mode LinuxMode.cpu = "cpu"
linux_mode LinuxMode.memory = "memory"
linux_mode LinuxMode.disk = "disk"
linux_mode LinuxMode.load = "load"
linux_mode LinuxMode.uptime = "uptime"
linux_mode LinuxMode.service = "service"
linux_mode LinuxMode.command = "command"

docker_mode : DockerMode → String
docker_mode DockerMode.container = "container"
docker_mode DockerMode.summary = "summary"

truenas_mode : TrueNasMode → String
truenas_mode TrueNasMode.pools = "pools"
truenas_mode TrueNasMode.pool = "pool"
truenas_mode TrueNasMode.alerts = "alerts"

proxmox_mode : ProxmoxMode → String
proxmox_mode ProxmoxMode.node = "node"
proxmox_mode ProxmoxMode.node_cpu = "node_cpu"
proxmox_mode ProxmoxMode.node_memory = "node_memory"
proxmox_mode ProxmoxMode.guest = "guest"
proxmox_mode ProxmoxMode.storage = "storage"

vsphere_mode : VSphereMode → String
vsphere_mode VSphereMode.host = "host"
vsphere_mode VSphereMode.host_cpu = "host_cpu"
vsphere_mode VSphereMode.host_memory = "host_memory"
vsphere_mode VSphereMode.datastore = "datastore"
vsphere_mode VSphereMode.vm = "vm"

homeassistant_mode : HomeAssistantMode → String
homeassistant_mode HomeAssistantMode.api = "api"
homeassistant_mode HomeAssistantMode.entity = "entity"
homeassistant_mode HomeAssistantMode.unavailable = "unavailable"
homeassistant_mode HomeAssistantMode.updates = "updates"

unifi_mode : UniFiNetworkMode → String
unifi_mode UniFiNetworkMode.devices = "devices"
unifi_mode UniFiNetworkMode.device = "device"
unifi_mode UniFiNetworkMode.device_cpu = "device_cpu"
unifi_mode UniFiNetworkMode.device_memory = "device_memory"
unifi_mode UniFiNetworkMode.firmware = "firmware"

protect_mode : UniFiProtectMode → String
protect_mode UniFiProtectMode.info = "info"
protect_mode UniFiProtectMode.cameras = "cameras"
protect_mode UniFiProtectMode.camera = "camera"

technitium_mode : TechnitiumMode → String
technitium_mode TechnitiumMode.stats = "stats"
technitium_mode TechnitiumMode.update = "update"

-- A key without a mode or any of the four fields after it.
abbrev plain : Kind → String → Option ℕ → Key
plain kind target port = record {
  type = type_name kind;
  target = if truthy target then some target else none;
  port = port;
  mode = none;
  interface = none;
  service = none;
  disk = none;
  topic = none;
}

abbrev moded : Kind → String → ℕ → String → Key
moded kind target port mode = record (plain kind target (some port)) { mode = some mode }

-- `_key`
unfoldable pub key : Kind → Key
unfolding type_name snmp_mode winrm_mode linux_mode docker_mode truenas_mode proxmox_mode
    vsphere_mode homeassistant_mode unifi_mode protect_mode technitium_mode
key (Kind.ping m) = plain (Kind.ping m) m.host none
key (Kind.tcp m) = plain (Kind.tcp m) m.host (some m.port)
key (Kind.http m) = plain (Kind.http m) m.url none
key (Kind.dns m) = plain (Kind.dns m) "" none
key (Kind.tls_cert m) = plain (Kind.tls_cert m) m.host (some m.port)
key (Kind.snmp m) = record (moded (Kind.snmp m) m.host m.port (snmp_mode m.mode)) {
  interface = m.interface;
}
key (Kind.winrm m) =
    record (moded (Kind.winrm m) (m.target).host (m.target).port (winrm_mode m.mode)) {
      service = m.service;
      disk = some m.disk;
    }
key (Kind.wmi m) = plain (Kind.wmi m) (m.target).host (some (m.target).port)
key (Kind.mqtt m) = record (plain (Kind.mqtt m) m.host (some m.port)) { topic = m.topic }
key (Kind.linux m) =
    record (moded (Kind.linux m) (m.target).host (m.target).port (linux_mode m.mode)) {
      service = m.service;
    }
key (Kind.docker m) = moded (Kind.docker m) (m.target).host (m.target).port (docker_mode m.mode)
key (Kind.truenas m) = moded (Kind.truenas m) (m.target).host (m.target).port (truenas_mode m.mode)
key (Kind.proxmox m) = moded (Kind.proxmox m) (m.target).host (m.target).port (proxmox_mode m.mode)
key (Kind.vsphere m) = moded (Kind.vsphere m) (m.target).host (m.target).port (vsphere_mode m.mode)
key (Kind.homeassistant m) =
    moded (Kind.homeassistant m) (m.target).host (m.target).port (homeassistant_mode m.mode)
key (Kind.unifi_network m) =
    moded (Kind.unifi_network m) (m.target).host (m.target).port (unifi_mode m.mode)
key (Kind.unifi_protect m) =
    moded (Kind.unifi_protect m) (m.target).host (m.target).port (protect_mode m.mode)
key (Kind.technitium m) =
    moded (Kind.technitium m) (m.target).host (m.target).port (technitium_mode m.mode)

abbrev same_text : Option String → Option String → Bool
same_text none none = true
same_text (some a) (some b) = str_eq a b
same_text _ _ = false

abbrev same_port : Option ℕ → Option ℕ → Bool
same_port none none = true
same_port (some a) (some b) = a == b
same_port _ _ = false

abbrev pub same_key : Key → Key → Bool
same_key a b =
    str_eq a.type b.type
    && same_text a.target b.target
    && same_port a.port b.port
    && same_text a.mode b.mode
    && same_text a.interface b.interface
    && same_text a.service b.service
    && same_text a.disk b.disk
    && same_text a.topic b.topic

-- `existing.get(k)`; of monitors with one key the last one counts.
unfoldable pub existing : Key → List Monitor → Option String
unfolding key
existing k [] = none
existing k (m ∷ ms) = elim (existing k ms) [
  | some name ↦ some name
  | none ↦ if same_key (key m.kind) k then some m.name else none
]

-- The state of the inner loop.
pub record Sifted : Type 0 where
  pub keep : List Monitor
  pub renamed : List (String × String)
  pub taken : List String
  pub skipped : ℕ

module _ (digits : ℕ → String) (address : String) where
  abbrev pub with_address : String → String
  with_address name = name <> " (" <> address <> ")"

  -- The `while` loop, on fuel.
  unfoldable pub next_free : List String → String → ℕ → ℕ → String → Option String
  next_free taken name zero n current = none
  next_free taken name (suc fuel) n current =
      let later = next_free taken name fuel (suc n) (with_address name <> " " <> digits n) in
      if contains (slug current) taken then later else some current

  unfoldable pub free_name : List String → String → Option String
  unfolding next_free
  free_name taken name =
      if contains (slug name) taken
      then next_free taken name (suc (suc (length taken))) 2 (with_address name)
      else some name

  abbrev pub rename : String → Monitor → Monitor
  rename name m = record m { name = name; slug = slug name }

  -- The loop over the proposals of one host.
  unfoldable pub sift : List Monitor → List Monitor → Sifted → Option Sifted
  unfolding existing free_name
  sift configured [] s = some s
  sift configured (m ∷ ms) s = elim (existing (key m.kind) configured) [
    | some name ↦
        sift configured ms
          (record s { renamed = insert m.name name s.renamed; skipped = suc s.skipped })
    | none ↦ elim (free_name s.taken m.name) [
      | none ↦ none
      | some name ↦ sift configured ms (record s {
        keep = s.keep ++ rename name m ∷ [];
        renamed = insert m.name name s.renamed;
        taken = slug name ∷ s.taken;
      })
    ]
  ]

-- `renamed.get(d, d)`
abbrev pub now_called : List (String × String) → String → String
now_called renamed d = elim (lookup d renamed) [ none ↦ d | some name ↦ name ]

abbrev pub redirect : List (String × String) → Monitor → Monitor
redirect renamed m = record m { depends_on = map (now_called renamed) m.depends_on }

-- What `render` has after some hosts: the blocks, `taken` and the counts.
pub record Rendered : Type 0 where
  pub blocks : List (List Monitor)
  pub taken : List String
  pub proposed : ℕ
  pub skipped : ℕ

-- The loop over the hosts.
unfoldable pub render_hosts : (ℕ → String) → Config → List HostFinding → Rendered → Option Rendered
unfolding sift
render_hosts digits c [] r = some r
render_hosts digits c (f ∷ fs) r =
    elim (sift digits f.address c.monitors (propose digits f c.discovery)
      (record { keep = []; renamed = []; taken = r.taken; skipped = r.skipped })) [
        | none ↦ none
        | some s ↦ render_hosts digits c fs (record {
          blocks = r.blocks ++ map (redirect s.renamed) s.keep ∷ [];
          taken = s.taken;
          proposed = r.proposed + length s.keep;
          skipped = s.skipped;
        })
      ]

-- `render` when `_key` refuses no proposal
unfoldable pub render_valid : (ℕ → String) → Config → List HostFinding → Option Rendered
unfolding render_hosts
render_valid digits c fs = render_hosts digits c fs (record {
  blocks = [];
  taken = map (λ (m : Monitor). m.slug) c.monitors;
  proposed = 0;
  skipped = 0;
})

-- The ValidationError of `_key`, and the end of the fuel of `free_name`
pub data RenderError : Type 0 where
  invalid_proposal : RenderError
  no_free_name : RenderError

-- Whether `_MONITOR.validate_python` in `_key` refuses a proposal. `loads` is the library's answer: the
-- fields have patterns, which what a host answers can miss.
unfoldable pub refuses : (ℕ → String) → (Monitor → Bool) → Config → List HostFinding → Bool
refuses digits loads c =
    any (λ (f : HostFinding). any (λ m. not (loads m)) (propose digits f c.discovery))

-- `render`. The first proposal that is refused ends it; it has changed nothing by then but its own
-- variables, so the test of all proposals stands in front here.
unfoldable pub render :
    (ℕ → String) → (Monitor → Bool) → Config → List HostFinding → Try RenderError Rendered
unfolding refuses render_valid
render digits loads c fs =
    if refuses digits loads c fs
    then raised RenderError.invalid_proposal
    else elim (render_valid digits c fs) [
      | none ↦ raised RenderError.no_free_name
      | some r ↦ done r
    ]
