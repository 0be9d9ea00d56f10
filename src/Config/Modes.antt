-- ===== src/Config/Modes.antt =====
-- watchpost/config.py: the `_mode_args` validators, and the credential that a monitor names.
use ip_montior.Base.{String, Option, none, some, not, truthy?, Try, raise_if, done}
use ip_montior.Config.Kinds.{
  Kind, SnmpMonitor, SnmpMode, WinRmMonitor, WinRmMode, LinuxMonitor, LinuxMode, DockerMonitor,
  DockerMode, TrueNasMonitor, TrueNasMode, ProxmoxMonitor, ProxmoxMode, VSphereMonitor, VSphereMode,
  HomeAssistantMonitor, HomeAssistantMode, UniFiNetworkMonitor, UniFiNetworkMode,
  UniFiProtectMonitor, UniFiProtectMode,
}

-- `mode X requires Y`, by the name of the missing argument
pub data ModeError : Type 0 where
  requires : String → ModeError

abbrev demand : Option String → String → Try ModeError (Unit {0})
demand o name = raise_if (not (truthy? o)) (requires name)

snmp_args : SnmpMonitor → SnmpMode → Try ModeError (Unit {0})
snmp_args m SnmpMode.oid = demand m.oid "oid"
snmp_args m SnmpMode.interface = demand m.interface "interface"
snmp_args m _ = done tt

winrm_args : WinRmMonitor → WinRmMode → Try ModeError (Unit {0})
winrm_args m WinRmMode.service = demand m.service "service"
winrm_args m WinRmMode.powershell = demand m.script "script"
winrm_args m _ = done tt

linux_args : LinuxMonitor → LinuxMode → Try ModeError (Unit {0})
linux_args m LinuxMode.service = demand m.service "service"
linux_args m LinuxMode.command = demand m.command "command"
linux_args m _ = done tt

docker_args : DockerMonitor → DockerMode → Try ModeError (Unit {0})
docker_args m DockerMode.container = demand m.container "container"
docker_args m DockerMode.summary = done tt

truenas_args : TrueNasMonitor → TrueNasMode → Try ModeError (Unit {0})
truenas_args m TrueNasMode.pool = demand m.pool "pool"
truenas_args m _ = done tt

-- `self.mode.startswith("node")` holds of the three node modes.
proxmox_args : ProxmoxMonitor → ProxmoxMode → Try ModeError (Unit {0})
proxmox_args m ProxmoxMode.guest = demand m.guest "guest"
proxmox_args m ProxmoxMode.storage = demand m.storage "storage"
proxmox_args m _ = demand m.node "node"

vsphere_args : VSphereMonitor → VSphereMode → Try ModeError (Unit {0})
vsphere_args m VSphereMode.datastore = demand m.entity "entity"
vsphere_args m VSphereMode.vm = demand m.entity "entity"
vsphere_args m _ = done tt

homeassistant_args : HomeAssistantMonitor → HomeAssistantMode → Try ModeError (Unit {0})
homeassistant_args m HomeAssistantMode.entity = demand m.entity_id "entity_id"
homeassistant_args m _ = done tt

-- The modes that start with "device", but for "devices".
unifi_network_args : UniFiNetworkMonitor → UniFiNetworkMode → Try ModeError (Unit {0})
unifi_network_args m UniFiNetworkMode.devices = done tt
unifi_network_args m UniFiNetworkMode.firmware = done tt
unifi_network_args m _ = demand m.device "device"

unifi_protect_args : UniFiProtectMonitor → UniFiProtectMode → Try ModeError (Unit {0})
unifi_protect_args m UniFiProtectMode.camera = demand m.camera "camera"
unifi_protect_args m _ = done tt

-- The validator that a monitor's type has, if it has one.
unfoldable pub mode_args : Kind → Try ModeError (Unit {0})
unfolding snmp_args winrm_args linux_args docker_args truenas_args proxmox_args vsphere_args
    homeassistant_args unifi_network_args unifi_protect_args
mode_args (Kind.snmp m) = snmp_args m m.mode
mode_args (Kind.winrm m) = winrm_args m m.mode
mode_args (Kind.linux m) = linux_args m m.mode
mode_args (Kind.docker m) = docker_args m m.mode
mode_args (Kind.truenas m) = truenas_args m m.mode
mode_args (Kind.proxmox m) = proxmox_args m m.mode
mode_args (Kind.vsphere m) = vsphere_args m m.mode
mode_args (Kind.homeassistant m) = homeassistant_args m m.mode
mode_args (Kind.unifi_network m) = unifi_network_args m m.mode
mode_args (Kind.unifi_protect m) = unifi_protect_args m m.mode
mode_args _ = done tt

-- `getattr(mon, "credential", None)`
unfoldable pub credential_of : Kind → Option String
credential_of (Kind.snmp m) = some m.credential
credential_of (Kind.winrm m) = some m.target.credential
credential_of (Kind.wmi m) = some m.target.credential
credential_of (Kind.mqtt m) = m.credential
credential_of (Kind.linux m) = some m.target.credential
credential_of (Kind.docker m) = some m.target.credential
credential_of (Kind.truenas m) = some m.target.credential
credential_of (Kind.proxmox m) = some m.target.credential
credential_of (Kind.vsphere m) = some m.target.credential
credential_of (Kind.homeassistant m) = some m.target.credential
credential_of (Kind.unifi_network m) = some m.target.credential
credential_of (Kind.unifi_protect m) = some m.target.credential
credential_of (Kind.technitium m) = some m.target.credential
credential_of _ = none
