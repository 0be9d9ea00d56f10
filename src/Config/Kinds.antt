-- ===== src/Config/Kinds.antt =====
-- watchpost/config.py: the eighteen monitor types with their own fields.
use ip_montior.Base.{ℕ, String, Option, Bool, List}

pub data HttpMethod : Type 0 where
  get head post : HttpMethod

pub data SnmpMode : Type 0 where
  oid uptime interface cpu memory : SnmpMode

pub data WinRmMode : Type 0 where
  service cpu memory disk powershell : WinRmMode

pub data Aggregate : Type 0 where
  first sum avg max min count : Aggregate

pub data LinuxMode : Type 0 where
  cpu memory disk load uptime service command : LinuxMode

pub data DockerMode : Type 0 where
  container summary : DockerMode

pub data TrueNasMode : Type 0 where
  pools pool alerts : TrueNasMode

pub data AlertLevel : Type 0 where
  info notice warning error critical : AlertLevel

pub data ProxmoxMode : Type 0 where
  node node_cpu node_memory guest storage : ProxmoxMode

pub data VSphereMode : Type 0 where
  host host_cpu host_memory datastore vm : VSphereMode

pub data HomeAssistantMode : Type 0 where
  api entity unavailable updates : HomeAssistantMode

pub data UniFiNetworkMode : Type 0 where
  devices device device_cpu device_memory firmware : UniFiNetworkMode

pub data UniFiProtectMode : Type 0 where
  info cameras camera : UniFiProtectMode

pub data TechnitiumMode : Type 0 where
  stats update : TechnitiumMode

pub data StatsRange : Type 0 where
  last_hour last_day : StatsRange

pub record PingMonitor : Type 0 where
  pub host : String
  pub count : ℕ

pub record TcpMonitor : Type 0 where
  pub host : String
  pub port : ℕ
  pub send : Option String
  pub expect : Option String

pub record HttpMonitor : Type 0 where
  pub url : String
  pub method : HttpMethod
  pub expect_status : List ℕ
  pub expect_text : Option String
  pub verify_tls : Bool
  pub ca_bundle : Option String
  pub follow_redirects : Bool
  pub headers : List (String × String)

pub record DnsMonitor : Type 0 where
  pub query : String
  pub dns_record : String
  pub nameserver : Option String
  pub expect : Option (List String)

pub record TlsCertMonitor : Type 0 where
  pub host : String
  pub port : ℕ
  pub server_name : Option String
  pub verify : Bool
  pub ca_bundle : Option String

pub record SnmpMonitor : Type 0 where
  pub host : String
  pub port : ℕ
  pub credential : String
  pub mode : SnmpMode
  pub oid : Option String
  pub interface : Option String

-- `_WsManTarget`
pub record WsManTarget : Type 0 where
  pub host : String
  pub credential : String
  pub port : ℕ
  pub https : Bool
  pub verify_tls : Bool
  pub ca_bundle : Option String

pub record WinRmMonitor : Type 0 where
  pub target : WsManTarget
  pub mode : WinRmMode
  pub service : Option String
  pub disk : String
  pub script : Option String

pub record WmiMonitor : Type 0 where
  pub target : WsManTarget
  pub namespace : String
  pub query : String
  pub property : String
  pub aggregate : Aggregate

pub record MqttMonitor : Type 0 where
  pub host : String
  pub port : ℕ
  pub credential : Option String
  pub tls : Bool
  pub ca_bundle : Option String
  pub topic : Option String
  pub expect : Option String
  pub numeric : Bool

-- `_SshTarget`
pub record SshTarget : Type 0 where
  pub host : String
  pub port : ℕ
  pub credential : String
  pub known_hosts : String

pub record LinuxMonitor : Type 0 where
  pub target : SshTarget
  pub mode : LinuxMode
  pub mount : String
  pub service : Option String
  pub command : Option String

pub record DockerMonitor : Type 0 where
  pub target : SshTarget
  pub mode : DockerMode
  pub container : Option String
  pub docker_command : String

-- `_ApiTarget`, with the port that each of its subclasses adds
pub record ApiTarget : Type 0 where
  pub host : String
  pub credential : String
  pub verify_tls : Bool
  pub ca_bundle : Option String
  pub port : ℕ

pub record TrueNasMonitor : Type 0 where
  pub target : ApiTarget
  pub mode : TrueNasMode
  pub pool : Option String
  pub min_alert_level : AlertLevel

pub record ProxmoxMonitor : Type 0 where
  pub target : ApiTarget
  pub mode : ProxmoxMode
  pub node : Option String
  pub guest : Option String
  pub storage : Option String

pub record VSphereMonitor : Type 0 where
  pub target : ApiTarget
  pub mode : VSphereMode
  pub entity : Option String

pub record HomeAssistantMonitor : Type 0 where
  pub target : ApiTarget
  pub https : Bool
  pub mode : HomeAssistantMode
  pub entity_id : Option String
  pub expect : Option (List String)
  pub domains : List String
  pub ignore : List String

pub record UniFiNetworkMonitor : Type 0 where
  pub target : ApiTarget
  pub base_path : String
  pub site : Option String
  pub mode : UniFiNetworkMode
  pub device : Option String
  pub ignore : List String

pub record UniFiProtectMonitor : Type 0 where
  pub target : ApiTarget
  pub base_path : String
  pub mode : UniFiProtectMode
  pub camera : Option String
  pub ignore : List String

pub record TechnitiumMonitor : Type 0 where
  pub target : ApiTarget
  pub https : Bool
  pub mode : TechnitiumMode
  pub range : StatsRange
  pub token_in_query : Bool

pub data Kind : Type 0 where
  homeassistant : HomeAssistantMonitor → Kind
  unifi_network : UniFiNetworkMonitor → Kind
  unifi_protect : UniFiProtectMonitor → Kind
  technitium : TechnitiumMonitor → Kind
  truenas : TrueNasMonitor → Kind
  proxmox : ProxmoxMonitor → Kind
  vsphere : VSphereMonitor → Kind
  linux : LinuxMonitor → Kind
  docker : DockerMonitor → Kind
  ping : PingMonitor → Kind
  tcp : TcpMonitor → Kind
  http : HttpMonitor → Kind
  dns : DnsMonitor → Kind
  tls_cert : TlsCertMonitor → Kind
  snmp : SnmpMonitor → Kind
  winrm : WinRmMonitor → Kind
  wmi : WmiMonitor → Kind
  mqtt : MqttMonitor → Kind
