-- ===== src/Config/Types.antt =====
-- watchpost/config.py: monitors, alert targets, settings and the whole configuration.
use ip_montior.Base.{ℕ, String, Option, none, some, Bool, List, ℤ}
use ip_montior.Check.{Thresholds}
use ip_montior.State.{State}
use ip_montior.Config.Credentials.{Credential}
use ip_montior.Config.Kinds.{Kind}

-- `MonitorBase`, and in `kind` what the monitor's type adds. The slug is the property of the
-- same name, computed once. Negative limits act as 0 does, so limits are natural numbers;
-- durations are natural numbers of the clock's unit.
pub record Monitor : Type 0 where
  pub name : String
  pub slug : String
  pub group : String
  pub interval : Option ℕ
  pub timeout : Option ℕ
  pub failures_to_down : Option ℕ
  pub recoveries_to_up : Option ℕ
  pub thresholds : Option Thresholds
  pub alerts : Option (List String)
  pub enabled : Bool
  pub depends_on : List String
  pub critical : Bool
  pub forecast : Bool
  pub kind : Kind

pub record WebhookAlert : Type 0 where
  pub url : String
  pub headers : List (String × String)

pub record NtfyAlert : Type 0 where
  pub url : String
  pub token : Option String

pub record SmtpAlert : Type 0 where
  pub host : String
  pub port : ℕ
  pub starttls : Bool
  pub username : Option String
  pub password : Option String
  pub sender : String
  pub recipients : List String

pub record MqttAlert : Type 0 where
  pub host : String
  pub port : ℕ
  pub credential : Option String
  pub tls : Bool
  pub ca_bundle : Option String
  pub topic_prefix : String

pub data AlertKind : Type 0 where
  webhook : WebhookAlert → AlertKind
  ntfy : NtfyAlert → AlertKind
  smtp : SmtpAlert → AlertKind
  mqtt : MqttAlert → AlertKind

-- `AlertBase`; `notify_on` holds the states among "down", "warn" and "up".
pub record Alert : Type 0 where
  pub name : String
  pub notify_on : List State
  pub kind : AlertKind

pub record ServerConfig : Type 0 where
  pub listen : String
  pub port : ℕ
  pub db_path : String
  pub retention_days : ℕ
  pub basic_auth_user : Option String
  pub basic_auth_password : Option String
  pub max_concurrency : ℕ

pub record ForecastSettings : Type 0 where
  pub lookback_days : ℤ
  pub min_points : ℕ
  pub min_span_hours : ℤ
  pub horizon_days : ℤ
  pub min_r2 : ℤ

pub record DirectorySettings : Type 0 where
  pub server : String
  pub port : ℕ
  pub credential : String
  pub base_dn : String
  pub ca_bundle : Option String
  pub stale_days : ℕ
  pub os_include : List String
  pub include_disabled : Bool

pub record DiscoverySettings : Type 0 where
  pub targets : List String
  pub exclude : List String
  pub credentials : List String
  pub max_hosts : ℕ
  pub concurrency : ℕ
  pub timeout : ℕ
  pub snmp_port : ℕ
  pub tcp_ports : List ℕ
  pub mqtt_ports : List ℕ
  pub winrm_port : ℕ
  pub ca_bundle : Option String
  pub winrm_require_valid_tls : Bool
  pub max_auth_failures : ℕ
  pub max_interfaces : ℕ
  pub directory : Option DirectorySettings
  pub ssh_known_hosts : String
  pub ssh_trust_on_first_use : Bool
  pub ssh_port : ℕ
  pub api_require_valid_tls : Bool
  pub proxmox_port : ℕ
  pub https_api_port : ℕ
  pub homeassistant_port : ℕ
  pub technitium_port : ℕ
  pub max_guests : ℕ
  pub docker_command : String
  pub max_containers : ℕ

pub record Defaults : Type 0 where
  pub interval : ℕ
  pub timeout : ℕ
  pub failures_to_down : ℕ
  pub recoveries_to_up : ℕ

pub record Config : Type 0 where
  pub server : ServerConfig
  pub defaults : Defaults
  pub forecast : ForecastSettings
  pub discovery : DiscoverySettings
  pub credentials : List (String × Credential)
  pub alerts : List Alert
  pub monitors : List Monitor

-- `Config.effective`, one function for the value of a field and its default
unfoldable pub effective : Option ℕ → ℕ → ℕ
effective none default = default
effective (some value) default = value
