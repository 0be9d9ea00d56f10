-- ===== src/Config/References.antt =====
-- watchpost/config.py: the validators of the whole configuration.
use ip_montior.Base.{
  String, Option, none, some, Bool, true, false, ◌&&◌, ◌||◌, not, List, [], ◌∷◌, truthy?, Try, done,
  raised, raise_if, ◌>>◌, lookup, contains, is_some, map,
}
use ip_montior.Config.Credentials.{Credential, CredentialError, validate_credential}
use ip_montior.Config.Kinds.{Kind}
use ip_montior.Config.Modes.{ModeError, mode_args, credential_of}
use ip_montior.Config.Types.{Monitor, Alert, AlertKind, DirectorySettings, ServerConfig, Config}
use ip_montior.Config.Graph.{DependencyError, check_dependencies}

-- The messages, by the names that they mention.
pub data ConfigError : Type 0 where
  credential_error : CredentialError → ConfigError
  mode_error : String → ModeError → ConfigError
  duplicate_name : String → ConfigError
  unknown_credential : String → String → ConfigError
  wrong_credential_type : String → String → ConfigError
  unknown_alert : String → String → ConfigError
  unknown_alert_credential : String → String → ConfigError
  dependency_error : DependencyError → ConfigError
  unknown_discovery_credential : String → ConfigError
  not_an_ldap_credential : String → ConfigError
  forecast_needs_thresholds : String → ConfigError
  basic_auth_incomplete : ConfigError

-- An error of a part is an error of the whole.
abbrev within : {E : Type 0} → (E → ConfigError) → Try E (Unit {0}) → Try ConfigError (Unit {0})
within wrap (done a) = done tt
within wrap (raised e) = raised (wrap e)

-- A loop whose body may raise.
unfoldable pub for_each {ℓ} :
    {A : Type ℓ} → (A → Try ConfigError (Unit {0})) → List A → Try ConfigError (Unit {0})
for_each check [] = done tt
for_each check (x ∷ xs) = check x >> for_each check xs

-- `_unique_names`
unfoldable pub unique_names : List String → List Monitor → Try ConfigError (Unit {0})
unique_names seen [] = done tt
unique_names seen (m ∷ ms) =
    raise_if (contains m.slug seen) (duplicate_name m.name) >> unique_names (m.slug ∷ seen) ms

-- `self.credentials[name].type in expected[mon.type]`
unfoldable pub accepts : Kind → Credential → Bool
accepts (Kind.snmp _) (Credential.snmpv2c _) = true
accepts (Kind.snmp _) (Credential.snmpv3 _) = true
accepts (Kind.winrm _) (Credential.winrm _) = true
accepts (Kind.wmi _) (Credential.winrm _) = true
accepts (Kind.mqtt _) (Credential.mqtt _) = true
accepts (Kind.linux _) (Credential.ssh _) = true
accepts (Kind.docker _) (Credential.ssh _) = true
accepts (Kind.truenas _) (Credential.truenas _) = true
accepts (Kind.proxmox _) (Credential.proxmox _) = true
accepts (Kind.vsphere _) (Credential.vsphere _) = true
accepts (Kind.homeassistant _) (Credential.homeassistant _) = true
accepts (Kind.unifi_network _) (Credential.unifi _) = true
accepts (Kind.unifi_protect _) (Credential.unifi _) = true
accepts (Kind.technitium _) (Credential.technitium _) = true
accepts _ _ = false

unfoldable pub check_credential : Config → Monitor → Option String → Try ConfigError (Unit {0})
unfolding accepts
check_credential c m none = done tt
check_credential c m (some name) = elim (lookup name c.credentials) [
  | none ↦ raised (unknown_credential m.name name)
  | some cred ↦ raise_if (not (accepts m.kind cred)) (wrong_credential_type m.name name)
]

-- `alert_names`
abbrev pub alert_names : Config → List String
alert_names c = map (λ (a : Alert). a.name) c.alerts

abbrev or_empty : Option (List String) → List String
or_empty none = []
or_empty (some l) = l

-- The body of the first loop of `_references`.
unfoldable pub check_monitor : Config → Monitor → Try ConfigError (Unit {0})
unfolding check_credential for_each
check_monitor c m =
    check_credential c m (credential_of m.kind)
    >> for_each (λ a. raise_if (not (contains a (alert_names c))) (unknown_alert m.name a))
        (or_empty m.alerts)

alert_credential : AlertKind → Option String
alert_credential (AlertKind.mqtt a) = a.credential
alert_credential _ = none

unfoldable pub check_alert : Config → Alert → Try ConfigError (Unit {0})
unfolding alert_credential
check_alert c a = elim (alert_credential a.kind) [
  | none ↦ done tt
  | some name ↦
      raise_if (not (is_some (lookup name c.credentials))) (unknown_alert_credential a.name name)
]

is_ldap : Option Credential → Bool
is_ldap (some (Credential.ldap _)) = true
is_ldap _ = false

unfoldable pub check_directory : Config → Option DirectorySettings → Try ConfigError (Unit {0})
unfolding is_ldap
check_directory c none = done tt
check_directory c (some d) =
    raise_if (not (is_ldap (lookup d.credential c.credentials)))
      (not_an_ldap_credential d.credential)

is_tls_cert : Kind → Bool
is_tls_cert (Kind.tls_cert _) = true
is_tls_cert _ = false

unfoldable pub check_forecast : Monitor → Try ConfigError (Unit {0})
unfolding is_tls_cert
check_forecast m =
    raise_if (m.forecast && not (is_some m.thresholds) && not (is_tls_cert m.kind))
      (forecast_needs_thresholds m.name)

-- `bool(user) != bool(password)`
unfoldable pub check_basic_auth : ServerConfig → Try ConfigError (Unit {0})
check_basic_auth s =
    raise_if
      (truthy? s.basic_auth_user && not (truthy? s.basic_auth_password)
        || not (truthy? s.basic_auth_user) && truthy? s.basic_auth_password)
      basic_auth_incomplete

unfoldable pub check_acyclic : Config → Try ConfigError (Unit {0})
check_acyclic c = elim (check_dependencies c) [
  | done _ ↦ done tt
  | raised e ↦ raised (dependency_error e)
]

-- Checks one after the other; the first that raises ends the sequence.
unfoldable pub in_order : List (Try ConfigError (Unit {0})) → Try ConfigError (Unit {0})
in_order [] = done tt
in_order (check ∷ checks) = check >> in_order checks

-- `_references`, in the order of the source.
unfoldable pub references : Config → Try ConfigError (Unit {0})
unfolding check_alert check_directory check_acyclic
references c = in_order (
    for_each (check_monitor c) c.monitors
    ∷ for_each (check_alert c) c.alerts
    ∷ check_acyclic c
    ∷ for_each
        (λ name.
          raise_if (not (is_some (lookup name c.credentials))) (unknown_discovery_credential name))
        c.discovery.credentials
    ∷ check_directory c c.discovery.directory
    ∷ for_each check_forecast c.monitors
    ∷ check_basic_auth c.server
    ∷ [])

-- `Config.model_validate`: the validators of the parts, then `_unique_names`, then `_references`.
unfoldable pub validate : Config → Try ConfigError (Unit {0})
validate c = in_order (
    for_each (λ (e : String × Credential). within credential_error (validate_credential e.1))
      c.credentials
    ∷ for_each (λ (m : Monitor). within (mode_error m.name) (mode_args m.kind)) c.monitors
    ∷ unique_names [] c.monitors
    ∷ references c
    ∷ [])
