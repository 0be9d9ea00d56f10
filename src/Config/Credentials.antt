-- ===== src/Config/Credentials.antt =====
-- watchpost/config.py: the credential types and their validators.
use ip_montior.Base.{String, Option, Bool, true, false, ◌&&◌, not, truthy?, Try, raise_if, done}

pub data SnmpLevel : Type 0 where
  auth_priv auth_no_priv : SnmpLevel

pub data Transport : Type 0 where
  ntlm certificate kerberos : Transport

pub record SnmpV2Credential : Type 0 where
  pub community : String

pub record SnmpV3Credential : Type 0 where
  pub username : String
  pub level : SnmpLevel
  pub auth_protocol : String
  pub auth_password : String
  pub priv_protocol : String
  pub priv_password : Option String

pub record WinRmCredential : Type 0 where
  pub transport : Transport
  pub username : Option String
  pub password : Option String
  pub cert_pem : Option String
  pub cert_key_pem : Option String
  pub principal : Option String
  pub keytab_path : Option String
  pub kerberos_hostname_override : Option String

pub record MqttCredential : Type 0 where
  pub username : String
  pub password : String

pub record SshCredential : Type 0 where
  pub username : String
  pub private_key : Option String
  pub passphrase : Option String
  pub password : Option String

pub record LdapCredential : Type 0 where
  pub bind_user : String
  pub password : String

pub record TrueNasCredential : Type 0 where
  pub username : String
  pub api_key : String

pub record ProxmoxCredential : Type 0 where
  pub token_id : String
  pub secret : String

pub record VSphereCredential : Type 0 where
  pub username : String
  pub password : String

pub record HomeAssistantCredential : Type 0 where
  pub token : String

pub record UniFiCredential : Type 0 where
  pub api_key : String

pub record TechnitiumCredential : Type 0 where
  pub token : String

pub data Credential : Type 0 where
  snmpv2c : SnmpV2Credential → Credential
  snmpv3 : SnmpV3Credential → Credential
  winrm : WinRmCredential → Credential
  mqtt : MqttCredential → Credential
  ssh : SshCredential → Credential
  ldap : LdapCredential → Credential
  truenas : TrueNasCredential → Credential
  proxmox : ProxmoxCredential → Credential
  vsphere : VSphereCredential → Credential
  homeassistant : HomeAssistantCredential → Credential
  unifi : UniFiCredential → Credential
  technitium : TechnitiumCredential → Credential

-- The messages that the validators raise.
pub data CredentialError : Type 0 where
  needs_priv_password : CredentialError
  needs_certificate_files : CredentialError
  needs_principal_and_keytab : CredentialError
  needs_username_and_password : Transport → CredentialError
  needs_key_or_password : CredentialError

abbrev is_auth_priv : SnmpLevel → Bool
is_auth_priv SnmpLevel.auth_priv = true
is_auth_priv SnmpLevel.auth_no_priv = false

-- `SnmpV3Credential._priv_needed`
unfoldable pub priv_needed : SnmpV3Credential → Try CredentialError (Unit {0})
priv_needed c = raise_if (is_auth_priv c.level && not (truthy? c.priv_password)) needs_priv_password

winrm_shape : WinRmCredential → Transport → Try CredentialError (Unit {0})
winrm_shape c Transport.certificate =
    raise_if (not (truthy? c.cert_pem && truthy? c.cert_key_pem)) needs_certificate_files
winrm_shape c Transport.kerberos =
    raise_if (not (truthy? c.principal && truthy? c.keytab_path)) needs_principal_and_keytab
winrm_shape c Transport.ntlm =
    raise_if (not (truthy? c.username && truthy? c.password))
      (needs_username_and_password Transport.ntlm)

-- `WinRmCredential._shape`
unfoldable pub shape : WinRmCredential → Try CredentialError (Unit {0})
unfolding winrm_shape
shape c = winrm_shape c c.transport

-- `SshCredential._one_method`
unfoldable pub one_method : SshCredential → Try CredentialError (Unit {0})
one_method c =
    raise_if (not (truthy? c.private_key) && not (truthy? c.password)) needs_key_or_password

-- The validator that the credential's type has, if it has one.
unfoldable pub validate_credential : Credential → Try CredentialError (Unit {0})
unfolding priv_needed shape one_method
validate_credential (snmpv3 c) = priv_needed c
validate_credential (winrm c) = shape c
validate_credential (ssh c) = one_method c
validate_credential _ = done tt
