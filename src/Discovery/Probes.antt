-- ===== src/Discovery/Probes.antt =====
-- watchpost/discovery.py: the probes that need no credential, and those of MQTT. What a host answers is a
-- record; the texts of the notes are not modelled.
pub mod Platforms
pub mod Answers
pub mod Laws
use ip_montior.Base.{
  ℕ, zero, suc, String, Bool, true, false, ◌&&◌, ◌||◌, not, if◌then◌else◌, List, [], ◌∷◌, ◌++◌,
  Option, none, some, ◌==◌, ◌<>◌, strip, lower,
}
use ip_montior.Net.{undotted}
use ip_montior.Discovery.Finding.{
  HostFinding, TlsFinding, HttpFinding, MqttFinding, dns_name, at_port, or_address,
}

-- How the handshake with validation ends
pub data Validation : Type 0 where
  validates : Validation
  untrusted : String → Validation
  broken : String → Validation

pub data PingReply : Type 0 where
  not_permitted : PingReply
  icmp_error : PingReply
  alive : Bool → PingReply

-- What the network says of one host
pub record HostNet : Type 0 where
  pub ping : PingReply
  pub listens : ℕ → Bool
  -- The name of the address; `none` is an exception
  pub ptr : Option String
  pub banner : Option String
  -- Whether the handshake without validation passes, and how the one for a name ends
  pub speaks_tls : ℕ → Bool
  pub handshake : ℕ → String → Validation
  -- The status of a GET, with validation or without
  pub status : String → Bool → Option ℕ
  -- Whether the MQTT check of a host, with a credential, passes
  pub mqtt_passes : String → ℕ → Option String → Bool → Bool
  -- The body of the version document of vSphere has the mark; its status
  pub sdk : ℕ → Option (ℕ × Bool)

-- `d[port] = a`
unfoldable pub put_port {ℓ} : {A : Type ℓ} → ℕ → A → List (ℕ × A) → List (ℕ × A)
put_port port a [] = (port, a) ∷ []
put_port port a ((k, b) ∷ rest) = if k == port then (k, a) ∷ rest else (k, b) ∷ put_port port a rest

-- `s[:n]`
unfoldable pub first_characters : ℕ → String → String
first_characters n String.[] = ""
first_characters zero (String.◌∷◌ c s) = ""
first_characters (suc n) (String.◌∷◌ c s) = String.◌∷◌ c (first_characters n s)

-- `_tls_probe`: `none` is a port without TLS.
unfoldable pub tls_probe : HostNet → ℕ → Option String → Option TlsFinding
tls_probe net port sni =
    if net.speaks_tls port
    then elim sni [
      | none ↦ some (record { valid = false; reason = "no DNS name to validate against" })
      | some name ↦ elim (net.handshake port name) [
        | Validation.validates ↦
            some (record { valid = true; reason = "chain and hostname validate" })
        | Validation.untrusted message ↦ some (record { valid = false; reason = message })
        | Validation.broken err ↦
            some (record { valid = false; reason = "validation handshake failed: " <> err })
      ]
    ]
    else none

module _ (digits : ℕ → String) (net : HostNet) where
  -- `_ping`; `denied` is `_icmp_denied`, which it may set for the hosts after it.
  unfoldable pub ping : Bool → HostFinding → HostFinding × Bool
  ping denied f = if denied then (f, denied) else elim net.ping [
    | PingReply.not_permitted ↦ (f, true)
    | PingReply.icmp_error ↦ (f, denied)
    | PingReply.alive is_alive ↦ (record f { icmp = is_alive }, denied)
  ]

  -- `_tcp`
  unfoldable pub tcp : ℕ → HostFinding → HostFinding
  tcp port f = if net.listens port then record f { open_ports = f.open_ports ++ port ∷ [] } else f

  -- `_ptr`
  unfoldable pub ptr : HostFinding → HostFinding
  unfolding undotted lower
  ptr f =
      if not f.is_ip
      then f
      else elim net.ptr [ none ↦ f | some name ↦ record f { ptr = some (lower (undotted name)) } ]

  -- `_ssh_banner`
  unfoldable pub ssh_banner : HostFinding → HostFinding
  unfolding first_characters strip
  ssh_banner f = elim net.banner [
    | none ↦ f
    | some line ↦ record f { ssh_banner = some (first_characters 80 (strip line)) }
  ]

  abbrev url : String → String → ℕ → String
  url scheme host port = scheme <> "://" <> host <> ":" <> digits port <> "/"

  unfoldable pub set_http : ℕ → String → String → Option ℕ → HostFinding → HostFinding
  unfolding put_port
  set_http port scheme host none f = f
  set_http port scheme host (some status) f = record f {
    http = put_port port (record { scheme = scheme; host = host; status = status }) f.http;
  }

  -- `sni`, where the certificate validated for it, and `sni or f.address`
  abbrev web_host : Bool → HostFinding → String
  web_host true f = elim (dns_name f) [ none ↦ f.address | some name ↦ name ]
  web_host false f = or_address (dns_name f) f.address

  -- `_web`
  unfoldable pub web : ℕ → HostFinding → HostFinding
  unfolding tls_probe set_http put_port dns_name
  web port f = elim (tls_probe net port (dns_name f)) [
    | some tls ↦
        let noted : HostFinding = record f { tls = put_port port tls f.tls } in
        set_http port "https" (web_host tls.valid f)
          (net.status (url "https" (web_host tls.valid f) port) tls.valid) noted
    | none ↦ set_http port "http" f.address (net.status (url "http" f.address port) false) f
  ]

  unfoldable pub set_mqtt : ℕ → MqttFinding → HostFinding → HostFinding
  unfolding put_port
  set_mqtt port m f = record f { mqtt = put_port port m f.mqtt }

  -- The loop over `attempts`, for a listener without TLS or one that validated; a host that failed has
  -- neither a host nor a credential.
  unfoldable pub mqtt_attempts :
      ℕ → Bool → String → List (Option String) → HostFinding → HostFinding
  unfolding set_mqtt
  mqtt_attempts port tls host [] f = f
  mqtt_attempts port tls host (cred ∷ creds) f =
      let failed =
        set_mqtt port (record { ok = false; tls = tls; host = ""; credential = none }) f in
      if net.mqtt_passes host port cred tls
      then set_mqtt port (record { ok = true; tls = tls; host = host; credential = cred }) f
      else mqtt_attempts port tls host creds failed

  -- `_mqtt`
  unfoldable pub mqtt : List (Option String) → ℕ → HostFinding → HostFinding
  unfolding tls_probe set_mqtt mqtt_attempts dns_name
  mqtt attempts port f = elim (tls_probe net port (dns_name f)) [
    | none ↦ mqtt_attempts port false f.address attempts f
    | some tls ↦
        if tls.valid
        then mqtt_attempts port true (web_host true f) attempts f
        else set_mqtt port (record { ok = false; tls = true; host = ""; credential = none }) f
  ]

  -- `_is_vsphere`
  unfoldable pub is_vsphere : ℕ → Bool
  is_vsphere port = elim (net.sdk port) [
    | none ↦ false
    | some (code, marked) ↦ (code == 200) && marked
  ]
