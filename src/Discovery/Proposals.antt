-- ===== src/Discovery/Proposals.antt =====
-- watchpost/discovery.py: `propose`. A proposed dictionary is the monitor that `_MONITOR` reads in it,
-- where a key that is left out has the default of its type.
pub mod Platforms
pub mod Services
use ip_montior.Base.{
  ℕ, String, Bool, true, false, ◌&&◌, ◌||◌, not, if◌then◌else◌, List, [], ◌∷◌, ◌++◌, Option, none,
  some, ◌==◌, map, filter, take, length, leb, any, is_some, str_eq, pos, sort_by, ◌<>◌, has_char,
  truthy, truthy?, contains,
}
use text.Mathlib.Text.{starts_with}
use ip_montior.Check.{Thresholds, Direction}
use ip_montior.Config.Kinds.{
  Kind, HttpMethod, SnmpMode, WinRmMode, LinuxMode, DockerMode, SshTarget, WsManTarget,
}
use ip_montior.Config.Types.{Monitor, DiscoverySettings}
use ip_montior.Config.Slug.{slug}
use ip_montior.Discovery.Finding.{
  HostFinding, SnmpFinding, WinRmFinding, SshFinding, Docker, Container, Link, TlsFinding,
  HttpFinding, label, dns_name, at_port, there, filled, or_address,
}

-- A dictionary with a name, a group and what the type asks for.
unfoldable pub draft : String → String → Kind → Monitor
draft name group kind = record {
  name = name;
  slug = slug name;
  group = group;
  interval = none;
  timeout = none;
  failures_to_down = none;
  recoveries_to_up = none;
  thresholds = none;
  alerts = none;
  enabled = true;
  depends_on = [];
  critical = true;
  forecast = false;
  kind = kind;
}

-- `thresholds={"direction": "above", "warn": ..., "crit": ...}`, with `forecast=True` or without.
abbrev pub above : ℕ → ℕ → Option Thresholds
above warn crit =
    some (record { direction = Direction.above; warn = some (pos warn); crit = some (pos crit) })

abbrev pub graded : ℕ → ℕ → Monitor → Monitor
graded warn crit m = record m { thresholds = above warn crit }

abbrev pub forecasting : ℕ → ℕ → Monitor → Monitor
forecasting warn crit m = record m { thresholds = above warn crit; forecast = true }

-- The choice of `group`.
unfoldable pub group_of : HostFinding → String
group_of f = if there f.winrm then "windows" else if there f.ssh then "linux" else elim f.snmp [
  | some sn ↦ if leb 8 (length sn.links_up) then "network" else "servers"
  | none ↦ if filled f.http then "apps" else "discovered"
]

-- `add`, and `plat` with a group of its own.
abbrev pub named : String → String → String
named base suffix = base <> " " <> suffix

-- `{"ca_bundle": s.ca_bundle} if s.ca_bundle else {}`
abbrev pub ca : DiscoverySettings → Option String
ca s = if truthy? s.ca_bundle then s.ca_bundle else none

-- `digits` is `str` of a whole number.
module _ (digits : ℕ → String) (f : HostFinding) (s : DiscoverySettings) where
  unfoldable pub add : String → Kind → Monitor
  unfolding draft group_of label
  add suffix kind = draft (named (label f) suffix) (group_of f) kind

  unfoldable pub plat : String → String → Kind → Monitor
  unfolding draft label
  plat group suffix kind = draft (named (label f) suffix) group kind

  unfoldable pub ping_part : List Monitor
  unfolding add
  ping_part =
      if f.icmp then add "ping" (Kind.ping (record { host = f.address; count = 3 })) ∷ [] else []

  abbrev tcp : ℕ → Option String → Kind
  tcp port expect =
      Kind.tcp (record { host = f.address; port = port; send = none; expect = expect })

  abbrev snmp : SnmpFinding → SnmpMode → Option String → Kind
  snmp sn mode interface = Kind.snmp (record {
    host = f.address;
    port = s.snmp_port;
    credential = sn.credential;
    mode = mode;
    oid = none;
    interface = interface;
  })

  unfoldable pub snmp_part : SnmpFinding → List Monitor
  unfolding add
  snmp_part sn =
      add "uptime" (snmp sn SnmpMode.uptime none)
        ∷ (if sn.has_cpu then graded 85 97 (add "CPU" (snmp sn SnmpMode.cpu none)) ∷ [] else [])
      ++ (if sn.has_ram
          then forecasting 90 97 (add "memory" (snmp sn SnmpMode.memory none)) ∷ []
          else [])
      ++ map
          (λ (link : Link).
            forecasting 70 90 (add link.name (snmp sn SnmpMode.interface (some link.name))))
          (take s.max_interfaces sn.links_up)

  abbrev winrm : WinRmFinding → WinRmMode → Option String → String → Kind
  winrm w mode service disk = Kind.winrm (record {
    target = record {
      host = w.host;
      credential = w.credential;
      port = s.winrm_port;
      https = true;
      verify_tls = true;
      ca_bundle = ca s;
    };
    mode = mode;
    service = service;
    disk = disk;
    script = none;
  })

  unfoldable pub winrm_part : WinRmFinding → List Monitor
  unfolding add
  winrm_part w =
      graded 85 97 (add "CPU" (winrm w WinRmMode.cpu none "C:"))
        ∷ forecasting 90 97 (add "memory" (winrm w WinRmMode.memory none "C:"))
        ∷ map (λ disk. forecasting 85 95 (add (disk <> " disk") (winrm w WinRmMode.disk none disk)))
            w.disks
      ++ map (λ svc. add svc (winrm w WinRmMode.service (some svc) "C:")) w.services

  abbrev ssh_target : SshFinding → SshTarget
  ssh_target sh = record {
    host = f.address;
    port = s.ssh_port;
    credential = sh.credential;
    known_hosts = s.ssh_known_hosts;
  }

  abbrev linux : SshFinding → LinuxMode → String → Option String → Kind
  linux sh mode mount service = Kind.linux (record {
    target = ssh_target sh;
    mode = mode;
    mount = mount;
    service = service;
    command = none;
  })

  abbrev docker : SshFinding → DockerMode → Option String → Kind
  docker sh mode container = Kind.docker (record {
    target = ssh_target sh;
    mode = mode;
    container = container;
    docker_command = s.docker_command;
  })

  -- `not c["name"] or "," in c["name"]`, negated
  abbrev pub usable_name : Container → Bool
  usable_name c = truthy c.name && not (has_char b',' c.name)

  unfoldable pub docker_part : SshFinding → List Monitor
  unfolding plat
  docker_part sh = elim sh.docker [
    | Docker.ok ↦
        plat "docker" "containers" (docker sh DockerMode.summary none)
        ∷ map
            (λ (c : Container). plat "docker" c.name (docker sh DockerMode.container (some c.name)))
            (filter usable_name (take s.max_containers sh.containers))
    | _ ↦ []
  ]

  unfoldable pub linux_part : SshFinding → List Monitor
  unfolding add docker_part
  linux_part sh =
      graded 85 97 (add "CPU" (linux sh LinuxMode.cpu "/" none))
        ∷ forecasting 90 97 (add "memory" (linux sh LinuxMode.memory "/" none))
        ∷ add "uptime" (linux sh LinuxMode.uptime "/" none)
        ∷ map
            (λ mount.
              forecasting 85 95 (add ("disk " <> mount) (linux sh LinuxMode.disk mount none)))
            sh.mounts
      ++ map (λ unit. add unit (linux sh LinuxMode.service "/" (some unit))) sh.units
      ++ docker_part sh

  abbrev is_open : ℕ → Bool
  is_open port = any (λ p. p == port) f.open_ports

  abbrev is_ssh2 : Option String → Bool
  is_ssh2 none = false
  is_ssh2 (some banner) = starts_with banner "SSH-2.0"

  -- The `if f.ssh ... elif ... elif ...`, and RDP.
  unfoldable pub ssh_part : List Monitor
  unfolding add linux_part
  ssh_part =
      elim f.ssh [
        | some sh ↦ linux_part sh
        | none ↦
            if is_ssh2 f.ssh_banner
            then add "SSH" (tcp 22 (some "SSH-2.0")) ∷ []
            else if is_open 22
            then add "port 22" (tcp 22 none) ∷ []
            else []
      ]
      ++ (if is_open 3389 then add "RDP" (tcp 3389 none) ∷ [] else [])

  -- `api_ports`, as a test
  unfoldable pub api_port : ℕ → Bool
  api_port port =
      there f.proxmox && s.proxmox_port == port
      || (there f.vsphere || there f.truenas || there f.unifi) && s.https_api_port == port
      || there f.homeassistant && s.homeassistant_port == port
      || there f.technitium && s.technitium_port == port

  -- `verify_tls` and `ca_bundle` of an http entry, by what is known of TLS on the port.
  abbrev verified : Option TlsFinding → Bool
  verified none = true
  verified (some tls) = tls.valid

  abbrev web_ca : Option TlsFinding → Option String
  web_ca none = none
  web_ca (some tls) = if tls.valid then ca s else none

  abbrev url_of : ℕ → HttpFinding → String
  url_of port h = h.scheme <> "://" <> h.host <> ":" <> digits port <> "/"

  unfoldable pub web_entry : ℕ → HttpFinding → Monitor
  unfolding add at_port
  web_entry port h =
      let tls = at_port port f.tls in
      add ("web " <> digits port) (
        Kind.http (record {
          url = url_of port h;
          method = HttpMethod.get;
          expect_status = h.status ∷ [];
          expect_text = none;
          verify_tls = verified tls;
          ca_bundle = web_ca tls;
          follow_redirects = false;
          headers = [];
        }))

  unfoldable pub web_part : List Monitor
  unfolding api_port web_entry
  web_part =
      map (λ (e : ℕ × HttpFinding). web_entry e.0 e.1)
        (filter (λ (e : ℕ × HttpFinding). not (api_port e.0))
          (sort_by (λ (e : ℕ × HttpFinding). e.0) f.http))

  unfoldable pub cert_entry : ℕ → TlsFinding → Monitor
  unfolding add dns_name
  cert_entry port tls =
      record (add ("cert " <> digits port) (
        Kind.tls_cert (record {
          host = or_address (dns_name f) f.address;
          port = port;
          server_name = none;
          verify = tls.valid;
          ca_bundle = if tls.valid then ca s else none;
        }))) { interval = some 3600 }

  unfoldable pub cert_part : List Monitor
  unfolding cert_entry at_port
  cert_part =
      map (λ (e : ℕ × TlsFinding). cert_entry e.0 e.1)
        (filter (λ (e : ℕ × TlsFinding). not (there (at_port e.0 f.mqtt) || e.0 == s.winrm_port))
          (sort_by (λ (e : ℕ × TlsFinding). e.0) f.tls))

  -- What is proposed up to the fallback, and the fallback itself.
  unfoldable pub host_part : List Monitor
  unfolding ping_part snmp_part winrm_part ssh_part web_part cert_part
  host_part =
      ping_part
      ++ elim f.snmp [ none ↦ [] | some sn ↦ snmp_part sn ]
      ++ elim f.winrm [ none ↦ [] | some w ↦ winrm_part w ]
      ++ ssh_part
      ++ web_part
      ++ cert_part

  unfoldable pub fallback : List Monitor → List Monitor
  unfolding add
  fallback ms =
      if not f.icmp && not (filled ms)
      then map (λ port. add ("port " <> digits port) (tcp port none)) (take 1 f.open_ports)
      else []
