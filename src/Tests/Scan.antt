-- ===== src/Tests/Scan.antt =====
-- A host that serves vSphere on its HTTPS port, and one that does not.
use ip_montior.Base.{ℕ, String, true, false, [], ◌∷◌, none, some, ◌==◌, any, All, ◌≡◌, ◌⊎◌, refl}
use ip_montior.Config.Types.{DiscoverySettings}
use ip_montior.Discovery.Scan.{Probe, Offers, scan_host, for_vsphere, for_truenas, for_ssh}
use ip_montior.Discovery.Scan.Asked.{allowed, logs_in_vsphere, logs_in_other}
use ip_montior.Discovery.Scan.Apart.{scan_host-apart}
use ip_montior.Discovery.Probes.{HostNet, PingReply, Validation}
use ip_montior.Discovery.Probes.Answers.{Replies, answers}
use ip_montior.Discovery.Probes.Laws.{answers-allowed}
use ip_montior.Tests.Sample.{lab}
use ip_montior.Tests.Proposals.{quiet}

abbrev digit : ℕ → String
digit n = "n"

abbrev zero_of : String → ℕ
zero_of s = 0

abbrev offered : Offers
offered for_vsphere = "esx" ∷ []
offered for_truenas = "nas" ∷ []
offered for_ssh = "root" ∷ []
offered _ = []

abbrev network : HostNet
network = record {
  ping = PingReply.alive true;
  listens = λ port. port == 443;
  ptr = some "esx.lab.example.";
  banner = none;
  speaks_tls = λ port. port == 443;
  handshake = λ port name. Validation.validates;
  status = λ url verify. some 200;
  mqtt_passes = λ host port cred tls. false;
  sdk = λ port. some (200, true);
}

abbrev esx : Replies
esx = record {
  net = network;
  icmp_denied = false;
  key_parsed = false;
  key_named = false;
  has_key = λ cred. true;
  snmp = λ cred. none;
  winrm = λ cred. none;
  ssh = λ cred. none;
  homeassistant = λ cred. none;
  technitium = λ cred. none;
  unifi = λ cred. none;
  proxmox = λ cred. none;
  vsphere = λ cred. some (record { hosts = "esx" ∷ []; stores = []; machines = [] });
  truenas = λ cred. some [];
}

abbrev settings : DiscoverySettings
settings = record lab.discovery { tcp_ports = 22 ∷ 443 ∷ []; ssh_port = 22; https_api_port = 443 }

probes_made :
    (scan_host settings offered (answers digit zero_of settings offered esx) quiet).made
    ≡ Probe.ping
      ∷ Probe.ptr
      ∷ Probe.tcp 22
      ∷ Probe.tcp 443
      ∷ Probe.snmp
      ∷ Probe.is_vsphere 443
      ∷ Probe.vsphere 443
      ∷ Probe.web 443
      ∷ []
unfolding scan_host answers
probes_made = refl

answers-allowed_example :
    All
      (λ p.
        allowed settings offered
          (scan_host settings offered
            (answers digit zero_of settings offered esx)
            quiet).finding.open_ports
          p
        ≡ true)
      (scan_host settings offered (answers digit zero_of settings offered esx) quiet).made
answers-allowed_example = answers-allowed digit zero_of settings offered esx quiet

scan_host-apart_example :
    (any logs_in_vsphere
        (scan_host settings offered (answers digit zero_of settings offered esx) quiet).made
      ≡ false)
    ⊎ (any logs_in_other
          (scan_host settings offered (answers digit zero_of settings offered esx) quiet).made
        ≡ false)
scan_host-apart_example =
    scan_host-apart settings offered (answers digit zero_of settings offered esx) quiet
