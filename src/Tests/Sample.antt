-- ===== src/Tests/Sample.antt =====
-- A switch, a server behind it, and a probe that stands alone.
use ip_montior.Base.{String, none, Bool, true, false, List, [], ◌∷◌, pos}
use ip_montior.Check.{Result, CheckResult}
use ip_montior.Config.Kinds.{Kind}
use ip_montior.Config.Types.{Monitor, Config}

abbrev pub ping_monitor : String → String → String → List String → Bool → Monitor
ping_monitor name slug group parents critical = record {
  name = name;
  slug = slug;
  group = group;
  interval = none;
  timeout = none;
  failures_to_down = none;
  recoveries_to_up = none;
  thresholds = none;
  alerts = none;
  enabled = true;
  depends_on = parents;
  critical = critical;
  forecast = false;
  kind = Kind.ping (record { host = "192.0.2.1"; count = 3 });
}

abbrev pub switch : Monitor
switch = ping_monitor "Switch" "switch" "net" [] true

abbrev pub server : Monitor
server = ping_monitor "Server" "server" "lab" ("Switch" ∷ []) true

abbrev pub probe : Monitor
probe = ping_monitor "Probe" "probe" "lab" [] false

abbrev pub with_monitors : List Monitor → Config
with_monitors ms = record {
  server = record {
    listen = "0.0.0.0";
    port = 8080;
    db_path = "/data/watchpost.db";
    retention_days = 30;
    basic_auth_user = none;
    basic_auth_password = none;
    max_concurrency = 32;
  };
  defaults = record { interval = 60; timeout = 5; failures_to_down = 1; recoveries_to_up = 1 };
  forecast = record {
    lookback_days = pos 7;
    min_points = 24;
    min_span_hours = pos 24;
    horizon_days = pos 90;
    min_r2 = pos 0;
  };
  discovery = record {
    targets = [];
    exclude = [];
    credentials = [];
    max_hosts = 4096;
    concurrency = 64;
    timeout = 2;
    snmp_port = 161;
    tcp_ports = [];
    mqtt_ports = [];
    winrm_port = 5986;
    ca_bundle = none;
    winrm_require_valid_tls = true;
    max_auth_failures = 3;
    max_interfaces = 16;
    directory = none;
    ssh_known_hosts = "/config/known_hosts";
    ssh_trust_on_first_use = true;
    ssh_port = 22;
    api_require_valid_tls = true;
    proxmox_port = 8006;
    https_api_port = 443;
    homeassistant_port = 8123;
    technitium_port = 5380;
    max_guests = 50;
    docker_command = "docker";
    max_containers = 25;
  };
  credentials = [];
  alerts = [];
  monitors = ms;
}

abbrev pub lab : Config
lab = with_monitors (switch ∷ server ∷ probe ∷ [])

abbrev pub answer : Result → CheckResult
answer r = record { result = r; message = "m"; value = none; unit = ""; latency_ms = none }
