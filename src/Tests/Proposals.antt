-- ===== src/Tests/Proposals.antt =====
-- Two hosts of one configured Linux machine's kind, and a hypervisor with two nodes.
use Prim.Native.String.{len}
use ip_montior.Base.{
  Bool, leb, ℕ, zero, suc, String, true, List, [], ◌∷◌, none, some, map, ◌≡◌, refl, ap, arith, Memᴰ,
  lookup, insert, cut_first,
}
use ip_montior.Config.Kinds.{SshTarget}
use ip_montior.Config.Types.{Monitor}
use ip_montior.Config.References.{unique_names}
use ip_montior.Discovery.Finding.{HostFinding}
use ip_montior.Discovery.Proposals.Services.{propose}
use ip_montior.Discovery.Proposals.{draft, host_part, fallback}
use ip_montior.Discovery.Proposals.Platforms.{proxmox_part}
use ip_montior.Discovery.Render.Dropped.{disk_of, sift-disk}
use ip_montior.Discovery.Render.{Sifted, sift, existing, render, key}
use ip_montior.Discovery.Render.Names.{IsDecimal, all_digits}
use ip_montior.Discovery.Render.Total.{Rendering, render_lem}
use ip_montior.Tests.Sample.{lab}

-- Tally marks: one more than the number.
pub marks : ℕ → String
marks zero = "1"
marks (suc n) = String.◌∷◌ "1" (marks n)

abbrev size : String → ℕ
size String.[] = 0
size (String.◌∷◌ c s) = suc (size s)

size-marks : (n : ℕ) → size (marks n) ≡ suc n
unfolding marks
size-marks zero = refl
size-marks (suc n) = ap suc (size-marks n)

marks-digits : (n : ℕ) → all_digits (marks n) ≡ true
unfolding marks
marks-digits zero = refl
marks-digits (suc n) = marks-digits n

marks-IsDecimal : IsDecimal marks
marks-IsDecimal = record {
  digits_only = marks-digits;
  some_digit = λ n e. absurd (omega (arith, size-marks n, ap size e));
  different = λ m n e. omega (arith, size-marks m, size-marks n, ap size e);
}

abbrev pub quiet : HostFinding
quiet = record {
  address = "10.0.0.5";
  is_ip = true;
  ptr = some "server.lab.example";
  icmp = true;
  open_ports = [];
  snmp = none;
  winrm = none;
  tls = [];
  http = [];
  ssh_banner = none;
  mqtt = [];
  ssh = none;
  proxmox = none;
  homeassistant = none;
  unifi = none;
  technitium = none;
  vsphere = none;
  truenas = none;
}

abbrev pve : HostFinding
pve = record quiet {
  address = "10.0.0.9";
  ptr = some "pve.lab.example";
  proxmox = some (record {
    credential = "pve";
    host = "pve.lab.example";
    nodes = "n1" ∷ [];
    storages = [];
    guests = record { vmid = "100"; name = some "web"; node = "n1"; kind = "VM" } ∷ [];
    verify = true;
  });
}

names_proposed :
    map {B = String × List String}
      (λ (m : Monitor). (m.name, m.depends_on))
      (propose marks pve lab.discovery)
    ≡ ("n1 ping", [])
      ∷ ("n1 node n1", [])
      ∷ ("n1 node n1 CPU", [])
      ∷ ("n1 node n1 memory", [])
      ∷ ("n1 VM web", "n1 node n1" ∷ [])
      ∷ []
unfolding propose host_part cut_first fallback proxmox_part lookup
names_proposed = refl

-- Pings and what else has a short name
abbrev short_names : Monitor → Bool
short_names m = leb (len m.name) 40

render_lem_example :
    Rendering marks marks-IsDecimal short_names lab
      (quiet ∷ pve ∷ [])
      (render marks short_names lab (quiet ∷ pve ∷ []))
unfolding unique_names
render_lem_example = render_lem marks marks-IsDecimal short_names lab (quiet ∷ pve ∷ []) refl

abbrev ssh_here : SshTarget
ssh_here = record {
  host = "10.0.0.5";
  port = 22;
  credential = "root";
  known_hosts = "/config/known_hosts";
}

abbrev disk : String → String → Monitor
disk name mount = draft name "linux" (disk_of ssh_here mount)

abbrev nothing_yet : Sifted
nothing_yet = record { keep = []; renamed = []; taken = []; skipped = 0 }

sift-disk_example :
    (name : String) × (existing (key (disk "b" "/srv").kind) (disk "a" "/" ∷ []) ≡ some name)
    × (sift marks "10.0.0.5" (disk "a" "/" ∷ []) (disk "b" "/srv" ∷ []) nothing_yet
        ≡ some (record nothing_yet { renamed = insert "b" name []; skipped = 1 }))
unfolding draft
sift-disk_example =
    sift-disk marks "10.0.0.5" (disk "a" "/" ∷ []) (disk "a" "/") (disk "b" "/srv") ssh_here "/"
      "/srv" nothing_yet (Memᴰ.head refl) refl refl
