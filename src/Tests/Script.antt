-- ===== src/Tests/Script.antt =====
-- An answer of the SSH probe with a mount twice, one that is skipped, and a refused docker.
use ip_montior.Base.{
  Try, done, raised, cut_first, ℕ, String, if◌then◌else◌, str_eq, List, [], ◌∷◌, Option, none, some,
  ◌≡◌, refl,
}
use ip_montior.Discovery.Finding.{Docker}
use ip_montior.Discovery.Script.{Slot, DockerEntry, JsonLine, ProbeError, Probed, parse_linux_probe}
use ip_montior.Discovery.Script.Laws.{Read, parse_linux_probe_lem}

abbrev row : String → List String
row mount = "/dev/sda1" ∷ "100" ∷ "50" ∷ "50" ∷ "50%" ∷ mount ∷ []

abbrev words : String → List String
words line = if str_eq line "boot" then row "/boot/efi" else row "/"

abbrev number : String → Option ℕ
number s = if str_eq s "1" then some 1 else none

abbrev no_json : String → JsonLine
no_json line = JsonLine.unreadable

abbrev printed : List String
printed =
    "os=Debian" ∷ "---df" ∷ "root" ∷ "boot" ∷ "root" ∷ "---units" ∷ "nginx.service" ∷ "cron.service"
    ∷ "---docker" ∷ "Permission denied" ∷ "docker_rc=1" ∷ []

abbrev facts : Try ProbeError Probed → Option (Slot String × Slot String × DockerEntry)
facts (raised e) = none
facts (done p) = some (p.mounts, p.units, p.docker)

understood :
    facts (parse_linux_probe words number no_json printed)
    ≡ some (Slot.items ("/" ∷ []), Slot.items ("nginx" ∷ []), DockerEntry.verdict Docker.denied)
unfolding parse_linux_probe
understood = refl

-- A line of the head in the place of the list: its characters are the mounts, and no mount can follow.
overwritten :
    (facts (parse_linux_probe words number no_json ("mounts=aba" ∷ []))
      ≡ some (Slot.items ("a" ∷ "b" ∷ []), Slot.items [], DockerEntry.verdict Docker.absent))
    × (parse_linux_probe words number no_json ("mounts=aba" ∷ "---df" ∷ "root" ∷ [])
        ≡ raised ProbeError.attribute_error)
unfolding parse_linux_probe
overwritten = (refl, refl)

parse_linux_probe_lem_example :
    Read words number no_json printed (parse_linux_probe words number no_json printed)
unfolding cut_first
parse_linux_probe_lem_example = parse_linux_probe_lem words number no_json printed refl
