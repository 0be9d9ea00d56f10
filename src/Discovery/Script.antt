-- ===== src/Discovery/Script.antt =====
-- watchpost/discovery.py: `parse_linux_probe`, what is read of the lines that the SSH probe prints.
pub mod Lists
pub mod Laws
use Prim.Native.String.{slice, len}
use ip_montior.Base.{
  Try, done, raised, ◌>>=◌, str_eq, ℕ, suc, String, Bool, true, false, ◌&&◌, ◌||◌, not,
  if◌then◌else◌, List, [], ◌∷◌, ◌++◌, Option, none, some, ◌==◌, ◌<>◌, any, contains, take,
  cut_first, begins, occurs, strip, lower, insert,
}
use ip_montior.Discovery.Finding.{Docker, Container}
use ip_montior.Discovery.Probes.{first_characters}

abbrev pub role_units : List String
role_units =
    "nginx" ∷ "apache2" ∷ "httpd" ∷ "caddy" ∷ "haproxy" ∷ "postgresql" ∷ "mariadb" ∷ "mysql"
    ∷ "redis-server" ∷ "docker" ∷ "containerd" ∷ "smbd" ∷ "nfs-server" ∷ "named" ∷ "unbound"
    ∷ "pihole-FTL" ∷ "mosquitto" ∷ "k3s" ∷ "kubelet" ∷ "chrony" ∷ "chronyd" ∷ "slapd" ∷ "sssd"
    ∷ "zfs-zed" ∷ []

abbrev pub skip_mount_prefixes : List String
skip_mount_prefixes = "/boot" ∷ "/snap" ∷ "/run" ∷ "/var/lib/docker" ∷ "/var/lib/containers" ∷ []

-- An entry of `info` that starts as a list; a line of the head can put a text in its place.
pub data Slot (A : Type 0) : Type 0 where
  items : List A → Slot A
  written : String → Slot A

-- The entry `docker`: what `docker ps` ended with, or the text of a line of the head
pub data DockerEntry : Type 0 where
  verdict : Docker → DockerEntry
  said : String → DockerEntry

-- What `json.loads` makes of a line of docker's list
pub data JsonLine : Type 0 where
  unreadable : JsonLine
  no_object : JsonLine
  object : Container → JsonLine

-- The exceptions that leave `parse_linux_probe`: of `int`, and of `append` to a text or `get` of no object
pub data ProbeError : Type 0 where
  value_error : ProbeError
  attribute_error : ProbeError

-- `info`, with the section and the lines of docker's list so far; `head` is its entries of the head.
pub record Probed : Type 0 where
  pub head : List (String × String)
  pub mounts : Slot String
  pub units : Slot String
  pub containers : Slot Container
  pub docker : DockerEntry
  pub section : String
  pub docker_lines : List String

abbrev pub unread : Probed
unread = record {
  head = [];
  mounts = Slot.items [];
  units = Slot.items [];
  containers = Slot.items [];
  docker = DockerEntry.verdict Docker.absent;
  section = "head";
  docker_lines = [];
}

abbrev pub after_mark : String → String
after_mark line = slice line 3 (len line)

-- `s.removesuffix(".service")`
unfoldable pub without_service : String → String
without_service String.[] = ""
without_service (String.◌∷◌ c s) =
    let rest = without_service s in
    if str_eq (String.◌∷◌ c s) ".service" then "" else String.◌∷◌ c rest

-- Whether a mount is one to watch
unfoldable pub wanted_mount : String → Bool
unfolding begins
wanted_mount mount = begins "/" mount && not (any (λ p. begins p mount) skip_mount_prefixes)

-- The sixth word of a line
abbrev pub sixth : List String → Option String
sixth (a ∷ b ∷ c ∷ d ∷ e ∷ mount ∷ more) = some mount
sixth words = none

-- `list(dict.fromkeys(...))`, for the texts after those met so far
unfoldable pub distinct_texts : List String → List String → List String
distinct_texts seen [] = []
distinct_texts seen (s ∷ ss) =
    let rest = distinct_texts seen ss in
    let more = distinct_texts (s ∷ seen) ss in if contains s seen then rest else s ∷ more

unfoldable pub join_lines : List String → String
join_lines [] = ""
join_lines (s ∷ []) = s
join_lines (s ∷ t ∷ ts) = s <> "\n" <> join_lines (t ∷ ts)

-- The characters of a text, each as a text
unfoldable pub letters : String → List String
letters String.[] = []
letters (String.◌∷◌ c s) = String.◌∷◌ c "" ∷ letters s

-- `info[...].append(x)`
unfoldable pub append : {A : Type 0} → A → Slot A → Try ProbeError (Slot A)
append x (Slot.items xs) = done (Slot.items (xs ++ x ∷ []))
append x (Slot.written s) = raised ProbeError.attribute_error

-- `info[k] = v`
unfoldable pub set_entry : String → String → Probed → Probed
unfolding insert
set_entry k v p =
    if str_eq k "mounts"
    then record p { mounts = Slot.written v }
    else if str_eq k "units"
    then record p { units = Slot.written v }
    else if str_eq k "containers"
    then record p { containers = Slot.written v }
    else if str_eq k "docker"
    then record p { docker = DockerEntry.said v }
    else record p { head = insert k v p.head }

unfoldable pub read_head : String → Probed → Probed
unfolding cut_first strip set_entry
read_head line p = elim (cut_first b'=' line) [ none ↦ p | some (k, v) ↦ set_entry k (strip v) p ]

unfoldable pub read_mount : Option String → Probed → Try ProbeError Probed
unfolding wanted_mount append
read_mount none p = done p
read_mount (some mount) p =
    if wanted_mount mount
    then append mount p.mounts >>= (λ mounts. done (record p { mounts = mounts }))
    else done p

unfoldable pub read_unit : String → Probed → Try ProbeError Probed
unfolding strip without_service append
read_unit line p =
    let unit = without_service (strip line) in
    if contains unit role_units
    then append unit p.units >>= (λ units. done (record p { units = units }))
    else done p

-- What `docker ps` ended with
unfoldable pub docker_of : ℕ → String → Docker
unfolding occurs lower first_characters
docker_of rc text =
    if rc == 0
    then Docker.ok
    else if (rc == 127) || occurs "not found" text
    then Docker.absent
    else if occurs "permission denied" (lower text)
    then Docker.denied
    else Docker.error (first_characters 120 text)

-- `words` is `line.split()`, `number` is `int(...)` with `none` for a ValueError, and `json` reads one
-- line of docker's list.
module _ (words : String → List String) (number : String → Option ℕ)
    (json : String → JsonLine) where
  unfoldable pub add_containers : List String → Slot Container → Try ProbeError (Slot Container)
  unfolding append
  add_containers [] slot = done slot
  add_containers (line ∷ lines) slot = elim (json line) [
    | JsonLine.unreadable ↦ add_containers lines slot
    | JsonLine.no_object ↦ raised ProbeError.attribute_error
    | JsonLine.object c ↦ append c slot >>= add_containers lines
  ]

  unfoldable pub end_docker : ℕ → Probed → Try ProbeError Probed
  unfolding add_containers join_lines docker_of
  end_docker rc p =
      let ended : Probed = record p {
        docker = DockerEntry.verdict (docker_of rc (join_lines p.docker_lines));
      } in
      if rc == 0
      then add_containers p.docker_lines p.containers
        >>= (λ slot. done (record ended { containers = slot }))
      else done ended

  -- `int(line.split("=", 1)[1] or 1)`
  unfoldable pub exit_of : String → Option ℕ
  unfolding cut_first
  exit_of line = elim (cut_first b'=' line) [
    | none ↦ number ""
    | some (key, value) ↦ if begins value "" then some 1 else number value
  ]

  -- The line that ends docker's list, with the number in it
  abbrev pub end_with : Option ℕ → Probed → Try ProbeError Probed
  end_with none p = raised ProbeError.value_error
  end_with (some rc) p = end_docker rc p

  -- The body of the loop
  unfoldable pub read_line : String → Probed → Try ProbeError Probed
  unfolding read_head read_mount read_unit exit_of end_docker begins
  read_line line p =
      if begins "---" line
      then done (record p { section = after_mark line })
      else if str_eq p.section "head"
      then done (read_head line p)
      else if str_eq p.section "df"
      then read_mount (sixth (words line)) p
      else if str_eq p.section "units"
      then read_unit line p
      else if not (str_eq p.section "docker")
      then done p
      else if begins "docker_rc=" line
      then end_with (exit_of line) p
      else done (record p { docker_lines = p.docker_lines ++ line ∷ [] })

  unfoldable pub read_lines : List String → Probed → Try ProbeError Probed
  unfolding read_line
  read_lines [] p = done p
  read_lines (line ∷ lines) p = read_line line p >>= read_lines lines

  -- `list(dict.fromkeys(info["mounts"]))`, of a list or of the characters of a text
  unfoldable pub elements : Slot String → List String
  unfolding letters
  elements (Slot.items xs) = xs
  elements (Slot.written s) = letters s

  abbrev pub first_mounts : Probed → Probed
  first_mounts p = record p { mounts = Slot.items (take 6 (distinct_texts [] (elements p.mounts))) }

  -- `parse_linux_probe`, of `out.splitlines()`
  unfoldable pub parse_linux_probe : List String → Try ProbeError Probed
  unfolding read_lines distinct_texts elements
  parse_linux_probe lines = read_lines lines unread >>= λ p. done (first_mounts p)
