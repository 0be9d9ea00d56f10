-- ===== src/Discovery/Probes/Platforms.antt =====
-- watchpost/discovery.py: what `_snmp`, `_proxmox`, `_vsphere`, `_truenas` and `_unifi` keep of the answers.
use Prim.Native.String.{compare}
use text.Mathlib.Text.{is_le}
use ip_montior.Snmp.{hr_storage_ram}
use ip_montior.Base.{
  ℕ, String, Bool, false, ◌&&◌, ◌||◌, not, if◌then◌else◌, List, [], ◌∷◌, Option, none, some, str_eq,
  ◌==◌, ltb, any, map, filter, lookup,
}
use ip_montior.Net.{sorted}
use ip_montior.Discovery.Finding.{
  Link, SnmpFinding, Storage, Guest, ProxmoxFinding, VSphereFinding, TrueNasFinding, filled,
}

-- One entry of `/cluster/resources`
pub record Resource : Type 0 where
  pub type : String
  pub status : String
  pub node : String
  pub storage : String
  pub shared : Bool
  pub vmid : String
  pub name : Option String
  pub template : Bool

abbrev is_guest : Resource → Bool
is_guest i = str_eq i.type "qemu" || str_eq i.type "lxc"

abbrev is_running : Resource → Bool
is_running i = is_guest i && str_eq i.status "running" && not i.template

-- `key in seen`: a shared storage is one wherever it is, another is one for each node.
abbrev pub same_storage : Storage → Storage → Bool
same_storage a b =
    str_eq a.storage b.storage
    && ((a.shared && b.shared) || (not a.shared && not b.shared && str_eq a.node b.node))

abbrev storage_of : Resource → Storage
storage_of i = record { storage = i.storage; node = i.node; shared = i.shared }

-- The loop over the storages, with those met so far, the last first
unfoldable pub storages_from : List Storage → List Resource → List Storage
storages_from seen [] = []
storages_from seen (i ∷ items) =
    if not (str_eq i.type "storage") || not (str_eq i.status "available")
    then storages_from seen items
    else if any (same_storage (storage_of i)) seen
    then storages_from seen items
    else storage_of i ∷ storages_from (storage_of i ∷ seen) items

abbrev guest_of : Resource → Guest
guest_of i = record {
  vmid = i.vmid;
  name = i.name;
  node = i.node;
  kind = if str_eq i.type "qemu" then "VM" else "CT";
}

-- `_proxmox`, of a token that sees something
unfoldable pub proxmox_finding : String → String → Bool → List Resource → ProxmoxFinding
unfolding sorted storages_from
proxmox_finding cred host verify items = record {
  credential = cred;
  host = host;
  nodes = sorted (map (λ (i : Resource). i.node) (filter (λ i. str_eq i.type "node") items));
  storages = storages_from [] items;
  guests = map guest_of (filter is_running items);
  verify = verify;
}

pub record Datastore : Type 0 where
  pub name : String
  pub accessible : Bool

pub record Machine : Type 0 where
  pub name : String
  pub powered_on : Bool
  pub template : Bool
  pub host : Option String

pub record Collected : Type 0 where
  pub hosts : List String
  pub stores : List Datastore
  pub machines : List Machine

-- `_vsphere`
unfoldable pub vsphere_finding : String → String → ℕ → Bool → Collected → VSphereFinding
unfolding sorted
vsphere_finding cred host port verify data' = record {
  credential = cred;
  host = host;
  port = port;
  hosts = sorted data'.hosts;
  datastores = sorted (map (λ (d : Datastore). d.name) (filter (λ d. d.accessible) data'.stores));
  vms =
      map (λ (v : Machine). record { name = v.name; host = v.host })
        (filter (λ v. v.powered_on && not v.template) data'.machines);
  verify = verify;
}

-- `_truenas`
unfoldable pub truenas_finding : String → String → ℕ → Bool → List String → TrueNasFinding
unfolding sorted
truenas_finding cred host port verify pools = record {
  credential = cred;
  host = host;
  port = port;
  pools = sorted pools;
  verify = verify;
}

-- The tables that `_snmp` walks, each by the index of a row; `none` is an SnmpError.
pub record Tables : Type 0 where
  pub names : Option (List (String × String))
  pub status : Option (List (String × String))
  pub types : Option (List (String × String))
  pub speeds : Option (List (String × String))
  pub processors : Option (List (String × String))
  pub storage_types : Option (List (String × String))

abbrev or_text : Option String → String → String
or_text o fallback = elim o [ none ↦ fallback | some s ↦ if str_eq s "" then fallback else s ]

abbrev link_types : List ℕ
link_types = 6 ∷ 62 ∷ 117 ∷ 71 ∷ 161 ∷ []

module _ (number : String → ℕ) where
  -- The body of the loop over the states of the interfaces
  unfoldable pub links_of :
      List (String × String)
      → List (String × String)
      → List (String × String)
      → List (String × String)
      → List Link
  unfolding lookup
  links_of names types speeds [] = []
  links_of names types speeds ((idx, st) ∷ rest) =
      let more = links_of names types speeds rest in
      if not (str_eq st "1")
        || not (any (λ t. t == number (or_text (lookup idx types) "0")) link_types)
      then more
      else record {
        index = idx;
        name = or_text (lookup idx names) idx;
        speed_mbps = number (or_text (lookup idx speeds) "0");
      }
        ∷ more

  abbrev pub faster : Link → Link → Bool
  faster a b =
      ltb b.speed_mbps a.speed_mbps
      || ((a.speed_mbps == b.speed_mbps) && is_le (compare a.name b.name))

  abbrev pub link_in : Link → List Link → List Link
  link_in l [] = l ∷ []
  link_in l (k ∷ ks) = if faster l k then l ∷ k ∷ ks else k ∷ link_in l ks

  -- `links.sort(...)`: the fastest first, then by name
  unfoldable pub sort_links : List Link → List Link
  sort_links [] = []
  sort_links (l ∷ ls) = link_in l (sort_links ls)

  abbrev bare : String → List (String × String) → SnmpFinding
  bare cred sysv = record {
    credential = cred;
    sys_name = elim (lookup ".1.3.6.1.2.1.1.5.0" sysv) [
      | none ↦ none
      | some name ↦ if str_eq name "" then none else some name
    ];
    links_up = [];
    has_cpu = false;
    has_ram = false;
  }

  with_storage : Option (List (String × String)) → SnmpFinding → SnmpFinding
  with_storage none info = info
  with_storage (some types) info = record info {
    has_ram = any (λ x. str_eq x.1 hr_storage_ram) types;
  }

  with_processors :
      Option (List (String × String)) → Option (List (String × String)) → SnmpFinding → SnmpFinding
  with_processors none types info = info
  with_processors (some processors) types info =
      with_storage types (record info { has_cpu = filled processors })

  -- The walks of `_snmp`, in their order; the first that fails leaves the keys after it out.
  unfoldable pub snmp_finding : String → List (String × String) → Tables → SnmpFinding
  unfolding sort_links links_of with_processors with_storage lookup
  snmp_finding cred sysv t =
      let info = bare cred sysv in
      elim t.names [
        | none ↦ info
        | some names ↦ elim t.status [
          | none ↦ info
          | some status ↦ elim t.types [
            | none ↦ info
            | some types ↦ elim t.speeds [
              | none ↦ info
              | some speeds ↦
                  with_processors t.processors t.storage_types
                    (record info { links_up = sort_links (links_of names types speeds status) })
            ]
          ]
        ]
      ]
