-- ===== src/Discovery/Proposals/Platforms.antt =====
-- watchpost/discovery.py: `propose`, what it proposes for Proxmox and vSphere.
use Prim.Native.String.{compare}
use text.Mathlib.Text.{is_le}
use ip_montior.Base.{
  ℕ, String, Bool, if◌then◌else◌, List, [], ◌∷◌, ◌++◌, Option, none, some, ◌==◌, map, take, length,
  lookup, ◌<>◌, truthy,
}
use ip_montior.Config.Kinds.{Kind, ApiTarget, ProxmoxMode, VSphereMode}
use ip_montior.Config.Types.{Monitor, DiscoverySettings}
use ip_montior.Discovery.Finding.{
  HostFinding, ProxmoxFinding, Storage, Guest, VSphereFinding, Vm, label,
}
use ip_montior.Discovery.Proposals.{plat, named, graded, forecasting, ca}

-- `sorted` of texts
unfoldable pub insert_text : String → List String → List String
insert_text x [] = x ∷ []
insert_text x (y ∷ ys) = if is_le (compare x y) then x ∷ y ∷ ys else y ∷ insert_text x ys

unfoldable pub sort_texts : List String → List String
unfolding insert_text
sort_texts [] = []
sort_texts (x ∷ xs) = insert_text x (sort_texts xs)

unfoldable pub concat_map {ℓ} : {A : Type ℓ} → (A → List Monitor) → List A → List Monitor
concat_map g [] = []
concat_map g (x ∷ xs) = g x ++ concat_map g xs

module _ (digits : ℕ → String) (f : HostFinding) (s : DiscoverySettings) where
  abbrev pub place : String → String → Kind → Monitor
  place group suffix kind = plat digits f s group suffix kind

  -- `api_common`, with the port that it leaves to the type's default or sets
  unfoldable pub api_common : String → String → ℕ → Bool → ApiTarget
  api_common host credential port verify = record {
    host = host;
    credential = credential;
    verify_tls = verify;
    ca_bundle = if verify then ca s else none;
    port = port;
  }

  abbrev proxmox :
      ProxmoxFinding → ProxmoxMode → Option String → Option String → Option String → Kind
  proxmox px mode node guest storage = Kind.proxmox (record {
    target = api_common px.host px.credential s.proxmox_port px.verify;
    mode = mode;
    node = node;
    guest = guest;
    storage = storage;
  })

  unfoldable pub node_part : ProxmoxFinding → String → List Monitor
  unfolding api_common plat
  node_part px node =
      place "proxmox" ("node " <> node) (proxmox px ProxmoxMode.node (some node) none none)
      ∷ graded 85 97 (
          place "proxmox" ("node " <> node <> " CPU")
            (proxmox px ProxmoxMode.node_cpu (some node) none none))
      ∷ forecasting 90 97 (
          place "proxmox" ("node " <> node <> " memory")
            (proxmox px ProxmoxMode.node_memory (some node) none none))
      ∷ []

  unfoldable pub storage_part : ProxmoxFinding → Storage → Monitor
  unfolding api_common plat
  storage_part px st = forecasting 85 95 (
      place "proxmox"
        ("storage " <> (if st.shared then st.storage else st.storage <> " on " <> st.node))
        (proxmox px ProxmoxMode.storage (if st.shared then none else some st.node) none
          (some st.storage)))

  abbrev guest_label : Guest → String
  guest_label g = elim g.name [ none ↦ g.vmid | some n ↦ if truthy n then n else g.vmid ]

  -- `[node_mon[g["node"]]] if g["node"] in node_mon else []`
  unfoldable pub on_node : ProxmoxFinding → String → List String
  on_node px node = elim (lookup node (map (λ n. (n, named (label f) ("node " <> n))) px.nodes)) [
    | none ↦ []
    | some name ↦ name ∷ []
  ]

  unfoldable pub guest_part : ProxmoxFinding → Guest → Monitor
  unfolding api_common plat on_node
  guest_part px g =
      record (place "proxmox" (g.kind <> " " <> guest_label g)
        (proxmox px ProxmoxMode.guest none (some g.vmid) none)) { depends_on = on_node px g.node }

  unfoldable pub proxmox_part : ProxmoxFinding → List Monitor
  unfolding node_part storage_part guest_part concat_map
  proxmox_part px =
      concat_map (node_part px) px.nodes
      ++ map (storage_part px) px.storages
      ++ map (guest_part px) (take s.max_guests px.guests)

  abbrev vsphere : VSphereFinding → VSphereMode → Option String → Kind
  vsphere vs mode entity = Kind.vsphere (record {
    target = api_common vs.host vs.credential vs.port vs.verify;
    mode = mode;
    entity = entity;
  })

  abbrev single : VSphereFinding → Bool
  single vs = length vs.hosts == 1

  abbrev esxi : VSphereFinding → String → String
  esxi vs h = if single vs then "ESXi" else "ESXi " <> h

  abbrev host_entity : VSphereFinding → String → Option String
  host_entity vs h = if single vs then none else some h

  unfoldable pub esxi_part : VSphereFinding → String → List Monitor
  unfolding api_common plat
  esxi_part vs h =
      place "vsphere" (esxi vs h) (vsphere vs VSphereMode.host (host_entity vs h))
      ∷ graded 85 97 (
          place "vsphere" (esxi vs h <> " CPU")
            (vsphere vs VSphereMode.host_cpu (host_entity vs h)))
      ∷ forecasting 90 97 (
          place "vsphere" (esxi vs h <> " memory")
            (vsphere vs VSphereMode.host_memory (host_entity vs h)))
      ∷ []

  -- `[host_mon[v["host"]]] if v.get("host") in host_mon else []`
  unfoldable pub on_host : VSphereFinding → Option String → List String
  on_host vs none = []
  on_host vs (some host) =
      elim (lookup host (map (λ h. (h, named (label f) (esxi vs h))) vs.hosts)) [
        | none ↦ []
        | some name ↦ name ∷ []
      ]

  unfoldable pub vm_part : VSphereFinding → Vm → Monitor
  unfolding api_common plat on_host
  vm_part vs v =
      record (place "vsphere" ("VM " <> v.name) (vsphere vs VSphereMode.vm (some v.name))) {
        depends_on = on_host vs v.host;
      }

  unfoldable pub vsphere_part : VSphereFinding → List Monitor
  unfolding esxi_part vm_part concat_map
  vsphere_part vs =
      concat_map (esxi_part vs) vs.hosts
      ++ map
          (λ d.
            forecasting 85 95
              (place "vsphere" ("datastore " <> d) (vsphere vs VSphereMode.datastore (some d))))
          vs.datastores
      ++ map (vm_part vs) (take s.max_guests vs.vms)
