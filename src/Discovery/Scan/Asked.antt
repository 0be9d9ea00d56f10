-- ===== src/Discovery/Scan/Asked.antt =====
-- The probes that `scan_host` may make, by the ports that are open.
use ip_montior.Base.{
  ℕ, Bool, true, false, ◌&&◌, ◌||◌, not, if◌then◌else◌, List, [], ◌∷◌, ◌++◌, ◌==◌, any, All, ◌≡◌,
  refl, subst, arith,
}
use ip_montior.Config.Types.{DiscoverySettings}
use ip_montior.Discovery.Finding.{HostFinding, filled, there as is_there}
use ip_montior.Discovery.Scan.{
  Probe, for_winrm, for_ssh, for_proxmox, for_homeassistant, for_technitium, for_vsphere, for_unifi,
  for_truenas, Offers, has_port, last_probe, last_probes,
}

-- The probes of the sweep
abbrev pub is_sweep : Probe → Bool
is_sweep Probe.ping = true
is_sweep Probe.ptr = true
is_sweep (Probe.tcp port) = true
is_sweep _ = false

abbrev pub logs_in_vsphere : Probe → Bool
logs_in_vsphere (Probe.vsphere port) = true
logs_in_vsphere _ = false

abbrev pub logs_in_other : Probe → Bool
logs_in_other (Probe.unifi port) = true
logs_in_other (Probe.truenas port) = true
logs_in_other _ = false

pub any-append :
    {A : Type 0} (test : A → Bool) (xs ys : List A)
    → any test (xs ++ ys) ≡ (any test xs || any test ys)
any-append test [] ys = refl
any-append test (x ∷ xs) ys = let rest = any-append test xs ys in ground (arith, rest)

pub All-append :
    {A : Type 0} (P : A → Type 0) (xs ys : List A) → All P xs → All P ys → All P (xs ++ ys)
All-append P [] ys h k = k
All-append P (x ∷ xs) ys h k = (h.0, All-append P xs ys h.1 k)

has_found : (port : ℕ) (ports : List ℕ) → has_port port (port ∷ ports) ≡ true
has_found port ports = ground arith

pub All_each {ℓ} :
    {A : Type ℓ} (P Q : A → Type 0) (xs : List A) → ((x : A) → P x → Q x) → All P xs → All Q xs
All_each P Q [] f h = tt
All_each P Q (x ∷ xs) f h = (f x h.0, All_each P Q xs f h.1)

pub all_found : (ports : List ℕ) → All (λ p. has_port p ports ≡ true) ports
all_found [] = tt
all_found (port ∷ ports) = (
  has_found port ports,
  All_each (λ p. has_port p ports ≡ true) (λ p. has_port p (port ∷ ports) ≡ true) ports
      (λ p h. ground (arith, h)) (all_found ports),
)

pub if_holds :
    {A : Type 0} (P : A → Type 0) (test : Bool) (x y : A)
    → (test ≡ true → P x)
    → (test ≡ false → P y)
    → P (if test then x else y)
if_holds P true x y then_holds else_holds = then_holds refl
if_holds P false x y then_holds else_holds = else_holds refl

first_choice :
    {A : Type 0} (P : A → Type 0) (a b c : Bool) (x y z w : A)
    → (a ≡ true → P x)
    → P y
    → P z
    → P w
    → P (if a then x else if b then y else if c then z else w)
first_choice P true b c x y z w px py pz pw = px refl
first_choice P false true c x y z w px py pz pw = py
first_choice P false false true x y z w px py pz pw = pz
first_choice P false false false x y z w px py pz pw = pw

module _ (s : DiscoverySettings) (offers : Offers) where
  -- Whether a probe may be made when these ports are open: a probe with credentials of one kind only
  -- where there are some and the port that they are for is open. SNMP, which has no port of the sweep,
  -- may always be asked.
  abbrev pub allowed : List ℕ → Probe → Bool
  allowed ports Probe.winrm = has_port s.winrm_port ports && filled (offers for_winrm)
  allowed ports Probe.ssh = has_port s.ssh_port ports && filled (offers for_ssh)
  allowed ports Probe.proxmox = has_port s.proxmox_port ports && filled (offers for_proxmox)
  allowed ports Probe.homeassistant =
      has_port s.homeassistant_port ports && filled (offers for_homeassistant)
  allowed ports Probe.technitium =
      has_port s.technitium_port ports && filled (offers for_technitium)
  allowed ports (Probe.vsphere port) =
      (port == s.https_api_port) && has_port port ports && filled (offers for_vsphere)
  allowed ports (Probe.unifi port) =
      (port == s.https_api_port) && has_port port ports && filled (offers for_unifi)
  allowed ports (Probe.truenas port) =
      (port == s.https_api_port) && has_port port ports && filled (offers for_truenas)
  allowed ports (Probe.is_vsphere port) = (port == s.https_api_port) && has_port port ports
  allowed ports (Probe.mqtt port) = has_port port ports
  allowed ports (Probe.web port) = has_port port ports
  allowed ports Probe.ssh_banner = has_port 22 ports
  allowed ports Probe.ping = true
  allowed ports Probe.ptr = true
  allowed ports Probe.snmp = true
  allowed ports (Probe.tcp port) = true

  -- Of the probes after the sweep, those that log in at no API of the HTTPS port
  abbrev pub Plain : List ℕ → Probe → Type 0
  Plain ports p =
      (is_sweep p ≡ false)
      × (allowed ports p ≡ true)
      × (logs_in_vsphere p ≡ false)
      × (logs_in_other p ≡ false)

  last_probe-Plain :
      (ports : List ℕ) (f : HostFinding) (port : ℕ)
      → has_port port ports ≡ true
      → All (Plain ports) (last_probe s offers f port)
  unfolding last_probe
  last_probe-Plain ports f port there =
      first_choice (All (Plain ports)) ((port == 22) && not (is_there f.ssh))
        (has_port port s.mqtt_ports)
        (not ((port == 3389) || (port == s.winrm_port))
          && not ((port == s.proxmox_port) && is_there f.proxmox)
          && not ((port == s.homeassistant_port) && is_there f.homeassistant)
          && not ((port == s.technitium_port) && is_there f.technitium))
        (Probe.ssh_banner ∷ []) (Probe.mqtt port ∷ []) (Probe.web port ∷ []) []
        (λ h.
          let same : port ≡ 22 = ground (arith, h) in
          ((refl, subst (λ n. has_port n ports ≡ true) same there, refl, refl), tt))
        ((refl, there, refl, refl), tt) ((refl, there, refl, refl), tt) tt

  pub last_probes-Plain :
      (ports : List ℕ) (f : HostFinding) (asked : List ℕ)
      → All (λ p. has_port p ports ≡ true) asked
      → All (Plain ports) (last_probes s offers f asked)
  unfolding last_probes
  last_probes-Plain ports f [] there = tt
  last_probes-Plain ports f (port ∷ asked) there =
      All-append (Plain ports) (last_probe s offers f port) (last_probes s offers f asked)
        (last_probe-Plain ports f port there.0) (last_probes-Plain ports f asked there.1)
