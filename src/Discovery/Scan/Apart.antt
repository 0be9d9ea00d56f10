-- ===== src/Discovery/Scan/Apart.antt =====
-- The three APIs of the HTTPS port: no host is told the credentials of two of them that exclude each other.
use ip_montior.Base.{
  ℕ, Bool, false, ◌&&◌, ◌||◌, if◌then◌else◌, List, [], ◌∷◌, any, map, All, ◌≡◌, refl, arith, inl,
  inr, ◌⊎◌,
}
use ip_montior.Config.Types.{DiscoverySettings}
use ip_montior.Discovery.Finding.{HostFinding, filled}
use ip_montior.Discovery.Scan.{
  Probe, CredentialKind, for_winrm, for_ssh, for_proxmox, for_homeassistant, for_technitium,
  for_vsphere, for_unifi, for_truenas, Offers, Trip, has_port, ports_of, last_probes, make,
  make_all, sweep, try_on, if_truenas, if_unifi, try_api, try_credentials, scan_host,
}
use ip_montior.Discovery.Scan.Asked.{
  logs_in_vsphere, logs_in_other, any-append, if_holds, all_found, Plain, last_probes-Plain,
}

-- No probe made so far passes the test.
abbrev Lacks : (Probe → Bool) → Trip → Type 0
Lacks test t = any test t.made ≡ false

module _ (s : DiscoverySettings) (offers : Offers)
    (answer : Probe → HostFinding → HostFinding × Bool) (test : Probe → Bool) where
  make-Lacks :
      (p : Probe) (t : Trip) → test p ≡ false → Lacks test t → Lacks test (make s offers answer p t)
  unfolding make
  make-Lacks p t none_now lacks = ground (arith, any-append test t.made (p ∷ []), none_now, lacks)

  make_all-Lacks :
      (ps : List Probe) (t : Trip)
      → any test ps ≡ false
      → Lacks test t
      → Lacks test (make_all s offers answer ps t)
  unfolding make_all
  make_all-Lacks [] t none_now lacks = lacks
  make_all-Lacks (p ∷ ps) t none_now lacks =
      make_all-Lacks ps (make s offers answer p t) (ground (arith, none_now))
        (make-Lacks p t (ground (arith, none_now)) lacks)

  try_on-Lacks :
      (port : ℕ) (kind : CredentialKind) (p : Probe) (t : Trip)
      → test p ≡ false
      → Lacks test t
      → Lacks test (try_on s offers answer port kind p t)
  unfolding try_on
  try_on-Lacks port kind p t none_now lacks =
      if_holds (Lacks test) (has_port port t.finding.open_ports && filled (offers kind))
        (make s offers answer p t) t (λ _. make-Lacks p t none_now lacks) (λ _. lacks)

  -- The test passes for the logins at the APIs of the HTTPS port alone.
  module _
      (others : (p : Probe) → (logs_in_vsphere p || logs_in_other p) ≡ false → test p ≡ false) where
    knocks : (ports : List ℕ) → any test (map Probe.tcp ports) ≡ false
    knocks [] = refl
    knocks (port ∷ ports) = rw (others (Probe.tcp port) refl) (knocks ports)

    try_credentials-Lacks :
        (t : Trip) → Lacks test t → Lacks test (try_credentials s offers answer t)
    unfolding try_credentials
    try_credentials-Lacks t lacks =
        let after_snmp = make s offers answer Probe.snmp t in
        let after_winrm = try_on s offers answer s.winrm_port for_winrm Probe.winrm after_snmp in
        let after_ssh = try_on s offers answer s.ssh_port for_ssh Probe.ssh after_winrm in
        let after_proxmox =
          try_on s offers answer s.proxmox_port for_proxmox Probe.proxmox after_ssh in
        let after_home =
          try_on s offers answer s.homeassistant_port for_homeassistant Probe.homeassistant
            after_proxmox in
        try_on-Lacks s.technitium_port for_technitium Probe.technitium after_home
          (others Probe.technitium refl)
          (try_on-Lacks s.homeassistant_port for_homeassistant Probe.homeassistant after_proxmox
            (others Probe.homeassistant refl)
            (try_on-Lacks s.proxmox_port for_proxmox Probe.proxmox after_ssh
              (others Probe.proxmox refl)
              (try_on-Lacks s.ssh_port for_ssh Probe.ssh after_winrm (others Probe.ssh refl) (
                try_on-Lacks s.winrm_port for_winrm Probe.winrm after_snmp (others Probe.winrm refl)
                  (make-Lacks Probe.snmp t (others Probe.snmp refl) lacks)))))

    sweep-Lacks :
        (f : HostFinding) → Lacks test (sweep s offers answer (record { finding = f; made = [] }))
    unfolding sweep
    sweep-Lacks f =
        make_all-Lacks (Probe.ping ∷ Probe.ptr ∷ map Probe.tcp (ports_of s offers))
          (record { finding = f; made = [] })
          (rw (others Probe.ping refl, others Probe.ptr refl) (knocks (ports_of s offers))) refl

    no_more_logins :
        (ports : List ℕ) (ps : List Probe) → All (Plain s offers ports) ps → any test ps ≡ false
    no_more_logins ports [] plain = refl
    no_more_logins ports (p ∷ ps) plain =
        rw (others p (rw (plain.0.2, plain.0.3) refl)) (no_more_logins ports ps plain.1)

    after_apis :
        (t : Trip)
        → Lacks test t
        → Lacks test
            (make_all s offers answer (last_probes s offers t.finding t.finding.open_ports) t)
    after_apis t lacks =
        let ports = t.finding.open_ports in
        make_all-Lacks (last_probes s offers t.finding ports) t
          (no_more_logins ports (last_probes s offers t.finding ports)
            (last_probes-Plain s offers ports t.finding ports (all_found ports)))
          lacks

module _ (s : DiscoverySettings) (offers : Offers)
    (answer : Probe → HostFinding → HostFinding × Bool) where
  if_truenas-Lacks :
      (api : ℕ) (t : Trip)
      → Lacks logs_in_vsphere t
      → Lacks logs_in_vsphere (if_truenas s offers answer api t)
  unfolding if_truenas
  if_truenas-Lacks api t lacks =
      if_holds (Lacks logs_in_vsphere) (filled (offers for_truenas))
        (make s offers answer (Probe.truenas api) t) t
        (λ _. make-Lacks s offers answer logs_in_vsphere (Probe.truenas api) t refl lacks)
        (λ _. lacks)

  if_unifi-Lacks :
      (api : ℕ) (t : Trip)
      → Lacks logs_in_vsphere t
      → Lacks logs_in_vsphere (if_unifi s offers answer api t)
  unfolding if_unifi
  if_unifi-Lacks api t lacks =
      let next = make s offers answer (Probe.unifi api) t in
      let still = make-Lacks s offers answer logs_in_vsphere (Probe.unifi api) t refl lacks in
      if_holds (Lacks logs_in_vsphere) (filled (offers for_unifi))
        (if (answer (Probe.unifi api) t.finding).1
          then next
          else if_truenas s offers answer api next)
        (if_truenas s offers answer api t)
        (λ _.
          if_holds (Lacks logs_in_vsphere) (answer (Probe.unifi api) t.finding).1 next
            (if_truenas s offers answer api next) (λ _. still)
            (λ _. if_truenas-Lacks api next still))
        (λ _. if_truenas-Lacks api t lacks)

  abbrev Apart : Trip → Type 0
  Apart t = Lacks logs_in_vsphere t ⊎ Lacks logs_in_other t

  try_api-Apart :
      (api : ℕ) (t : Trip)
      → Lacks logs_in_vsphere t
      → Lacks logs_in_other t
      → Apart (try_api s offers answer api t)
  unfolding try_api
  try_api-Apart api t no_vsphere no_other =
      let next = make s offers answer (Probe.is_vsphere api) t in
      let found = (answer (Probe.is_vsphere api) t.finding).1 in
      let logged_in = make s offers answer (Probe.vsphere api) next in
      let vsphere_next =
        make-Lacks s offers answer logs_in_vsphere (Probe.is_vsphere api) t refl no_vsphere in
      let other_next =
        make-Lacks s offers answer logs_in_other (Probe.is_vsphere api) t refl no_other in
      if_holds Apart
        (has_port api t.finding.open_ports
          && (filled (offers for_vsphere)
              || filled (offers for_truenas)
              || filled (offers for_unifi)))
        (if found
          then (if filled (offers for_vsphere) then logged_in else next)
          else if_unifi s offers answer api next)
        t
        (λ _.
          if_holds Apart found (if filled (offers for_vsphere) then logged_in else next)
            (if_unifi s offers answer api next)
            (λ _.
              if_holds Apart (filled (offers for_vsphere)) logged_in next
                (λ _. inr (
                  make-Lacks s offers answer logs_in_other (Probe.vsphere api) next refl
                    other_next))
                (λ _. inr other_next))
            (λ _. inl (if_unifi-Lacks api next vsphere_next)))
        (λ _. inl no_vsphere)

  not_vsphere :
      (p : Probe) → (logs_in_vsphere p || logs_in_other p) ≡ false → logs_in_vsphere p ≡ false
  not_vsphere p h = ground (arith, h)

  not_other : (p : Probe) → (logs_in_vsphere p || logs_in_other p) ≡ false → logs_in_other p ≡ false
  not_other p h = ground (arith, h)

  -- Whatever a host answers, it is not told both the vSphere credentials and those of UniFi or TrueNAS.
  pub scan_host-apart :
      (f : HostFinding)
      → (any logs_in_vsphere (scan_host s offers answer f).made ≡ false)
        ⊎ (any logs_in_other (scan_host s offers answer f).made ≡ false)
  unfolding scan_host
  scan_host-apart f =
      let swept = sweep s offers answer (record { finding = f; made = [] }) in
      let tried = try_credentials s offers answer swept in
      let known = try_api s offers answer s.https_api_port tried in
      let no_vsphere =
        try_credentials-Lacks s offers answer logs_in_vsphere not_vsphere swept
          (sweep-Lacks s offers answer logs_in_vsphere not_vsphere f) in
      let no_other =
        try_credentials-Lacks s offers answer logs_in_other not_other swept
          (sweep-Lacks s offers answer logs_in_other not_other f) in
      elim (try_api-Apart s.https_api_port tried no_vsphere no_other) [
        | inl lacks ↦ inl (after_apis s offers answer logs_in_vsphere not_vsphere known lacks)
        | inr lacks ↦ inr (after_apis s offers answer logs_in_other not_other known lacks)
      ]
