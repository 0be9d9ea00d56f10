-- ===== src/Discovery/Scan/Allowed.antt =====
-- No credential goes to a port that is not open.
use ip_montior.Base.{
  ◌==◌, ℕ, Bool, true, false, ◌&&◌, ◌||◌, if◌then◌else◌, List, [], ◌∷◌, map, All, ◌≡◌, refl, sym,
  ◌∙◌, ap, subst, arith,
}
use ip_montior.Config.Types.{DiscoverySettings}
use ip_montior.Discovery.Finding.{HostFinding, filled}
use ip_montior.Discovery.Scan.{
  Probe, CredentialKind, for_winrm, for_ssh, for_proxmox, for_homeassistant, for_technitium,
  for_vsphere, for_unifi, for_truenas, Offers, Trip, has_port, ports_of, last_probes, make,
  make_all, sweep, try_on, if_truenas, if_unifi, try_api, try_credentials, scan_host,
}
use ip_montior.Discovery.Scan.Asked.{
  is_sweep, All-append, if_holds, all_found, allowed, Plain, last_probes-Plain,
}

module _ (s : DiscoverySettings) (offers : Offers)
    (answer : Probe → HostFinding → HostFinding × Bool) where
  -- The probes made so far are allowed when these ports are open, and they are what is open.
  abbrev Good : List ℕ → Trip → Type 0
  Good ports t = (t.finding.open_ports ≡ ports) × All (λ p. allowed s offers ports p ≡ true) t.made

  swept :
      (ports : List ℕ) (ps : List Probe) (t : Trip)
      → All (λ p. allowed s offers ports p ≡ true) t.made
      → All (λ p. allowed s offers ports p ≡ true) ps
      → All (λ p. allowed s offers ports p ≡ true) (make_all s offers answer ps t).made
  unfolding make_all
  swept ports [] t h k = h
  swept ports (p ∷ ps) t h k =
      swept ports ps (make s offers answer p t)
        (All-append (λ p. allowed s offers ports p ≡ true) t.made (p ∷ []) h (k.0, tt)) k.1

  knocks : (ports asked : List ℕ) → All (λ p. allowed s offers ports p ≡ true) (map Probe.tcp asked)
  knocks ports [] = tt
  knocks ports (port ∷ asked) = (refl, knocks ports asked)

  sweep-Good :
      (f : HostFinding)
      → let t = sweep s offers answer (record { finding = f; made = [] }) in
        Good t.finding.open_ports t
  unfolding sweep
  sweep-Good f =
      let start : Trip = record { finding = f; made = [] } in
      let ports = (sweep s offers answer start).finding.open_ports in
      (
        refl,
        swept ports (Probe.ping ∷ Probe.ptr ∷ map Probe.tcp (ports_of s offers)) start tt
            (refl, (refl, knocks ports (ports_of s offers))),
      )

  module _
      (keeps : (p : Probe) (f : HostFinding)
        → is_sweep p ≡ false
        → (answer p f).0.open_ports ≡ f.open_ports)
      (ports : List ℕ) where
    make-Good :
        (p : Probe) (t : Trip)
        → is_sweep p ≡ false
        → allowed s offers ports p ≡ true
        → Good ports t
        → Good ports (make s offers answer p t)
    unfolding make
    make-Good p t later fine good = (
      keeps p t.finding later ∙ good.0,
      All-append (λ p. allowed s offers ports p ≡ true) t.made (p ∷ []) good.1 (fine, tt),
    )

    make_all-Good :
        (ps : List Probe) (t : Trip)
        → All (Plain s offers ports) ps
        → Good ports t
        → Good ports (make_all s offers answer ps t)
    unfolding make_all
    make_all-Good [] t plain good = good
    make_all-Good (p ∷ ps) t plain good =
        make_all-Good ps (make s offers answer p t) plain.1 (make-Good p t plain.0.0 plain.0.1 good)

    try_on-Good :
        (port : ℕ) (kind : CredentialKind) (p : Probe) (t : Trip)
        → is_sweep p ≡ false
        → allowed s offers ports p ≡ (has_port port ports && filled (offers kind))
        → Good ports t
        → Good ports (try_on s offers answer port kind p t)
    unfolding try_on
    try_on-Good port kind p t later same good =
        if_holds (Good ports) (has_port port t.finding.open_ports && filled (offers kind))
          (make s offers answer p t) t
          (λ h.
            make-Good p t later
              (same ∙ ap (λ x. has_port port x && filled (offers kind)) (sym good.0) ∙ h) good)
          (λ _. good)

    try_credentials-Good :
        (t : Trip) → Good ports t → Good ports (try_credentials s offers answer t)
    unfolding try_credentials
    try_credentials-Good t good =
        try_on-Good s.technitium_port for_technitium Probe.technitium _ refl refl (
          try_on-Good s.homeassistant_port for_homeassistant Probe.homeassistant _ refl refl (
            try_on-Good s.proxmox_port for_proxmox Probe.proxmox _ refl refl (
              try_on-Good s.ssh_port for_ssh Probe.ssh _ refl refl (
                try_on-Good s.winrm_port for_winrm Probe.winrm _ refl refl
                  (make-Good Probe.snmp t refl refl good)))))

    if_truenas-Good :
        (api : ℕ) (t : Trip)
        → ((api == s.https_api_port) && has_port api ports) ≡ true
        → Good ports t
        → Good ports (if_truenas s offers answer api t)
    unfolding if_truenas
    if_truenas-Good api t there good =
        if_holds (Good ports) (filled (offers for_truenas))
          (make s offers answer (Probe.truenas api) t) t
          (λ h. make-Good (Probe.truenas api) t refl (ground (arith, there, h)) good) (λ _. good)

    if_unifi-Good :
        (api : ℕ) (t : Trip)
        → ((api == s.https_api_port) && has_port api ports) ≡ true
        → Good ports t
        → Good ports (if_unifi s offers answer api t)
    unfolding if_unifi
    if_unifi-Good api t there good =
        let next = make s offers answer (Probe.unifi api) t in
        if_holds (Good ports) (filled (offers for_unifi))
          (if (answer (Probe.unifi api) t.finding).1
            then next
            else if_truenas s offers answer api next)
          (if_truenas s offers answer api t)
          (λ h.
            let better = make-Good (Probe.unifi api) t refl (ground (arith, there, h)) good in
            if_holds (Good ports) (answer (Probe.unifi api) t.finding).1 next
              (if_truenas s offers answer api next) (λ _. better)
              (λ _. if_truenas-Good api next there better))
          (λ _. if_truenas-Good api t there good)

    try_api-Good :
        (api : ℕ) (t : Trip)
        → api ≡ s.https_api_port
        → Good ports t
        → Good ports (try_api s offers answer api t)
    unfolding try_api
    try_api-Good api t its_port good =
        let next = make s offers answer (Probe.is_vsphere api) t in
        let found = (answer (Probe.is_vsphere api) t.finding).1 in
        let logged_in = make s offers answer (Probe.vsphere api) next in
        if_holds (Good ports)
          (has_port api t.finding.open_ports
            && (filled (offers for_vsphere)
                || filled (offers for_truenas)
                || filled (offers for_unifi)))
          (if found
            then (if filled (offers for_vsphere) then logged_in else next)
            else if_unifi s offers answer api next)
          t
          (λ h.
            let is_open : has_port api ports ≡ true =
              ap (has_port api) (sym good.0) ∙ ground (arith, h) in
            let there : ((api == s.https_api_port) && has_port api ports) ≡ true =
              ground (arith, is_open, its_port) in
            let better = make-Good (Probe.is_vsphere api) t refl there good in
            if_holds (Good ports) found (if filled (offers for_vsphere) then logged_in else next)
              (if_unifi s offers answer api next)
              (λ _.
                if_holds (Good ports) (filled (offers for_vsphere)) logged_in next
                  (λ k. make-Good (Probe.vsphere api) next refl (ground (arith, there, k)) better)
                  (λ _. better))
              (λ _. if_unifi-Good api next there better))
          (λ _. good)

  -- Whatever a host answers, where the probes after the sweep do not find ports open that it did not: a
  -- credential of WinRM, SSH or an API goes only to the port of the settings that it is for, which is
  -- open, and only where the settings name one of its kind; and no TCP port is asked for anything that
  -- is not open. SNMP, on UDP, is asked of every host.
  pub scan_host-allowed :
      (keeps : (p : Probe) (f : HostFinding)
        → is_sweep p ≡ false
        → (answer p f).0.open_ports ≡ f.open_ports)
      (f : HostFinding)
      → let t = scan_host s offers answer f in
        All (λ p. allowed s offers t.finding.open_ports p ≡ true) t.made
  unfolding scan_host
  scan_host-allowed keeps f =
      let swept = sweep s offers answer (record { finding = f; made = [] }) in
      let ports = swept.finding.open_ports in
      let known =
        try_api s offers answer s.https_api_port (try_credentials s offers answer swept) in
      let good : Good ports known =
        try_api-Good keeps ports s.https_api_port (try_credentials s offers answer swept) refl
          (try_credentials-Good keeps ports swept (sweep-Good f)) in
      let plain =
        last_probes-Plain s offers ports known.finding known.finding.open_ports
          (subst (λ x. All (λ p. has_port p ports ≡ true) x) (sym good.0) (all_found ports)) in
      let end =
        make_all-Good keeps ports (last_probes s offers known.finding known.finding.open_ports)
          known plain good in
      subst
        (λ x.
          All (λ p. allowed s offers x p ≡ true)
            (make_all s offers answer (last_probes s offers known.finding known.finding.open_ports)
              known).made)
        (sym end.0) end.1
