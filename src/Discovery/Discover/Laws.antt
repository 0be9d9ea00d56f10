-- ===== src/Discovery/Discover/Laws.antt =====
-- When `discover` stops with an error, and what it has made sure of when it does not.
use ip_montior.Base.{
  ◌⊎◌, ℕ, String, Bool, true, false, ◌||◌, List, [], ◌++◌, none, some, Try, done, raised, All, map,
  contains, lookup, is_some, ◌≡◌,
}
use ip_montior.Discovery.Render.{render}
use ip_montior.Config.Types.{Monitor, Config, DirectorySettings, DiscoverySettings}
use ip_montior.Directory.{DirectoryComputer, Skipped}
use ip_montior.Discovery.Finding.{HostFinding, responded, filled}
use ip_montior.Discovery.Targets.{IpAddress, expand_targets}
use ip_montior.Discovery.Scan.{Offers, named_credentials}
use ip_montior.Discovery.Discover.{
  DiscoverError, Discovered, has_reference, unknown_of, names_of, run,
}
use ip_montior.Discovery.Discover.Settings.{Fetch, chosen, Agrees}

module _ (lib : IpAddress) (digits : ℕ → String) (fetch : Fetch)
    (scan : DiscoverySettings → Offers → String → HostFinding) (failures : String → ℕ)
    (loads : Monitor → Bool) (c : Config) (targets credentials : List String)
    (use_directory : Bool) where
  -- The names and the skipped accounts are the directory's: those that it answers with if the call
  -- uses it and it is configured, and none otherwise.
  abbrev pub FromDirectory : List String → List Skipped → Type 0
  FromDirectory names skipped =
      (((use_directory ≡ false) ⊎ (c.discovery.directory ≡ none)) × (names ≡ []) × (skipped ≡ []))
      ⊎ ((use_directory ≡ true)
          × (d : DirectorySettings) × (computers : List DirectoryComputer) × (c.discovery.directory
              ≡ some d)
          × (fetch d ≡ done (computers, skipped))
          × (names ≡ names_of computers))

  -- What an error says of the call
  abbrev pub Blames : DiscoverError → Type 0
  Blames (DiscoverError.unknown_credentials us) =
      (us ≡ unknown_of c credentials) × (filled us ≡ true)
  Blames (DiscoverError.unresolved_reference spec) =
      (has_reference spec ≡ true) × (contains spec (chosen targets c.discovery.targets) ≡ true)
  Blames (DiscoverError.directory_failed server err) =
      (use_directory ≡ true)
      × (d : DirectorySettings) × (c.discovery.directory ≡ some d)
      × (d.server ≡ server)
      × (fetch d ≡ raised err)
  Blames DiscoverError.no_targets =
      (chosen targets c.discovery.targets ≡ [])
      × (skipped : List Skipped) × FromDirectory [] skipped
  Blames DiscoverError.missing_credential =
      named_credentials c (chosen credentials c.discovery.credentials) ≡ none
  Blames (DiscoverError.target_error err) =
      (names : List String) × (skipped : List Skipped) × FromDirectory names skipped
      × (◌≡◌
          (expand_targets lib (chosen targets c.discovery.targets ++ names) c.discovery.exclude
            c.discovery.max_hosts)
          (raised err))
  Blames (DiscoverError.render_failed err) =
      (s : DiscoverySettings) × (offers : Offers) × (hosts : List String) × Agrees c targets
        credentials s
      × (◌≡◌
          (render digits loads (record c { discovery = s })
            (run lib digits fetch scan failures s offers hosts))
          (raised err))

  abbrev addresses : Discovered → List String
  addresses r = map (λ (f : HostFinding). f.address) r.findings

  -- What a report has made sure of
  abbrev pub Vouches : Discovered → Type 0
  Vouches r =
      All (λ spec. has_reference spec ≡ false) (chosen targets c.discovery.targets)
      × All (λ name. is_some (lookup name c.credentials) ≡ true) credentials
      × All (λ f. responded f ≡ true) r.findings
      × ((names : List String) × FromDirectory names r.skipped
          × (◌≡◌
              (expand_targets lib (chosen targets c.discovery.targets ++ names) c.discovery.exclude
                c.discovery.max_hosts)
              (done r.hosts))
          × All (λ n. (contains n r.no_response || contains n (addresses r)) ≡ true) names)

  abbrev pub Judged : Try DiscoverError Discovered → Type 0
  Judged (raised e) = Blames e
  Judged (done r) = Vouches r

  -- A step that ends in an error gives a true reason for it.
  abbrev Fair : {A : Type 0} → Try DiscoverError A → Type 0
  Fair (raised e) = Blames e
  Fair (done a) = Unit

  -- What the directory was asked for, or why that failed
  abbrev Asked : Try DiscoverError (List DirectoryComputer × List Skipped) → Type 0
  Asked (raised e) = Blames e
  Asked (done answer) = FromDirectory (names_of answer.0) answer.1
