-- ===== src/Discovery/Discover.antt =====
-- watchpost/discovery.py: `discover` and `Discoverer.run`. The directory's answer, the scan of one address
-- and the failures that were counted are parameters; the text around the proposals is not modelled.
pub mod Settings
pub mod Laws
use Prim.Native.Char.{code}
use ip_montior.Base.{
  ℕ, String, Bool, true, false, ◌&&◌, ◌||◌, not, if◌then◌else◌, List, [], ◌∷◌, ◌++◌, Option, none,
  some, leb, Try, ◌>>=◌, ◌>>◌, raise_if, done, raised, filter, any, map, contains, lookup, is_some,
  length,
}
use ip_montior.Config.Types.{Monitor, Config, DirectorySettings, DiscoverySettings}
use ip_montior.Config.Resolve.{reference_at}
use ip_montior.Directory.{DirectoryComputer, Skipped}
use ip_montior.Discovery.Finding.{HostFinding, responded, filled}
use ip_montior.Discovery.Targets.{IpAddress, TargetError, expand_targets}
use ip_montior.Discovery.Scan.{
  Offers, named_credentials, of_kind, for_winrm, for_ssh, for_truenas, for_proxmox, for_vsphere,
  for_homeassistant, for_unifi, for_technitium,
}
use ip_montior.Discovery.Script.{distinct_texts}
use ip_montior.Discovery.Render.{Rendered, RenderError, render}

pub data DiscoverError : Type 0 where
  unknown_credentials : List String → DiscoverError
  unresolved_reference : String → DiscoverError
  directory_failed : String → String → DiscoverError
  no_targets : DiscoverError
  -- A KeyError of `config.credentials`
  missing_credential : DiscoverError
  target_error : TargetError → DiscoverError
  -- The error of `render`
  render_failed : RenderError → DiscoverError

-- `_REF.search(text)`
unfoldable pub has_reference : String → Bool
unfolding reference_at
has_reference String.[] = false
has_reference (String.◌∷◌ c s) = is_some (reference_at (String.◌∷◌ c s)) || has_reference s

-- `[c for c in credentials if c not in config.credentials]`
unfoldable pub unknown_of : Config → List String → List String
unfolding lookup
unknown_of c = filter (λ name. not (is_some (lookup name c.credentials)))

-- The loop over `s.targets`
unfoldable pub check_targets : List String → Try DiscoverError (Unit {0})
unfolding has_reference
check_targets [] = done tt
check_targets (spec ∷ specs) =
    raise_if (has_reference spec) (DiscoverError.unresolved_reference spec) >> check_targets specs

-- The settings with the targets and the credentials of the call, where there are some
unfoldable pub settings_of :
    Config → List String → List String → Try DiscoverError DiscoverySettings
unfolding unknown_of check_targets
settings_of c targets credentials =
    let s : DiscoverySettings =
      if filled targets then record c.discovery { targets = targets } else c.discovery in
    let unknown = if filled credentials then unknown_of c credentials else [] in
    raise_if (filled unknown) (DiscoverError.unknown_credentials unknown)
    >> (check_targets s.targets
        >> done (if filled credentials then record s { credentials = credentials } else s))

pub record Discovered : Type 0 where
  pub settings : DiscoverySettings
  pub hosts : List String
  pub findings : List HostFinding
  pub rendered : Rendered
  pub scanned : ℕ
  pub responses : ℕ
  pub retired : List String
  pub directory_used : Bool
  pub skipped : List Skipped
  pub no_response : List String

-- The keys of `auth_failures`
abbrev pub lockable : Offers → List String
lockable offers =
    offers for_winrm
    ++ offers for_ssh
    ++ offers for_truenas
    ++ offers for_proxmox
    ++ offers for_vsphere
    ++ offers for_homeassistant
    ++ offers for_unifi
    ++ offers for_technitium

-- The keys of `dir_info`
unfoldable pub names_of : List DirectoryComputer → List String
unfolding distinct_texts
names_of computers = distinct_texts [] (map (λ (c : DirectoryComputer). c.name) computers)

-- `fetch` is `fetch_computers_async` with the credential that it is called with, `scan` is `scan_host` of a
-- new `Discoverer`, and `failures` its `auth_failures` after the run.
module _ (lib : IpAddress) (digits : ℕ → String)
    (fetch : DirectorySettings → Try String (List DirectoryComputer × List Skipped))
    (scan : DiscoverySettings → Offers → String → HostFinding) (failures : String → ℕ) where
  -- `Discoverer.run`
  unfoldable pub run : DiscoverySettings → Offers → List String → List HostFinding
  unfolding responded
  run s offers hosts = filter responded (map (scan s offers) hosts)

  unfoldable pub ask_directory :
      Bool → DiscoverySettings → Try DiscoverError (List DirectoryComputer × List Skipped)
  ask_directory use_directory s = if not use_directory then done ([], []) else elim s.directory [
    | none ↦ done ([], [])
    | some d ↦ elim (fetch d) [
      | raised err ↦ raised (DiscoverError.directory_failed d.server err)
      | done answer ↦ done answer
    ]
  ]

  unfoldable pub hosts_of : DiscoverySettings → List String → Try DiscoverError (List String)
  unfolding expand_targets
  hosts_of s all = elim (expand_targets lib all s.exclude s.max_hosts) [
    | raised err ↦ raised (DiscoverError.target_error err)
    | done hosts ↦ done hosts
  ]

  unfoldable pub offers_of : Config → DiscoverySettings → Try DiscoverError Offers
  unfolding named_credentials of_kind
  offers_of c s = elim (named_credentials c s.credentials) [
    | none ↦ raised DiscoverError.missing_credential
    | some creds ↦ done (of_kind creds)
  ]

  -- The answer of `discover`
  unfoldable pub report :
      DiscoverySettings
      → List String
      → List Skipped
      → List String
      → List HostFinding
      → Offers
      → Rendered
      → Discovered
  report s names skipped hosts findings offers rendered =
      let answered = map (λ (f : HostFinding). f.address) findings in
      record {
        settings = s;
        hosts = hosts;
        findings = findings;
        rendered = rendered;
        scanned = length hosts;
        responses = length findings;
        retired =
            filter (λ cred. leb s.max_auth_failures (failures cred))
              (distinct_texts [] (lockable offers));
        directory_used = filled names;
        skipped = skipped;
        no_response = filter (λ n. not (contains n answered)) names;
      }

  -- From `config.model_copy` on
  unfoldable pub render_found :
      (Monitor → Bool) → Config → DiscoverySettings → List HostFinding → Try DiscoverError Rendered
  unfolding render
  render_found loads c s findings =
      elim (render digits loads (record c { discovery = s }) findings) [
        | raised e ↦ raised (DiscoverError.render_failed e)
        | done rendered ↦ done rendered
      ]

  unfoldable pub discover :
      (Monitor → Bool) → Config → List String → List String → Bool → Try DiscoverError Discovered
  unfolding settings_of ask_directory names_of hosts_of offers_of run render_found report
  discover loads c targets credentials use_directory = settings_of c targets credentials >>= λ s.
      ask_directory use_directory s >>= λ answer.
      raise_if (not (filled (s.targets ++ names_of answer.0))) DiscoverError.no_targets
      >> (hosts_of s (s.targets ++ names_of answer.0) >>= λ hosts. offers_of c s >>= λ offers.
          render_found loads c s (run s offers hosts) >>= λ rendered.
          done (report s (names_of answer.0) answer.1 hosts (run s offers hosts) offers rendered))
