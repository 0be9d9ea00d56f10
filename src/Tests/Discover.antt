-- ===== src/Tests/Discover.antt =====
-- A discovery of four addresses of which one responds, and one of a target with a reference.
use ip_montior.Config.Types.{Monitor}
use ip_montior.Base.{
  Bool, true, has_char, strip, cut_last, lower, ℕ, String, true, str_eq, List, [], ◌∷◌, Try, done,
  raised, ◌≡◌, refl,
}
use ip_montior.Config.Types.{DiscoverySettings}
use ip_montior.Discovery.Finding.{HostFinding}
use ip_montior.Discovery.Scan.{Offers}
use ip_montior.Discovery.Targets.{one, of_range, range_end, count_up}
use ip_montior.Discovery.Discover.{DiscoverError, Discovered, discover}
use ip_montior.Discovery.Discover.Settings.{Fetch}
use ip_montior.Discovery.Proposals.Services.{propose}
use ip_montior.Discovery.Proposals.{host_part, fallback}
use ip_montior.Config.Slug.{slug}
use ip_montior.Tests.Sample.{lab}
use ip_montior.Tests.Proposals.{quiet, marks}
use ip_montior.Tests.Discovery.{three, wanted}

abbrev empty_directory : Fetch
empty_directory d = done ([], [])

abbrev scanned : DiscoverySettings → Offers → String → HostFinding
scanned s offers address = record quiet { address = address; icmp = str_eq address "router" }

abbrev no_failures : String → ℕ
no_failures cred = 0

abbrev all_load : Monitor → Bool
all_load m = true

abbrev hosts_found : Try DiscoverError Discovered → List String × ℕ × ℕ
hosts_found (done r) = (r.hosts, r.scanned, r.responses)
hosts_found (raised e) = ([], 0, 0)

one_responds :
    hosts_found
      (discover three marks empty_directory scanned no_failures all_load lab wanted [] true)
    ≡ ("10.0.0.1" ∷ "10.0.0.2" ∷ "10.0.0.3" ∷ "router" ∷ [], 4, 1)
unfolding discover one has_char strip of_range range_end cut_last count_up lower propose host_part
    fallback slug
one_responds = refl

refused :
    discover three marks empty_directory scanned no_failures all_load lab ("${HOST}" ∷ []) [] true
    ≡ raised (DiscoverError.unresolved_reference "${HOST}")
unfolding discover
refused = refl
