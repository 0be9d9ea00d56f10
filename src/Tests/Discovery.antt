-- ===== src/Tests/Discovery.antt =====
-- Scans of two hosts, and lists of targets.
use ip_montior.Base.{
  ◌+◌, ◌≤◌, String, ◌&&◌, not, List, [], ◌∷◌, none, some, ◌≡◌, ◌≢◌, refl, str_eq, Try, Memᴰ, length,
  contains, has_char, cut_last, cut_first, strip, lower, if◌then◌else◌, ◌==◌,
}
use ip_montior.Discovery.Lockout.{Scan, Seeker, Outcome, ScanStep, Reachable, fresh, seek}
use ip_montior.Discovery.Lockout.Safety.{in_flight, unproven_bounded}
use ip_montior.Discovery.Targets.{
  IpAddress, expand_targets, exclusions, one, one_of, of_range, range_end, add_targets,
  add_addresses, count_up,
}
use ip_montior.Discovery.Targets.Laws.{
  expand_targets_lem, expand_targets-ne-done, Expansion, Distinct,
}

abbrev arrived : Scan
arrived = record { accounts = fresh.accounts; seekers = Seeker.choosing ("admin" ∷ []) ∷ [] }

abbrev asked : Scan
asked = record {
  accounts = fresh.accounts;
  seekers = (seek 1 Outcome.failed fresh.accounts (Seeker.choosing ("admin" ∷ []))).1 ∷ [];
}

abbrev begun : Scan
begun = record {
  accounts = (seek 1 Outcome.failed asked.accounts (Seeker.waiting "admin" [])).0;
  seekers = (seek 1 Outcome.failed asked.accounts (Seeker.waiting "admin" [])).1 ∷ [];
}

begun-Reachable : Reachable 1 fresh begun
unfolding seek fresh
begun-Reachable =
    Reachable.next
      (Reachable.next (Reachable.next Reachable.here (ScanStep.arrive ("admin" ∷ []) refl))
        (ScanStep.advance [] (Seeker.choosing ("admin" ∷ [])) [] Outcome.failed refl refl))
      (ScanStep.advance [] (Seeker.waiting "admin" []) [] Outcome.failed refl refl)

under_way : in_flight "admin" begun.seekers ≡ 1
unfolding seek fresh
under_way = refl

unproven_bounded_example :
    (in_flight "admin" begun.seekers ≤ 1)
    × ((begun.accounts "admin").failures + in_flight "admin" begun.seekers ≤ 1)
unfolding seek fresh
unproven_bounded_example = unproven_bounded 1 begun "admin" begun-Reachable refl

-- An address library that knows three addresses.
abbrev pub three : IpAddress
three = record {
  network = λ s. none;
  address = λ s.
      if str_eq s "10.0.0.1"
      then some (record { version = 4; number = 1 })
      else if str_eq s "10.0.0.3"
      then some (record { version = 4; number = 3 })
      else none;
  text = λ a. if a.number == 1 then "10.0.0.1" else "10.0.0.3";
  show = λ n.
      if n == 1
      then some "10.0.0.1"
      else if n == 2
      then some "10.0.0.2"
      else if n == 3
      then some "10.0.0.3"
      else none;
}

abbrev pub wanted : List String
wanted = " 10.0.0.1-3 " ∷ "Router" ∷ "10.0.0.1" ∷ []

abbrev pub found : List String
found = "10.0.0.1" ∷ "10.0.0.2" ∷ "router" ∷ []

wanted_hosts : expand_targets three wanted ("10.0.0.3" ∷ []) 16 ≡ Try.done found
unfolding expand_targets exclusions add_targets add_addresses one one_of of_range count_up has_char
    strip cut_first range_end cut_last lower
wanted_hosts = refl

expand_targets_lem_example :
    (excluded : List String) × (all : List String) × (exclusions three ("10.0.0.3" ∷ [])
      ≡ Try.done excluded)
    × Expansion three wanted all
    × Distinct found
    × (length found ≤ 16)
    × ((a : String) → contains a found ≡ (contains a all && not (contains a excluded)))
expand_targets_lem_example = expand_targets_lem three wanted ("10.0.0.3" ∷ []) 16 found wanted_hosts

expand_targets-ne-done_example :
    expand_targets three ("web-01.lab.example" ∷ []) [] 16 ≢ Try.done []
unfolding strip has_char cut_first
expand_targets-ne-done_example =
    expand_targets-ne-done three ("web-01.lab.example" ∷ []) [] 16 [] "web-01.lab.example" "web"
      "01.lab.example" (Memᴰ.head refl) refl refl refl
