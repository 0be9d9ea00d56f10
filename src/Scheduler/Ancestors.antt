-- ===== src/Scheduler/Ancestors.antt =====
-- watchpost/scheduler.py: `_ancestors`, the monitors that a monitor depends on at any distance.
use ip_montior.Base.{
  ℕ, zero, suc, ◌+◌, String, Bool, ◌||◌, not, if◌then◌else◌, List, [], ◌∷◌, ◌++◌, length, contains,
}
use mathlib.Core.List.{reverse}
use ip_montior.Config.Types.{Monitor, Config}
use ip_montior.Config.Graph.{parents}

-- The loop of `_ancestors`, on fuel. The top of the stack is the head of the list, so
-- `stack.extend(l)` puts the reverse of `l` in front. Slugs are unique, so the stack holds
-- monitors for their slugs, and `s not in self.by_slug` asks whether one is disabled.
unfoldable pub collect : ℕ → Config → List Monitor → List String → List String
collect zero c stack seen = seen
collect (suc fuel) c [] seen = seen
collect (suc fuel) c (s ∷ stack) seen =
    let skip = collect fuel c stack seen in
    let go = collect fuel c (reverse (parents c s) ++ stack) (s.slug ∷ seen) in
    if contains s.slug seen || not s.enabled then skip else go

-- The number of dependencies that the configuration states.
unfoldable pub edges : Config → List Monitor → ℕ
edges c [] = 0
edges c (m ∷ ms) = length (parents c m) + edges c ms

unfoldable pub ancestors : Config → Monitor → List String
unfolding collect edges
ancestors c m =
    collect (suc (length (parents c m) + edges c c.monitors)) c (reverse (parents c m)) []

-- `monitor.slug in self._ancestors(child.slug)`
unfoldable pub is_ancestor : Config → Monitor → Monitor → Bool
unfolding ancestors
is_ancestor c m child = contains m.slug (ancestors c child)
