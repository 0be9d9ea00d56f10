-- ===== src/Config/Graph.antt =====
-- watchpost/config.py: dependencies between monitors, and their validation.
use ip_montior.Base.{
  length, ℕ, zero, suc, String, Option, none, some, ◌||◌, if◌then◌else◌, List, [], ◌∷◌, ◌++◌,
  str_eq, Try, done, raised, ◌>>=◌, ◌>>◌, raise_if, lookup, insert, ◌==◌,
}
use ip_montior.Config.Types.{Monitor, Config}

pub data DependencyError : Type 0 where
  unknown_parent : String → String → DependencyError
  depends_on_itself : String → DependencyError
  cycle : List String → DependencyError
  -- the model's own: the recursion of `visit` met its bound
  too_deep : DependencyError

-- The loop of `Config.resolve_monitor`: the first monitor of that name or slug.
unfoldable pub find_monitor : String → List Monitor → Option Monitor
find_monitor ref [] = none
find_monitor ref (m ∷ ms) =
    if str_eq ref m.name || str_eq ref m.slug then some m else find_monitor ref ms

unfoldable pub resolve_monitor : Config → String → Option Monitor
unfolding find_monitor
resolve_monitor c ref = find_monitor ref c.monitors

-- The comprehension of `Config.parents`: what does not resolve is left out.
unfoldable pub resolve_all : Config → List String → List Monitor
resolve_all c [] = []
resolve_all c (ref ∷ refs) = elim (resolve_monitor c ref) [
  | none ↦ resolve_all c refs
  | some p ↦ p ∷ resolve_all c refs
]

unfoldable pub parents : Config → Monitor → List Monitor
unfolding resolve_all
parents c mon = resolve_all c mon.depends_on

-- The first loop of `_check_dependencies`. Slugs are unique, so `parent is mon` compares slugs.
unfoldable pub check_refs : Config → Monitor → List String → Try DependencyError (Unit {0})
check_refs c mon [] = done tt
check_refs c mon (ref ∷ refs) = elim (resolve_monitor c ref) [
  | none ↦ raised (unknown_parent mon.name ref)
  | some p ↦
      (raise_if (str_eq p.slug mon.slug) (depends_on_itself mon.name) >> check_refs c mon refs)
]

unfoldable pub check_all_refs : Config → List Monitor → Try DependencyError (Unit {0})
unfolding check_refs
check_all_refs c [] = done tt
check_all_refs c (m ∷ ms) = check_refs c m m.depends_on >> check_all_refs c ms

-- 1 is a monitor on the current path, 2 one that is finished, and no entry one not yet met.
abbrev pub Colours : Type 0
Colours = List (String × ℕ)

abbrev pub colour_of : Colours → String → ℕ
colour_of colours s = elim (lookup s colours) [ none ↦ 0 | some k ↦ k ]

-- `for parent in parents: visit(parent, path)`
unfoldable pub visit_all :
    (Monitor → Colours → Try DependencyError Colours)
    → List Monitor
    → Colours
    → Try DependencyError Colours
visit_all visit [] colours = done colours
visit_all visit (p ∷ ps) colours = visit p colours >>= λ next. visit_all visit ps next

-- `visit`, on fuel: a path of parents that goes on has no slug twice, so it is no longer than the
-- list of monitors.
unfoldable pub visit : Config → ℕ → List String → Monitor → Colours → Try DependencyError Colours
unfolding visit_all
visit c zero path mon colours = raised too_deep
visit c (suc fuel) path mon colours =
    let below =
      visit_all (visit c fuel (path ++ mon.slug ∷ [])) (parents c mon)
        (insert mon.slug 1 colours) in
    if colour_of colours mon.slug == 1
    then raised (cycle (path ++ mon.slug ∷ []))
    else if colour_of colours mon.slug == 2
    then done colours
    else (below >>= λ next. done (insert mon.slug 2 next))

-- `_check_dependencies`: the references, then the search for a cycle from every monitor.
unfoldable pub check_dependencies : Config → Try DependencyError Colours
unfolding check_all_refs visit_all visit
check_dependencies c =
    check_all_refs c c.monitors >> visit_all (visit c (suc (length c.monitors)) []) c.monitors []
