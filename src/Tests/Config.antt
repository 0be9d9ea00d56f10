-- ===== src/Tests/Config.antt =====
-- Validation of the sample configuration.
use ip_montior.Base.{◌≢◌, true, [], ◌∷◌, ◌≡◌, refl, done, raised, lookup, insert}
use ip_montior.Config.Types.{Config}
use ip_montior.Config.Graph.{Colours, DependencyError, resolve_monitor, parents, check_dependencies}
use ip_montior.Config.Sound.{IsAcyclic, check_dependencies-IsAcyclic}
use ip_montior.Config.Rounds.{check_dependencies-ends}
use ip_montior.Config.References.{
  validate, references, for_each, unique_names, check_monitor, check_forecast, check_basic_auth,
  in_order,
}
use ip_montior.Config.Modes.{mode_args, credential_of}
use ip_montior.Config.Valid.{IsValid, validate-IsValid}
use ip_montior.Tests.Sample.{lab, with_monitors, ping_monitor}

abbrev finished : Colours
finished = ("switch", 2) ∷ ("server", 2) ∷ ("probe", 2) ∷ []

lab_passes : check_dependencies lab ≡ done finished
unfolding check_dependencies parents resolve_monitor lookup insert
lab_passes = refl

check_dependencies-ends_example : check_dependencies lab ≢ raised DependencyError.too_deep
check_dependencies-ends_example = check_dependencies-ends lab

check_dependencies-IsAcyclic_example : IsAcyclic lab
check_dependencies-IsAcyclic_example = check_dependencies-IsAcyclic lab finished lab_passes

abbrev looped : Config
looped =
    with_monitors
      (ping_monitor "A" "a" "g" ("B" ∷ []) true ∷ ping_monitor "B" "b" "g" ("A" ∷ []) true ∷ [])

looped_raises : check_dependencies looped ≡ raised (DependencyError.cycle ("a" ∷ "b" ∷ "a" ∷ []))
unfolding check_dependencies parents resolve_monitor lookup insert
looped_raises = refl

pub lab_loads : validate lab ≡ done tt
unfolding validate references for_each in_order unique_names check_monitor check_forecast
    check_basic_auth mode_args credential_of check_dependencies parents resolve_monitor lookup
    insert
lab_loads = refl

validate-IsValid_example : IsValid lab
validate-IsValid_example = validate-IsValid lab lab_loads
