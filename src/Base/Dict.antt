-- ===== src/Base/Dict.antt =====
-- Python's `dict` with text keys, as an association list.
use Prim.Native.String.{String}
use mathlib.Core.Path.{◌≡◌, refl}
use mathlib.Core.Option.{Option, none, some}
use mathlib.Core.List.{List, [], ◌∷◌}
use native.Mathlib.Omega.{arith}
use text.Mathlib.Text.{◌==◌ as str_eq}
use text.Mathlib.TextEquality.{eq_iff}
use ip_montior.Base.Tests.{if◌then◌else◌}

module _ {ℓ} {Value : Type ℓ} where
  -- `d.get(name)`
  unfoldable pub lookup : String → List (String × Value) → Option Value
  lookup name [] = none
  lookup name ((key, value) ∷ entries) = if str_eq key name then some value else lookup name entries

  -- `d[name] = new`: a key that is there keeps its place, and a new one goes to the end.
  unfoldable pub insert : String → Value → List (String × Value) → List (String × Value)
  insert name new [] = (name, new) ∷ []
  insert name new ((key, value) ∷ entries) =
      if str_eq key name then (key, new) ∷ entries else (key, value) ∷ insert name new entries

  pub lookup-insert :
      (name asked : String) (new : Value) (entries : List (String × Value))
      → lookup asked (insert name new entries)
        ≡ (if str_eq name asked then some new else lookup asked entries)
  unfolding lookup insert
  lookup-insert name asked new [] = refl
  lookup-insert name asked new ((key, value) ∷ entries) =
      let rest = lookup-insert name asked new entries in
      ground (arith, rest, eq_iff key name, eq_iff key asked, eq_iff name asked)
