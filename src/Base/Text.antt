-- ===== src/Base/Text.antt =====
-- Text that Python builds with `+` and f-strings.
use Prim.Native.String.{String, ◌++◌}
use mathlib.Core.Bool.{Bool, not}
use mathlib.Core.Option.{Option, none, some}
use text.Mathlib.Text.{◌==◌ as str_eq}

infixr 65 ◌<>◌
abbrev pub ◌<>◌ : String → String → String
s <> t = s ++ t

-- `bool(s)` and `bool(o)` for a text that may be `None`
abbrev pub truthy : String → Bool
truthy s = not (str_eq s "")

abbrev pub truthy? : Option String → Bool
truthy? none = Bool.false
truthy? (some s) = truthy s
