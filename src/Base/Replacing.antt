-- ===== src/Base/Replacing.antt =====
-- Python's `s.replace(old, new)`, `s.startswith(prefix)` and `s in text`.
use Prim.Native.Nat.{ℕ, zero, suc, ◌-◌}
use Prim.Native.Char.{code}
use Prim.Native.String.{String}
use mathlib.Core.Bool.{Bool, true, false, ◌&&◌, ◌||◌}
use ip_montior.Base.Tests.{if◌then◌else◌, ◌==◌}
use ip_montior.Base.Text.{◌<>◌}

-- `text.startswith(prefix)`, with the prefix first
unfoldable pub begins : String → String → Bool
begins String.[] text = true
begins (String.◌∷◌ c p) String.[] = false
begins (String.◌∷◌ c p) (String.◌∷◌ d text) = (code c == code d) && begins p text

-- `part in text`
unfoldable pub occurs : String → String → Bool
unfolding begins
occurs part String.[] = begins part String.[]
occurs part (String.◌∷◌ c text) = begins part (String.◌∷◌ c text) || occurs part text

abbrev pub characters : String → ℕ
characters String.[] = 0
characters (String.◌∷◌ c s) = suc (characters s)

-- The scan for a text that is not empty; the number says how many characters of a match are left.
unfoldable pub scan : String → String → ℕ → String → String
unfolding begins
scan old new n String.[] = String.[]
scan old new (suc n) (String.◌∷◌ c s) = scan old new n s
scan old new zero (String.◌∷◌ c s) =
    let skipped = scan old new (characters old - 1) s in
    let kept = scan old new zero s in
    if begins old (String.◌∷◌ c s) then new <> skipped else String.◌∷◌ c kept

-- The empty text stands in front of every character and at the end.
unfoldable pub spread : String → String → String
spread new String.[] = new
spread new (String.◌∷◌ c s) = new <> String.◌∷◌ c (spread new s)

unfoldable pub replace : String → String → String → String
unfolding scan spread
replace String.[] new s = spread new s
replace (String.◌∷◌ c old) new s = scan (String.◌∷◌ c old) new 0 s
