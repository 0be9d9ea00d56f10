-- ===== src/Base/Cutting.antt =====
-- Python's text methods that look at single characters. Spaces and capitals are those of ASCII.
use Prim.Native.Nat.{ℕ, ◌-◌}
use Prim.Native.Char.{Char, code}
use Prim.Native.String.{String, char_at}
use mathlib.Core.Bool.{Bool, false, ◌||◌, ◌&&◌}
use mathlib.Core.Option.{Option, none, some}
use ip_montior.Base.Tests.{if◌then◌else◌, leb, ◌==◌}

-- `"x" in s`, for the character with the code
unfoldable pub has_char : ℕ → String → Bool
has_char n String.[] = false
has_char n (String.◌∷◌ c s) = (code c == n) || has_char n s

abbrev onto : Char → Option (String × String) → Option (String × String)
onto c none = none
onto c (some (left, right)) = some (String.◌∷◌ c left, right)

-- `s.split("x", 1)`, when the character is there
unfoldable pub cut_first : ℕ → String → Option (String × String)
cut_first n String.[] = none
cut_first n (String.◌∷◌ c s) = if code c == n then some (String.[], s) else onto c (cut_first n s)

-- `s.rsplit("x", 1)`, when the character is there
unfoldable pub cut_last : ℕ → String → Option (String × String)
cut_last n String.[] = none
cut_last n (String.◌∷◌ c s) = elim (cut_last n s) [
  | some (left, right) ↦ some (String.◌∷◌ c left, right)
  | none ↦ if code c == n then some (String.[], s) else none
]

abbrev is_space : ℕ → Bool
is_space n = (n == 32) || (leb 9 n && leb n 13) || (leb 28 n && leb n 31)

unfoldable pub lstrip : String → String
lstrip String.[] = String.[]
lstrip (String.◌∷◌ c s) = let rest = lstrip s in if is_space (code c) then rest else String.◌∷◌ c s

abbrev keep_right : Char → String → String
keep_right c String.[] = if is_space (code c) then String.[] else String.◌∷◌ c String.[]
keep_right c (String.◌∷◌ d s) = String.◌∷◌ c (String.◌∷◌ d s)

unfoldable pub rstrip : String → String
rstrip String.[] = String.[]
rstrip (String.◌∷◌ c s) = keep_right c (rstrip s)

-- `s.strip()`
unfoldable pub strip : String → String
unfolding lstrip rstrip
strip s = rstrip (lstrip s)

abbrev pub is_upper : ℕ → Bool
is_upper n = leb b'A' n && leb n b'Z'

abbrev lower_char : Char → Char
lower_char c = if is_upper (code c) then char_at "abcdefghijklmnopqrstuvwxyz" (code c - b'A') else c

-- `s.lower()`
unfoldable pub lower : String → String
lower String.[] = String.[]
lower (String.◌∷◌ c s) = String.◌∷◌ (lower_char c) (lower s)
