-- ===== src/Web.antt =====
-- watchpost/web.py: who may read, and the text of the metrics.
pub mod Access
pub mod Labels
use Prim.Native.Char.{Char, code}
use Prim.Native.String.{slice, len}
use text.Mathlib.Text.{starts_with}
use ip_montior.Base.{
  ℕ, String, Bool, true, false, ◌&&◌, if◌then◌else◌, List, [], ◌∷◌, Option, none, some, str_eq,
  ◌==◌, ◌<>◌, cut_first, lower, truthy?,
}
use ip_montior.State.{State}

-- `s.replace(...)` of one character by two
unfoldable pub double : ℕ → Char → Char → String → String
double n a b String.[] = String.[]
double n a b (String.◌∷◌ c s) =
    let rest = double n a b s in
    if code c == n then String.◌∷◌ a (String.◌∷◌ b rest) else String.◌∷◌ c rest

-- `_label`
unfoldable pub label : String → String
unfolding double
label value = double b'\n' "\\" "n" (double b'"' "\\" "\"" (double b'\\' "\\" "\\" value))

abbrev pub or_empty : Option String → String
or_empty none = ""
or_empty (some s) = s

-- `text.partition(":")`, without the middle
abbrev pub credentials_of : String → String × String
credentials_of text = elim (cut_first b':' text) [ none ↦ (text, "") | some pair ↦ pair ]

-- `auth`: whether it returns. `decode` is base64 and UTF-8, `none` a ValueError of either.
unfoldable pub auth :
    (String → Option String) → Option String → Option String → Option String → Bool
auth decode user pw authorization =
    if truthy? user
    then (let header = or_empty authorization in
        if starts_with (lower header) "basic "
        then elim (decode (slice header 6 (len header))) [
          | none ↦ false
          | some text ↦
              let (u, p) = credentials_of text in str_eq u (or_empty user) && str_eq p (or_empty pw)
        ]
        else false)
    else true
