-- ===== src/Config/Slug.antt =====
-- watchpost/config.py: `MonitorBase.slug`, and `_slug` of watchpost/discovery.py, which is the same.
use Prim.Native.Char.{Char, code}
use ip_montior.Base.{String, Bool, true, false, ◌||◌, ◌&&◌, if◌then◌else◌, leb, ◌==◌, lower}

-- `[a-z0-9]`
abbrev pub is_word : Char → Bool
is_word c = (leb b'a' (code c) && leb (code c) b'z') || (leb b'0' (code c) && leb (code c) b'9')

-- `re.sub(r"[^a-z0-9]+", "-", s)`; the flag says that the run of other characters goes on.
unfoldable pub squash : Bool → String → String
squash inside String.[] = String.[]
squash inside (String.◌∷◌ c s) =
    let word = String.◌∷◌ c (squash false s) in
    let rest = squash true s in
    if is_word c then word else if inside then rest else String.◌∷◌ "-" rest

-- `s.strip("-")`, from the left and from the right
unfoldable pub strip_left : String → String
strip_left String.[] = String.[]
strip_left (String.◌∷◌ c s) =
    let rest = strip_left s in if code c == b'-' then rest else String.◌∷◌ c s

abbrev pub unless_last : Char → String → String
unless_last c String.[] = if code c == b'-' then String.[] else String.◌∷◌ c String.[]
unless_last c (String.◌∷◌ d s) = String.◌∷◌ c (String.◌∷◌ d s)

unfoldable pub strip_right : String → String
strip_right String.[] = String.[]
strip_right (String.◌∷◌ c s) = unless_last c (strip_right s)

unfoldable pub slug : String → String
unfolding squash strip_left strip_right
slug name = strip_right (strip_left (squash false (lower name)))
