-- ===== src/Tests/Windows.antt =====
-- A quoted name with an apostrophe, and an account that has no ticket yet.
use ip_montior.Base.{String, Bool, false, none, some, ◌<>◌, ◌≡◌, refl}
use ip_montior.Windows.{ps_quote}
use ip_montior.Windows.Quoting.{read_literal, is_straight, read_literal-ps_quote}
use ip_montior.Windows.Kerberos.{Kinit, Tickets}

read_literal-ps_quote_example :
    (body : String) × (ps_quote "O'Hara" <> " -ErrorAction Stop" ≡ String.◌∷◌ "'" body)
    × (read_literal none body ≡ some ("O'Hara", " -ErrorAction Stop"))
unfolding is_straight
read_literal-ps_quote_example = read_literal-ps_quote "O'Hara" " -ErrorAction Stop" refl refl

abbrev path : String → String → String
path principal keytab = "cache"

abbrev no_file : String → Bool
no_file name = false

abbrev never_run : String → String → Kinit
never_run keytab principal = Kinit.not_run "kinit"

abbrev no_tickets : Tickets
no_tickets principal keytab = none
