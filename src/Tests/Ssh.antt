-- ===== src/Tests/Ssh.antt =====
-- A container that restarted, a summary with one stopped container, and a reboot.
use ip_montior.Base.{
  if◌then◌else◌, ℕ, String, List, [], ◌∷◌, Option, none, some, ◌≡◌, str_eq, refl, pos, strip,
  cut_first, cut_last,
}
use ip_montior.Check.{passed, failed, Result, Thresholds}
use ip_montior.Ssh.{
  Ran, ContainerState, parse_container, Line, read_line, survey, problem, drop_slashes,
}
use ip_montior.Ssh.Linux.{disk, load, command}
use ip_montior.Store.{round_div}

abbrev number : ℕ → String
number n = "n"

abbrev fine : List String → Ran
fine lines = record { rc = 0; out = lines; err = [] }

abbrev running : ContainerState
running = record { status = some "running"; health = none; exit_code = some 0 }

abbrev json : String → Option ContainerState
json s = some running

abbrev int : String → Option ℕ
int s = if str_eq s "4" then some 4 else none

abbrev quoted : String → String
quoted s = s

parsed : parse_container json int "{}|4\n" ≡ some (running, 4)
unfolding parse_container strip cut_last
parsed = refl

abbrev lines : List Line
lines =
    read_line "/web|running|always|healthy"
    ∷ read_line "/db|exited|always|"
    ∷ read_line "/job|exited|no|"
    ∷ []

abbrev no_thresholds : Option Thresholds
no_thresholds = none

one_problem : (survey lines).0 ≡ "db exited (restart=always)" ∷ []
unfolding survey read_line problem drop_slashes cut_first
one_problem = refl

abbrev df_row : List String
df_row = "/dev/sda1" ∷ "100" ∷ "42" ∷ "58" ∷ "42%" ∷ "/srv" ∷ []

other_mount :
    (disk number
        (λ w. some (pos 42))
        (λ w. some 58)
        (λ z n. "t")
        "/data"
        (fine ("h" ∷ "r" ∷ []))
        df_row
      ≡ some (failed "/data is not a mount point (df reports /srv)"))
    × ((load number (λ a b c. "t") (fine ("l" ∷ "4" ∷ [])) 150 4).value ≡ some (pos 375))
    × ((command number (λ z. "z") (fine []) none "x").result ≡ Result.fail)
unfolding disk load command failed passed round_div
other_mount = (refl, refl, refl)
