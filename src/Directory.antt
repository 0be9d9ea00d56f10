-- ===== src/Directory.antt =====
-- watchpost/directory.py: which computer accounts of a directory are scanned. A search entry is read
-- as the attributes that the code asks for; times are microseconds since 1601.
pub mod Laws
use text.Mathlib.Text.{find?, is_le}
use Prim.Native.String.{compare}
use ip_montior.Base.{
  Try, done, raised, ◌>>=◌, ℕ, ◌*◌, ◌-◌, ◌/◌, ◌%◌, String, Bool, true, false, ◌&&◌, ◌||◌, not,
  if◌then◌else◌, List, [], ◌∷◌, Option, none, some, str_eq, ltb, ◌==◌, ℤ, pos, negsuc, any, map,
  is_some, lower,
}
use ip_montior.Config.Types.{DirectorySettings}

-- What stands in `lastLogonTimestamp`, out of its list: nothing, a date, a number, or words with the
-- number that `int` reads in them, if any.
pub data Logon : Type 0 where
  missing : Logon
  date : ℕ → Logon
  ticks : ℤ → Logon
  words : Option ℤ → Logon

-- The OverflowError of a date after the year 9999
pub data DirectoryError : Type 0 where
  date_out_of_range : DirectoryError

-- The last microsecond of the year 9999
abbrev pub last_date : ℕ
last_date = 265046774399999999

abbrev from_ticks : ℤ → Try DirectoryError (Option ℕ)
from_ticks (pos n) =
    if n == 0
    then done none
    else if ltb last_date (n / 10)
    then raised DirectoryError.date_out_of_range
    else done (some (n / 10))
from_ticks (negsuc n) = done none

-- `_as_datetime`
unfoldable pub as_datetime : Logon → Try DirectoryError (Option ℕ)
as_datetime Logon.missing = done none
as_datetime (Logon.date d) = done (some d)
as_datetime (Logon.ticks n) = from_ticks n
as_datetime (Logon.words none) = done none
as_datetime (Logon.words (some n)) = from_ticks n

pub record Entry : Type 0 where
  pub type : Option String
  pub dns_host_name : Option String
  pub operating_system : Option String
  pub operating_system_version : Option String
  pub user_account_control : ℕ
  pub last_logon : Logon
  pub dn : String

pub record DirectoryComputer : Type 0 where
  pub name : String
  pub os : Option String
  pub os_version : Option String
  pub last_logon : ℕ
  pub dn : String

pub data Reason : Type 0 where
  account_disabled : Reason
  no_recorded_logon : Reason
  stale : Reason
  os_not_included : Option String → Reason

pub record Skipped : Type 0 where
  pub name : String
  pub reason : Reason

-- `uac & UAC_ACCOUNTDISABLE`, whose value is 2
abbrev pub disabled : Entry → Bool
disabled e = (e.user_account_control / 2) % 2 == 1

abbrev pub or_empty : Option String → String
or_empty none = ""
or_empty (some s) = s

-- `wanted and not any(...)`, negated
unfoldable pub os_wanted : List String → Option String → Bool
os_wanted [] os = true
os_wanted (w ∷ wanted) os = any (λ x. is_some (find? (lower (or_empty os)) x)) (w ∷ wanted)

pub data Verdict : Type 0 where
  ignored : Verdict
  skip : Skipped → Verdict
  keep : DirectoryComputer → Verdict

abbrev pub is_result : Entry → Bool
is_result e = elim e.type [ none ↦ true | some t ↦ str_eq t "searchResEntry" ]

-- The body of the loop over the entries, once the time of the last logon has been read.
unfoldable pub judge_account : DirectorySettings → ℕ → Entry → Option ℕ → Verdict
unfolding os_wanted
judge_account s now e logon =
    let name = lower (or_empty e.dns_host_name) in
    if disabled e && not s.include_disabled
    then Verdict.skip (record { name = name; reason = Reason.account_disabled })
    else elim logon [
      | none ↦ Verdict.skip (record { name = name; reason = Reason.no_recorded_logon })
      | some last ↦
          if ltb last (now - s.stale_days * 86400000000)
          then Verdict.skip (record { name = name; reason = Reason.stale })
          else if not (os_wanted (map lower s.os_include) e.operating_system)
          then Verdict.skip
              (record { name = name; reason = Reason.os_not_included e.operating_system })
          else Verdict.keep (record {
            name = name;
            os = e.operating_system;
            os_version = e.operating_system_version;
            last_logon = last;
            dn = e.dn;
          })
    ]

-- The body of the loop over the entries.
unfoldable pub judge : DirectorySettings → ℕ → Entry → Try DirectoryError Verdict
unfolding as_datetime judge_account
judge s now e =
    if not (is_result e) || str_eq (lower (or_empty e.dns_host_name)) ""
    then done Verdict.ignored
    else elim (as_datetime e.last_logon) [
      | raised err ↦ raised err
      | done logon ↦ done (judge_account s now e logon)
    ]

-- `keep.sort(key=lambda c: c.name)`, by the characters' numbers.
unfoldable pub insert_computer : DirectoryComputer → List DirectoryComputer → List DirectoryComputer
insert_computer c [] = c ∷ []
insert_computer c (d ∷ ds) =
    if is_le (compare c.name d.name) then c ∷ d ∷ ds else d ∷ insert_computer c ds

-- What the loop has collected, with one entry more
unfoldable pub collect :
    Verdict → List DirectoryComputer × List Skipped → List DirectoryComputer × List Skipped
unfolding insert_computer
collect Verdict.ignored (kept, skipped) = (kept, skipped)
collect (Verdict.skip k) (kept, skipped) = (kept, k ∷ skipped)
collect (Verdict.keep c) (kept, skipped) = (insert_computer c kept, skipped)

-- `fetch_computers`, of the entries that the search returns.
unfoldable pub fetch_computers :
    DirectorySettings → ℕ → List Entry → Try DirectoryError (List DirectoryComputer × List Skipped)
unfolding judge collect
fetch_computers s now [] = done ([], [])
fetch_computers s now (e ∷ entries) = judge s now e >>= λ verdict.
    fetch_computers s now entries >>= λ found. done (collect verdict found)
