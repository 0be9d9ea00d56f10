-- ===== src/Tests/Directory.antt =====
-- Three accounts: one in use, one disabled, one that never logged on.
use ip_montior.Base.{
  done, raised, lower, ℕ, String, false, List, [], ◌∷◌, none, some, ◌≡◌, refl, pos,
}
use ip_montior.Config.Types.{DirectorySettings}
use ip_montior.Directory.{
  DirectoryError, judge_account, collect, Entry, Logon, Reason, fetch_computers, judge, as_datetime,
  os_wanted, insert_computer,
}

abbrev settings : DirectorySettings
settings = record {
  server = "dc.lab.example";
  port = 636;
  credential = "ldap";
  base_dn = "DC=lab";
  ca_bundle = none;
  stale_days = 60;
  os_include = "Windows" ∷ [];
  include_disabled = false;
}

abbrev account : String → ℕ → Logon → Entry
account name control last = record {
  type = some "searchResEntry";
  dns_host_name = some name;
  operating_system = some "Windows Server 2022";
  operating_system_version = none;
  user_account_control = control;
  last_logon = last;
  dn = "CN=x";
}

abbrev accounts : List Entry
accounts =
    account "PC.lab" 4096 (Logon.date 8640000000000)
    ∷ account "old.lab" 4098 (Logon.date 8640000000000)
    ∷ account "new.lab" 4096 (Logon.ticks (pos 0))
    ∷ account "" 4096 Logon.missing
    ∷ []

one_computer :
    fetch_computers settings 8640000000001 accounts
    ≡ done (
      record {
        name = "pc.lab";
        os = some "Windows Server 2022";
        os_version = none;
        last_logon = 8640000000000;
        dn = "CN=x";
      }
          ∷ [],
      record { name = "old.lab"; reason = Reason.account_disabled }
          ∷ record { name = "new.lab"; reason = Reason.no_recorded_logon }
          ∷ [],
    )
unfolding fetch_computers judge judge_account collect as_datetime os_wanted insert_computer lower
one_computer = refl

-- A tick count beyond the year 9999
no_date :
    as_datetime (Logon.ticks (pos 9223372036854775807)) ≡ raised DirectoryError.date_out_of_range
unfolding as_datetime
no_date = refl
