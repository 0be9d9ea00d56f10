-- ===== src/Tests/Platforms.antt =====
-- An alert below the configured level, a login that the server refuses by an error, and a storage without
-- a size.
use ip_montior.Base.{
  ℕ, String, true, false, List, [], ◌∷◌, none, some, ℤ, any, done, ◌≡◌, ◌↔◌, refl,
}
use ip_montior.Check.{Result}
use ip_montior.Config.Kinds.{
  ApiTarget, TrueNasMonitor, TrueNasMode, AlertLevel, ProxmoxMonitor, ProxmoxMode,
}
use ip_montior.Platforms.TrueNas.{Event, Login, NasAlert, floor_of, alerts_check, probe}
use ip_montior.Platforms.TrueNas.Laws.{undismissed, alerts_check_lem, left_open}
use ip_montior.Platforms.Proxmox.{Item, storage_check}

abbrev number : ℕ → String
number n = "n"

abbrev printed : ℤ → String
printed n = "n"

abbrev cut : String → String
cut s = s

abbrev notice : NasAlert
notice = record {
  level = some "NOTICE";
  dismissed = false;
  formatted = some "scrub finished";
  klass = none;
}

abbrev noticed : List NasAlert
noticed = notice ∷ record notice { level = some "CRITICAL" } ∷ []

alerts_check_lem_example :
    (((alerts_check number printed number cut AlertLevel.warning noticed).result ≡ Result.fail)
      ↔ (any (undismissed 4) noticed ≡ true))
    × (((alerts_check number printed number cut AlertLevel.warning noticed).result ≡ Result.ok)
        ↔ (any (undismissed (floor_of AlertLevel.warning)) noticed ≡ false))
alerts_check_lem_example = alerts_check_lem number printed number cut AlertLevel.warning noticed

abbrev target : ApiTarget
target = record {
  host = "nas";
  credential = "nas";
  verify_tls = true;
  ca_bundle = none;
  port = 443;
}

abbrev nas : TrueNasMonitor
nas = record {
  target = target;
  mode = TrueNasMode.pools;
  pool = none;
  min_alert_level = AlertLevel.warning;
}

abbrev refusal : List (Event Login)
refusal =
    Event.message (record { id = none; error = none; result = Login.empty })
    ∷ Event.message (record {
      id = some 1;
      error = some (record { message = some "Rate limit"; reason = "" });
      result = Login.empty;
    })
    ∷ []

socket_stays : left_open (probe number printed number cut nas (done refusal) [] []).1 ≡ true
unfolding probe
socket_stays = refl

abbrev local : Item
local = record {
  type = some "storage";
  node = some "pve";
  status = some "available";
  name = none;
  vmid = none;
  hastate = none;
  storage = some "local";
  cpu = none;
  mem = none;
  maxmem = none;
  disk = some 0;
  maxdisk = some 0;
  uptime = none;
}

abbrev pve : ProxmoxMonitor
pve = record {
  target = target;
  mode = ProxmoxMode.storage;
  node = none;
  guest = none;
  storage = some "local";
}

abbrev nothing : Item → String
nothing i = ""

no_result : storage_check number printed nothing nothing pve (local ∷ []) ≡ none
unfolding storage_check
no_result = refl
