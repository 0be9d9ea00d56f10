-- ===== src/Tests/Maintenance.antt =====
-- A round of maintenance for one monitor that wants a forecast.
use ip_montior.Base.{
  ℕ, ◌*◌, ◌/◌, true, [], ◌∷◌, none, some, pos, ℤ, lookup, Memᴰ, ◌≡◌, refl, sym, ◌∙◌, arith,
}
use ip_montior.Check.{Result}
use ip_montior.Config.Types.{Monitor, Config}
use ip_montior.Config.Valid.{HasTellingSlugs}
use ip_montior.Store.{Store, ResultRow, hour}
use ip_montior.Scheduler.{enabled_monitors}
use ip_montior.Scheduler.Maintenance.{refresh_forecasts, maintain}
use ip_montior.Scheduler.Maintenance.Laws.{renewed, maintain_lem}
use ip_montior.Tests.Sample.{with_monitors, ping_monitor}
use ip_montior.Tests.Forecast.{integers, texts, limits}

abbrev trended : Monitor
trended = record (ping_monitor "Disk" "disk" "lab" [] true) {
  thresholds = some limits;
  forecast = true;
}

abbrev alone : Config
alone = with_monitors (trended ∷ [])

alone-HasTellingSlugs : HasTellingSlugs (enabled_monitors alone)
unfolding enabled_monitors
alone-HasTellingSlugs a b (Memᴰ.head e) (Memᴰ.head f) same = e ∙ sym f
alone-HasTellingSlugs a b (Memᴰ.head e) (Memᴰ.tail f) same = elim f [ ]
alone-HasTellingSlugs a b (Memᴰ.tail e) at same = elim e [ ]

abbrev row : ℕ → ResultRow
row n = record {
  monitor = "disk";
  ts = n * hour;
  result = Result.ok;
  value = some (pos (n * 3600));
  latency_ms = none;
  message = "";
}

abbrev rows : Store
rows = record { results = row 2 ∷ row 1 ∷ row 0 ∷ []; events = [] }

abbrev seconds : ℕ → ℤ
seconds n = pos (n / 1000000)

abbrev week : ℤ → ℕ
week n = 7

present : Memᴰ trended (enabled_monitors alone)
unfolding enabled_monitors
present = Memᴰ.head refl

maintain_lem_example :
    let (after, kept, removed) = maintain integers texts seconds week alone (2 * hour) ([], rows) in
    (lookup "disk" after ≡ renewed integers texts seconds week alone (2 * hour) rows trended none)
    × (refresh_forecasts integers texts seconds week alone kept (2 * hour) [] ≡ after)
unfolding lookup
maintain_lem_example =
    maintain_lem integers texts seconds week alone (2 * hour) rows [] trended alone-HasTellingSlugs
      present (omega arith)
