-- ===== src/Scheduler/Maintenance.antt =====
-- watchpost/scheduler.py: `refresh_forecasts`, `_maintenance` and the pause of `_loop`.
pub mod Laws
use ip_montior.Base.{
  ℕ, ◌+◌, ◌-◌, ◌*◌, ◌≤◌, ◌<◌, String, Bool, true, false, if◌then◌else◌, ltb, List, [], ◌∷◌, Option,
  none, some, map, lookup, insert, lookup-insert, Memᴰ, ℤ, ◌≡◌, refl, sym, ◌∙◌, ap, arith, str_eq,
  eq_iff,
}
use ip_montior.Check.{Thresholds}
use ip_montior.Config.Kinds.{Kind}
use ip_montior.Config.Types.{Monitor, Config, ForecastSettings}
use ip_montior.Config.Valid.{HasTellingSlugs}
use ip_montior.Store.{Store, Bucket, hourly_series, hourly, window, prune}
use ip_montior.Store.Laws.{prune_lem}
use ip_montior.Net.{tls_thresholds}
use ip_montior.Forecast.{Arithmetic, Forecast, Texts, project}
use ip_montior.Scheduler.{enabled_monitors}

-- `self.checks[m.slug].thresholds()`
unfoldable pub thresholds_of : Monitor → Option Thresholds
thresholds_of m = elim m.kind [
  | Kind.tls_cert args ↦ tls_thresholds m.thresholds
  | _ ↦ m.thresholds
]

-- `sleep(max(1.0, interval - elapsed))`, in the clock's units
unfoldable pub pause : ℕ → ℕ → ℕ → ℕ
pause second interval elapsed =
    if ltb (interval - elapsed) second then second else interval - elapsed

-- `seconds` is a time of the clock, and `days_of` the setting `lookback_days`. The calls of one round
-- read one clock.
module _ {F : Type 0} (a : Arithmetic F) (t : Texts F) (seconds : ℕ → F) (days_of : ℤ → ℕ) where
  -- What `hourly_series` returns for a row: the middle of the hour and the mean
  abbrev pub point_of : Bucket → F × F
  point_of b = (
    a.add (a.mul (a.whole b.hour_index) (a.whole 3600)) (a.whole 1800),
    a.div (a.reading b.total) (a.whole b.count),
  )

  unfoldable pub forecast_of : Config → Store → ℕ → Monitor → Thresholds → Forecast F
  unfolding hourly_series project
  forecast_of c s now m th =
      project a t (map point_of (hourly_series m.slug (days_of c.forecast.lookback_days) now s)) th
        c.forecast (seconds now)

  -- The body of the loop of `refresh_forecasts`
  unfoldable pub refresh_one :
      Config → Store → ℕ → Monitor → List (String × Forecast F) → List (String × Forecast F)
  unfolding forecast_of thresholds_of
  refresh_one c s now m forecasts =
      if m.forecast
      then elim (thresholds_of m) [
        | none ↦ forecasts
        | some th ↦ insert m.slug (forecast_of c s now m th) forecasts
      ]
      else forecasts

  unfoldable pub refresh_from :
      Config → Store → ℕ → List Monitor → List (String × Forecast F) → List (String × Forecast F)
  unfolding refresh_one
  refresh_from c s now [] forecasts = forecasts
  refresh_from c s now (m ∷ ms) forecasts =
      refresh_from c s now ms (refresh_one c s now m forecasts)

  -- `refresh_forecasts`
  unfoldable pub refresh_forecasts :
      Config → Store → ℕ → List (String × Forecast F) → List (String × Forecast F)
  unfolding refresh_from
  refresh_forecasts c s now forecasts = refresh_from c s now (enabled_monitors c) forecasts

  -- One round of `_maintenance`: the forecasts, the store, and how many rows went
  unfoldable pub maintain :
      Config → ℕ → List (String × Forecast F) × Store → List (String × Forecast F) × Store × ℕ
  unfolding refresh_forecasts prune
  maintain c now (forecasts, s) =
      let pruned = prune c.server.retention_days now s in
      (refresh_forecasts c s now forecasts, pruned.0, pruned.1)
