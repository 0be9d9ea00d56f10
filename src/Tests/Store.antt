-- ===== src/Tests/Store.antt =====
-- A table with four polls of one monitor and one of another.
use ip_montior.Base.{
  length, ◌+ℤ◌, ℕ, ◌+◌, ◌*◌, String, none, some, [], ◌∷◌, ◌≡◌, refl, pos, Option, ℤ,
}
use ip_montior.Check.{Result}
use ip_montior.Store.{
  Store, ResultRow, window, in_window, availability, hourly_series, hour, add_value, usable, hourly,
  round_div,
}
use ip_montior.Store.Series.{
  hourly_series-IsSeries, IsSeries, count_at, total_at, hour_values, sum_ℤ,
}

abbrev poll : String → ℕ → Result → Option ℤ → ResultRow
poll monitor ts result value = record {
  monitor = monitor;
  ts = ts;
  result = result;
  value = value;
  latency_ms = none;
  message = "m";
}

abbrev table : Store
table = record {
  results =
      poll "disk" (50 * hour + 9) Result.ok (some (pos 7))
      ∷ poll "ping" (50 * hour + 5) Result.fail none
      ∷ poll "disk" (50 * hour + 1) Result.fail (some (pos 6))
      ∷ poll "disk" (49 * hour + 2) Result.ok (some (pos 5))
      ∷ poll "disk" (49 * hour + 1) Result.warn (some (pos 3))
      ∷ [];
  events = [];
}

seventy_five_percent : availability "disk" 24 (51 * hour) table ≡ some 75000
unfolding availability window in_window round_div
seventy_five_percent = refl

two_hours :
    hourly_series "disk" 1 (51 * hour) table
    ≡ record { hour_index = 49; total = pos 8; count = 2 }
      ∷ record { hour_index = 50; total = pos 7; count = 1 }
      ∷ []
unfolding hourly_series hourly usable add_value window in_window ◌+ℤ◌
two_hours = refl

hourly_series-IsSeries_example :
    IsSeries (hourly_series "disk" 1 (51 * hour) table)
    × (count_at 49 (hourly_series "disk" 1 (51 * hour) table)
        ≡ length (hour_values "disk" 1 (51 * hour) 49 table.results))
    × (total_at 49 (hourly_series "disk" 1 (51 * hour) table)
        ≡ sum_ℤ (hour_values "disk" 1 (51 * hour) 49 table.results))
hourly_series-IsSeries_example = hourly_series-IsSeries "disk" 1 (51 * hour) 49 table
