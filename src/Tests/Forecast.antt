-- ===== src/Tests/Forecast.antt =====
-- A value that grows by one a second and meets its warning threshold in less than an hour. Whole
-- numbers stand for the floats.
use ip_montior.Base.{
  ◌+◌, ◌*◌, ◌/◌, true, ◌&&◌, ◌||◌, List, [], ◌∷◌, none, some, ℤ, pos, ◌+ℤ◌, leb_ℤ, pos_part,
  neg_part, sub_ℕ, is_some, ◌≡◌, ◌↔◌, refl,
}
use ip_montior.Check.{Thresholds, Direction}
use ip_montior.Config.Types.{ForecastSettings}
use ip_montior.Forecast.{
  Arithmetic, Forecast, Texts, project, horizon_of, least_squares, sum, value_at, crossing,
  result_of, date_of, conclude, after_fit,
}
use ip_montior.Forecast.Laws.{Dated, Within, project_lem}

abbrev negated : ℤ → ℤ
negated n = sub_ℕ (neg_part n) (pos_part n)

abbrev product : ℤ → ℤ → ℤ
product m n =
    sub_ℕ (pos_part m * pos_part n + neg_part m * neg_part n)
      (pos_part m * neg_part n + neg_part m * pos_part n)

-- Towards zero, by a number that is not negative
abbrev quotient : ℤ → ℤ → ℤ
quotient m n = sub_ℕ (pos_part m / pos_part n) (neg_part m / pos_part n)

abbrev pub integers : Arithmetic ℤ
integers = record {
  add = λ m n. m +ℤ n;
  sub = λ m n. m +ℤ negated n;
  mul = product;
  div = quotient;
  le = leb_ℤ;
  same = λ m n. leb_ℤ m n && leb_ℤ n m;
  whole = pos;
  reading = λ n. n;
  setting = λ n. n;
  round4 = λ n. n;
}

abbrev pub texts : Texts ℤ
texts = record {
  few_points = λ n m. "few points";
  short_span = λ n m. "short span";
  trend = λ fit. "trend";
  past = λ fit. "past";
  beyond = λ n fit. "beyond";
  flat = λ fit. "flat";
}

abbrev settings : ForecastSettings
settings = record {
  lookback_days = pos 14;
  min_points = 3;
  min_span_hours = pos 2;
  horizon_days = pos 90;
  min_r2 = pos 1;
}

abbrev pub limits : Thresholds
limits = record { direction = Direction.above; warn = some (pos 10000); crit = none }

abbrev points : List (ℤ × ℤ)
points = (pos 0, pos 0) ∷ (pos 3600, pos 3600) ∷ (pos 7200, pos 7200) ∷ []

abbrev outlook : Forecast ℤ
outlook = project integers texts points limits settings (pos 7200)

warned : outlook.warn_at ≡ some (pos 10000)
unfolding project least_squares sum value_at crossing result_of date_of conclude after_fit
    horizon_of ◌+ℤ◌
warned = refl

in_future : leb_ℤ (pos 7200) (horizon_of integers settings (pos 7200)) ≡ true
unfolding horizon_of ◌+ℤ◌
in_future = refl

project_lem_example :
    ((is_some outlook.warn_at || is_some outlook.crit_at ≡ true) ↔ Dated outlook.status)
    × Within integers (horizon_of integers settings (pos 7200)) outlook.warn_at
    × Within integers (horizon_of integers settings (pos 7200)) outlook.crit_at
project_lem_example = project_lem integers texts settings (pos 7200) in_future points limits
