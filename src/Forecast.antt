-- ===== src/Forecast.antt =====
-- watchpost/forecast.py: the trend line and the date at which it meets a threshold. The arithmetic of
-- Python's floats is a parameter. A reason is a text of a fit or of numbers, by functions of Texts.
pub mod Laws
use ip_montior.Base.{
  ℕ, zero, suc, String, Bool, true, false, ◌&&◌, ◌||◌, not, if◌then◌else◌, List, [], ◌∷◌, Option,
  none, some, ltb, map, length, ℤ, is_some,
}
use ip_montior.Check.{Thresholds, Direction}
use ip_montior.Config.Types.{ForecastSettings}

-- What the code uses of floats. `reading` and `setting` are the values of the fixed-point numbers of
-- thresholds and settings.
pub record Arithmetic (F : Type 0) : Type 0 where
  pub add : F → F → F
  pub sub : F → F → F
  pub mul : F → F → F
  pub div : F → F → F
  pub le : F → F → Bool
  pub same : F → F → Bool
  pub whole : ℕ → F
  pub reading : ℤ → F
  pub setting : ℤ → F
  pub round4 : F → F

pub record Fit (F : Type 0) : Type 0 where
  pub slope_per_day : F
  pub intercept : F
  pub r2 : F
  pub n : ℕ
  pub span_hours : F
  pub last_value : F

pub data ForecastStatus : Type 0 where
  projected not_trending beyond_horizon already_crossed insufficient_data : ForecastStatus

pub data Confidence : Type 0 where
  normal low : Confidence

pub record Forecast (F : Type 0) : Type 0 where
  pub status : ForecastStatus
  pub reason : String
  pub warn_at : Option F
  pub crit_at : Option F
  pub confidence : Option Confidence
  pub fit : Option (Fit F)
  pub computed_at : F

-- The kinds of `_crossing`
pub data Crossing : Type 0 where
  already never future : Crossing

pub record Texts (F : Type 0) : Type 0 where
  pub few_points : ℕ → ℕ → String
  pub short_span : F → ℤ → String
  pub trend : Fit F → String
  pub past : Fit F → String
  pub beyond : ℤ → Fit F → String
  pub flat : Fit F → String

module _ {F : Type 0} (a : Arithmetic F) where
  -- `sum(xs)`
  abbrev sum_from : F → List F → F
  sum_from acc [] = acc
  sum_from acc (x ∷ xs) = sum_from (a.add acc x) xs

  unfoldable pub sum : List F → F
  sum = sum_from (a.whole 0)

  abbrev square : F → F
  square x = a.mul x x

  abbrev last : F → List F → F
  last x [] = x
  last x (y ∷ ys) = last y ys

  abbrev larger : F → F → F
  larger x y = if a.le x y then y else x

  -- `least_squares`; the points are pairs of a time and a value.
  unfoldable pub least_squares : List (F × F) → Option (Fit F)
  unfolding sum
  least_squares [] = none
  least_squares (p ∷ []) = none
  least_squares (p ∷ q ∷ more) =
      let points : List (F × F) = p ∷ q ∷ more in
      let n = length points in
      let t0 = p.0 in
      let centred : List (F × F) = map (λ r. (a.sub r.0 t0, r.1)) points in
      let mt = a.div (sum (map (λ r. r.0) centred)) (a.whole n) in
      let mv = a.div (sum (map (λ r. r.1) centred)) (a.whole n) in
      let sxx = sum (map (λ r. square (a.sub r.0 mt)) centred) in
      let sxy = sum (map (λ r. a.mul (a.sub r.0 mt) (a.sub r.1 mv)) centred) in
      let b = a.div sxy sxx in
      let a_centred = a.sub mv (a.mul b mt) in
      let ss_tot = sum (map (λ r. square (a.sub r.1 mv)) centred) in
      let ss_res = sum (map (λ r. square (a.sub r.1 (a.add a_centred (a.mul b r.0)))) centred) in
      let r2 =
        if a.same ss_tot (a.whole 0)
        then a.whole 1
        else larger (a.whole 0) (a.sub (a.whole 1) (a.div ss_res ss_tot)) in
      if a.same sxx (a.whole 0)
      then none
      else some (record {
        slope_per_day = a.mul b (a.whole 86400);
        intercept = a.sub a_centred (a.mul b t0);
        r2 = a.round4 r2;
        n = n;
        span_hours =
            a.div (a.sub (last (a.sub p.0 t0) (map (λ r. r.0) centred)) (a.sub p.0 t0))
              (a.whole 3600);
        last_value = last p.1 (map (λ r. r.1) centred);
      })

  -- `Fit.value_at`
  unfoldable pub value_at : Fit F → F → F
  value_at fit ts = a.add fit.intercept (a.mul (a.div fit.slope_per_day (a.whole 86400)) ts)

  abbrev rising : Direction → Bool
  rising Direction.above = true
  rising Direction.below = false

  abbrev pub lt : F → F → Bool
  lt x y = a.le x y && not (a.same x y)

  -- The tests of `_crossing` on the present value and on the slope
  abbrev pub reached : Direction → F → F → Bool
  reached d level current =
      (rising d && a.le level current) || (not (rising d) && a.le current level)

  abbrev pub turns_away : Direction → F → Bool
  turns_away d b =
      a.same b (a.whole 0) || (rising d && lt b (a.whole 0)) || (not (rising d) && lt (a.whole 0) b)

  -- `_crossing`
  unfoldable pub crossing : Fit F → F → Direction → F → Crossing × Option F
  unfolding value_at
  crossing fit level direction now =
      let current = value_at fit now in
      let b = a.div fit.slope_per_day (a.whole 86400) in
      if reached direction level current
      then (Crossing.already, some now)
      else if turns_away direction b
      then (Crossing.never, none)
      else (Crossing.future, some (a.div (a.sub level fit.intercept) b))

  -- `results[name]`, for a level that may be `None`
  unfoldable pub result_of : Fit F → Direction → F → Option ℤ → Option (Crossing × Option F)
  unfolding crossing
  result_of fit direction now none = none
  result_of fit direction now (some level) = some (crossing fit (a.reading level) direction now)

  -- The date that is set for a result: one of a crossing that is not after the horizon
  unfoldable pub date_of : F → Option (Crossing × Option F) → Option F
  date_of horizon none = none
  date_of horizon (some (kind, none)) = none
  date_of horizon (some (Crossing.never, some at)) = none
  date_of horizon (some (Crossing.already, some at)) = if a.le at horizon then some at else none
  date_of horizon (some (Crossing.future, some at)) = if a.le at horizon then some at else none

  abbrev pub is_already : Option (Crossing × Option F) → Bool
  is_already (some (Crossing.already, at)) = true
  is_already (some (Crossing.never, at)) = false
  is_already (some (Crossing.future, at)) = false
  is_already none = false

  abbrev pub is_future : Option (Crossing × Option F) → Bool
  is_future (some (Crossing.future, at)) = true
  is_future (some (Crossing.never, at)) = false
  is_future (some (Crossing.already, at)) = false
  is_future none = false

  abbrev pub early : String → F → Forecast F
  early reason now = record {
    status = ForecastStatus.insufficient_data;
    reason = reason;
    warn_at = none;
    crit_at = none;
    confidence = none;
    fit = none;
    computed_at = now;
  }

  -- `horizon`
  unfoldable pub horizon_of : ForecastSettings → F → F
  horizon_of cfg now = a.add now (a.mul (a.setting cfg.horizon_days) (a.whole 86400))

  -- The part of `project` after the fit, of both results
  unfoldable pub conclude :
      Texts F
      → ForecastSettings
      → F
      → Fit F
      → Option (Crossing × Option F)
      → Option (Crossing × Option F)
      → Forecast F
  unfolding date_of horizon_of
  conclude t cfg now fit warn crit =
      let horizon = horizon_of cfg now in
      let out : Forecast F = record {
        status = ForecastStatus.not_trending;
        reason = t.flat fit;
        warn_at = date_of horizon warn;
        crit_at = date_of horizon crit;
        confidence =
            some (if a.le (a.setting cfg.min_r2) fit.r2 then Confidence.normal else Confidence.low);
        fit = some fit;
        computed_at = now;
      } in
      if is_already warn || is_already crit
      then record out { status = ForecastStatus.already_crossed; reason = t.past fit }
      else if is_some out.warn_at || is_some out.crit_at
      then record out { status = ForecastStatus.projected; reason = t.trend fit }
      else if is_future warn || is_future crit
      then record out {
        status = ForecastStatus.beyond_horizon;
        reason = t.beyond cfg.horizon_days fit;
      }
      else out

  -- The part of `project` from the fit on
  unfoldable pub after_fit :
      Texts F → Thresholds → ForecastSettings → F → Option (Fit F) → Forecast F
  unfolding result_of conclude
  after_fit t th cfg now none = early (t.short_span (a.whole 0) cfg.min_span_hours) now
  after_fit t th cfg now (some fit) =
      if lt fit.span_hours (a.setting cfg.min_span_hours)
      then early (t.short_span fit.span_hours cfg.min_span_hours) now
      else conclude t cfg now fit (result_of fit th.direction now th.warn)
          (result_of fit th.direction now th.crit)

  -- `project`, at the time `now`
  unfoldable pub project : Texts F → List (F × F) → Thresholds → ForecastSettings → F → Forecast F
  unfolding least_squares after_fit
  project t points th cfg now =
      if not (is_some th.warn) && not (is_some th.crit)
      then early "no thresholds to project to" now
      else if ltb (length points) cfg.min_points
      then early (t.few_points (length points) cfg.min_points) now
      else after_fit t th cfg now (least_squares points)
