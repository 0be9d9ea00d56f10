-- ===== src/Forecast/Laws.antt =====
-- When watchpost/forecast.py gives a date.
use ip_montior.Base.{
  ltb, String, Bool, true, false, ◌&&◌, ◌||◌, not, if◌then◌else◌, List, Option, none, some, ℤ,
  is_some, length, ◌≡◌, ◌↔◌, ◌⊎◌, inl, inr, refl, arith, Bool-cases,
}
use ip_montior.Check.{Thresholds, Direction}
use ip_montior.Config.Types.{ForecastSettings}
use ip_montior.Forecast.{
  Arithmetic, Fit, Forecast, ForecastStatus, Crossing, Texts, least_squares, crossing, result_of,
  date_of, reached, turns_away, value_at, is_already, is_future, horizon_of, conclude, after_fit,
  project, early, lt,
}

abbrev pub Dated : ForecastStatus → Type 0
Dated status = (status ≡ ForecastStatus.projected) ⊎ (status ≡ ForecastStatus.already_crossed)

either {ℓ} : {X : Type ℓ} (P : X → Type 0) (b : Bool) (x y : X) → P x → P y → P (if b then x else y)
either P true x y px py = px
either P false x y px py = py

abbrev is_dated : ForecastStatus → Bool
is_dated ForecastStatus.projected = true
is_dated ForecastStatus.already_crossed = true
is_dated ForecastStatus.not_trending = false
is_dated ForecastStatus.beyond_horizon = false
is_dated ForecastStatus.insufficient_data = false

undated_lem :
    (b : Bool) (status : ForecastStatus)
    → b ≡ false
    → is_dated status ≡ false
    → (b ≡ true) ↔ Dated status
undated_lem b status undated h = (
  λ dated. absurd (ground (arith, undated, dated)),
  λ dated. absurd (elim dated [ inl e ↦ ground (arith, e, h) | inr e ↦ ground (arith, e, h) ]),
)

module _ {F : Type 0} (a : Arithmetic F) where
  abbrev pub Within : F → Option F → Type 0
  Within horizon none = Unit
  Within horizon (some at) = a.le at horizon ≡ true

  abbrev Result? : Type 0
  Result? = Option (Crossing × Option F)

  -- A result that is already past its level has the date of now.
  abbrev IsResult : F → Result? → Type 0
  IsResult now none = Unit
  IsResult now (some (Crossing.already, at)) = at ≡ some now
  IsResult now (some (Crossing.never, at)) = at ≡ none
  IsResult now (some (Crossing.future, at)) = Unit

  result_of-IsResult :
      (fit : Fit F) (d : Direction) (now : F) (level : Option ℤ)
      → IsResult now (result_of a fit d now level)
  unfolding result_of crossing
  result_of-IsResult fit d now none = tt
  result_of-IsResult fit d now (some level) =
      let P : Crossing × Option F → Type 0 = λ p. IsResult now (some p) in
      let b = a.div fit.slope_per_day (a.whole 86400) in
      let ahead : Crossing × Option F =
        (Crossing.future, some (a.div (a.sub (a.reading level) fit.intercept) b)) in
      let moving : Crossing × Option F =
        if turns_away a d b then (Crossing.never, none) else ahead in
      either P (reached a d (a.reading level) (value_at a fit now)) (Crossing.already, some now)
        moving refl (either P (turns_away a d b) (Crossing.never, none) ahead refl tt)

  pick_at :
      (b : Bool) (horizon at : F)
      → a.le at horizon ≡ b
      → Within horizon (if b then some at else none)
  pick_at true horizon at h = h
  pick_at false horizon at h = tt

  date_of-Within : (horizon : F) (r : Result?) → Within horizon (date_of a horizon r)
  unfolding date_of
  date_of-Within horizon none = tt
  date_of-Within horizon (some (kind, none)) = tt
  date_of-Within horizon (some (Crossing.never, some at)) = tt
  date_of-Within horizon (some (Crossing.already, some at)) =
      pick_at (a.le at horizon) horizon at refl
  date_of-Within horizon (some (Crossing.future, some at)) =
      pick_at (a.le at horizon) horizon at refl

  already_dated :
      (now horizon : F) (r : Result?)
      → a.le now horizon ≡ true
      → IsResult now r
      → is_already a r ≡ true
      → is_some (date_of a horizon r) ≡ true
  unfolding date_of
  already_dated now horizon none ahead result h = absurd (ground (arith, h))
  already_dated now horizon (some (Crossing.never, at)) ahead result h = absurd (ground (arith, h))
  already_dated now horizon (some (Crossing.future, at)) ahead result h = absurd (ground (arith, h))
  already_dated now horizon (some (Crossing.already, at)) ahead result h = rw (result, ahead) refl

  module _ (t : Texts F) (cfg : ForecastSettings) (now : F)
      (ahead : a.le now (horizon_of a cfg now) ≡ true) where
    abbrev IsHonest : Forecast F → Type 0
    IsHonest out =
        ((is_some out.warn_at || is_some out.crit_at ≡ true) ↔ Dated out.status)
        × Within (horizon_of a cfg now) out.warn_at
        × Within (horizon_of a cfg now) out.crit_at

    conclude-IsHonest :
        (fit : Fit F) (warn crit : Result?)
        → IsResult now warn
        → IsResult now crit
        → IsHonest (conclude a t cfg now fit warn crit)
    unfolding conclude
    conclude-IsHonest fit warn crit past_warn past_crit =
        let dated_warn = already_dated now (horizon_of a cfg now) warn ahead past_warn in
        let dated_crit = already_dated now (horizon_of a cfg now) crit ahead past_crit in
        let within_warn = date_of-Within (horizon_of a cfg now) warn in
        let within_crit = date_of-Within (horizon_of a cfg now) crit in
        elim (Bool-cases (is_already a warn || is_already a crit)) [
          | inl past ↦ (
            rw past (λ _. inr refl, λ _. ground (arith, past, dated_warn, dated_crit)),
            rw past within_warn,
            rw past within_crit,
          )
          | inr open_one ↦
              elim (Bool-cases (
                is_some (date_of a (horizon_of a cfg now) warn)
                || is_some (date_of a (horizon_of a cfg now) crit))) [
                  | inl dated ↦ (
                    rw (open_one, dated) (λ _. inl refl, λ _. dated),
                    rw (open_one, dated) within_warn,
                    rw (open_one, dated) within_crit,
                  )
                  | inr undated ↦ elim (Bool-cases (is_future a warn || is_future a crit)) [
                    | inl beyond ↦ (
                      rw (open_one, undated, beyond)
                          (undated_lem _ ForecastStatus.beyond_horizon undated refl),
                      rw (open_one, undated, beyond) within_warn,
                      rw (open_one, undated, beyond) within_crit,
                    )
                    | inr flat ↦ (
                      rw (open_one, undated, flat)
                          (undated_lem _ ForecastStatus.not_trending undated refl),
                      rw (open_one, undated, flat) within_warn,
                      rw (open_one, undated, flat) within_crit,
                    )
                  ]
                ]
        ]

    early-IsHonest : (reason : String) → IsHonest (early a reason now)
    early-IsHonest reason = (undated_lem false ForecastStatus.insufficient_data refl refl, tt, tt)

    after_fit-IsHonest :
        (th : Thresholds) (fit : Option (Fit F)) → IsHonest (after_fit a t th cfg now fit)
    unfolding after_fit
    after_fit-IsHonest th none = early-IsHonest (t.short_span (a.whole 0) cfg.min_span_hours)
    after_fit-IsHonest th (some fit) =
        let warn = result_of a fit th.direction now th.warn in
        let crit = result_of a fit th.direction now th.crit in
        either IsHonest (lt a fit.span_hours (a.setting cfg.min_span_hours))
          (early a (t.short_span fit.span_hours cfg.min_span_hours) now)
          (conclude a t cfg now fit warn crit)
          (early-IsHonest (t.short_span fit.span_hours cfg.min_span_hours))
          (conclude-IsHonest fit warn crit (result_of-IsResult fit th.direction now th.warn)
            (result_of-IsResult fit th.direction now th.crit))

    -- If the horizon is not in the past: a forecast has a date exactly when its status is projected or
    -- already_crossed, and no date is after the horizon.
    pub project_lem :
        (points : List (F × F)) (th : Thresholds)
        → ((is_some (project a t points th cfg now).warn_at
                || is_some (project a t points th cfg now).crit_at
              ≡ true)
            ↔ Dated (project a t points th cfg now).status)
          × Within (horizon_of a cfg now) (project a t points th cfg now).warn_at
          × Within (horizon_of a cfg now) (project a t points th cfg now).crit_at
    unfolding project
    project_lem points th =
        let fitted = after_fit a t th cfg now (least_squares a points) in
        let few = early a (t.few_points (length points) cfg.min_points) now in
        let counted : Forecast F = if ltb (length points) cfg.min_points then few else fitted in
        either IsHonest (not (is_some th.warn) && not (is_some th.crit))
          (early a "no thresholds to project to" now) counted
          (early-IsHonest "no thresholds to project to")
          (either IsHonest (ltb (length points) cfg.min_points) few fitted
            (early-IsHonest (t.few_points (length points) cfg.min_points))
            (after_fit-IsHonest th (least_squares a points)))
