-- ===== src/Scheduler/Maintenance/Laws.antt =====
-- What a round of `_maintenance` leaves behind.
use ip_montior.Base.{
  subst, ℕ, ◌*◌, ◌≤◌, String, Bool, true, false, if◌then◌else◌, List, [], ◌∷◌, Option, none, some,
  map, any, All, lookup, insert, lookup-insert, Memᴰ, ℤ, ◌≡◌, refl, sym, ◌∙◌, ap, arith, str_eq,
  eq_iff, Bool-cases, Option-cases, inl, inr,
}
use ip_montior.Check.{Thresholds}
use ip_montior.Config.Types.{Monitor, Config}
use ip_montior.Config.Valid.{HasTellingSlugs}
use ip_montior.Store.{Store, hourly_series, hourly, prune}
use ip_montior.Store.Laws.{prune_lem}
use ip_montior.Forecast.{Arithmetic, Forecast, Texts, project}
use ip_montior.Scheduler.{enabled_monitors}
use ip_montior.Scheduler.Maintenance.{
  thresholds_of, point_of, forecast_of, refresh_one, refresh_from, refresh_forecasts, maintain,
}

-- The monitors with the slug of `m` are `m`.
abbrev Agree : Monitor → List Monitor → Type 0
Agree m = All (λ x. str_eq x.slug m.slug ≡ true → x ≡ m)

unique-Agree :
    (m : Monitor) (all ms : List Monitor)
    → HasTellingSlugs all
    → Memᴰ m all
    → ((x : Monitor) → Memᴰ x ms → Memᴰ x all)
    → Agree m ms
unique-Agree m all [] distinct there within = tt
unique-Agree m all (x ∷ ms) distinct there within = (
  λ e. distinct x m (within x (Memᴰ.head refl)) there ((eq_iff x.slug m.slug).0 e),
  unique-Agree m all ms distinct there (λ y h. within y (Memᴰ.tail h)),
)

any_slug : (m : Monitor) (ms : List Monitor) → Memᴰ m ms → any (λ x. str_eq x.slug m.slug) ms ≡ true
any_slug m [] x' = elim x' [ ]
any_slug m (x ∷ ms) (Memᴰ.head e) =
    let same = (eq_iff x.slug m.slug).1 (ap (λ (y : Monitor). y.slug) (sym e)) in rw same refl
any_slug m (x ∷ ms) (Memᴰ.tail h) = let rest = any_slug m ms h in ground (arith, rest)

either_way {ℓ} : {A : Type ℓ} (test : Bool) {x y : A} → x ≡ y → (if test then x else y) ≡ y
either_way true same = same
either_way false same = refl

-- What becomes of an entry, of a monitor's flag and thresholds
abbrev pub renew : {A : Type 0} → Bool → Option Thresholds → (Thresholds → A) → Option A → Option A
renew true (some th) project_to old = some (project_to th)
renew true none project_to old = old
renew false th project_to old = old

renew_again :
    {A : Type 0} (flag : Bool) (th : Option Thresholds) (f : Thresholds → A) (old : Option A)
    → renew flag th f (renew flag th f old) ≡ renew flag th f old
renew_again true (some th) f old = refl
renew_again true none f old = refl
renew_again false th f old = refl

module _ {F : Type 0} (a : Arithmetic F) (t : Texts F) (seconds : ℕ → F) (days_of : ℤ → ℕ)
    (c : Config) (now : ℕ) where
  -- The forecast of a monitor after a round, from what it was
  abbrev pub renewed : Store → Monitor → Option (Forecast F) → Option (Forecast F)
  renewed s m old =
      renew m.forecast (thresholds_of m) (forecast_of a t seconds days_of c s now m) old

  refresh_one_self :
      (s : Store) (m : Monitor) (forecasts : List (String × Forecast F))
      → lookup m.slug (refresh_one a t seconds days_of c s now m forecasts)
        ≡ renewed s m (lookup m.slug forecasts)
  unfolding refresh_one
  refresh_one_self s m forecasts = elim (Bool-cases m.forecast) [
    | inr off ↦ rw (refresh_one, off) refl
    | inl on ↦ elim (Option-cases (thresholds_of m)) [
      | inl missing ↦ rw (refresh_one, on, missing) refl
      | inr (th, found) ↦
          let new = forecast_of a t seconds days_of c s now m th in
          rw (refresh_one, on, found)
            (lookup-insert m.slug m.slug new forecasts ∙ rw ((eq_iff m.slug m.slug).1 refl) refl)
    ]
  ]

  refresh_one_other :
      (s : Store) (m x : Monitor) (forecasts : List (String × Forecast F))
      → str_eq x.slug m.slug ≡ false
      → lookup m.slug (refresh_one a t seconds days_of c s now x forecasts)
        ≡ lookup m.slug forecasts
  unfolding refresh_one
  refresh_one_other s m x forecasts other = elim (Bool-cases x.forecast) [
    | inr off ↦ rw (refresh_one, off) refl
    | inl on ↦ elim (Option-cases (thresholds_of x)) [
      | inl missing ↦ rw (refresh_one, on, missing) refl
      | inr (th, found) ↦
          let new = forecast_of a t seconds days_of c s now x th in
          rw (refresh_one, on, found) (lookup-insert x.slug m.slug new forecasts ∙ rw other refl)
    ]
  ]

  refresh_from_lem :
      (s : Store) (m : Monitor) (ms : List Monitor) (forecasts : List (String × Forecast F))
      → Agree m ms
      → lookup m.slug (refresh_from a t seconds days_of c s now ms forecasts) ≡ (
          if any (λ x. str_eq x.slug m.slug) ms
          then renewed s m (lookup m.slug forecasts)
          else lookup m.slug forecasts)
  unfolding refresh_from
  refresh_from_lem s m [] forecasts agree = refl
  refresh_from_lem s m (x ∷ ms) forecasts agree =
      let next = refresh_one a t seconds days_of c s now x forecasts in
      let rest = refresh_from_lem s m ms next agree.1 in
      elim (Bool-cases (str_eq x.slug m.slug)) [
        | inr other ↦ rest ∙ rw (refresh_one_other s m x forecasts other) (rw other refl)
        | inl same ↦
            let after =
              subst
                (λ y.
                  lookup m.slug (refresh_one a t seconds days_of c s now y forecasts)
                  ≡ renewed s m (lookup m.slug forecasts))
                (sym (agree.0 same)) (refresh_one_self s m forecasts) in
            rest
            ∙ ap (λ o. if any (λ y. str_eq y.slug m.slug) ms then renewed s m o else o) after
            ∙ either_way (any (λ y. str_eq y.slug m.slug) ms) (
                renew_again m.forecast (thresholds_of m) (forecast_of a t seconds days_of c s now m)
                  (lookup m.slug forecasts))
            ∙ rw same refl
      ]

  -- What is pruned is outside the window of the forecasts.
  forecast_pruned :
      (s : Store) (m : Monitor) (th : Thresholds)
      → days_of c.forecast.lookback_days ≤ c.server.retention_days
      → forecast_of a t seconds days_of c (prune c.server.retention_days now s).0 now m th
        ≡ forecast_of a t seconds days_of c s now m th
  unfolding forecast_of hourly_series
  forecast_pruned s m th short =
      let days = days_of c.forecast.lookback_days in
      let kept =
        (prune_lem c.server.retention_days now s m.slug (days * 24) (omega (arith, short))).0 in
      ap
        (λ rows.
          project a t (map (point_of a t seconds days_of) (hourly rows)) th c.forecast
            (seconds now))
        kept

  refresh_one_pruned :
      (s : Store) (m : Monitor) (forecasts : List (String × Forecast F))
      → days_of c.forecast.lookback_days ≤ c.server.retention_days
      → refresh_one a t seconds days_of c (prune c.server.retention_days now s).0 now m forecasts
        ≡ refresh_one a t seconds days_of c s now m forecasts
  unfolding refresh_one
  refresh_one_pruned s m forecasts short = elim (Bool-cases m.forecast) [
    | inr off ↦ rw (refresh_one, off) refl
    | inl on ↦ elim (Option-cases (thresholds_of m)) [
      | inl missing ↦ rw (refresh_one, on, missing) refl
      | inr (th, found) ↦
          rw (refresh_one, on, found)
            (ap (λ f. insert m.slug f forecasts) (forecast_pruned s m th short))
    ]
  ]

  refresh_pruned :
      (s : Store) (ms : List Monitor) (forecasts : List (String × Forecast F))
      → days_of c.forecast.lookback_days ≤ c.server.retention_days
      → refresh_from a t seconds days_of c (prune c.server.retention_days now s).0 now ms forecasts
        ≡ refresh_from a t seconds days_of c s now ms forecasts
  unfolding refresh_from
  refresh_pruned s [] forecasts short = refl
  refresh_pruned s (m ∷ ms) forecasts short =
      ap (refresh_from a t seconds days_of c (prune c.server.retention_days now s).0 now ms)
        (refresh_one_pruned s m forecasts short)
      ∙ refresh_pruned s ms (refresh_one a t seconds days_of c s now m forecasts) short

  -- With slugs that tell the enabled monitors apart, and a lookback of the forecasts that is no longer than
  -- the retention, a round of maintenance gives each enabled monitor with `forecast` and thresholds the
  -- projection of its own hourly series and leaves the entry of every other enabled monitor as it was; and
  -- it prunes nothing that a refresh at that time would read.
  pub maintain_lem :
      (s : Store) (forecasts : List (String × Forecast F)) (m : Monitor)
      → HasTellingSlugs (enabled_monitors c)
      → Memᴰ m (enabled_monitors c)
      → days_of c.forecast.lookback_days ≤ c.server.retention_days
      → let (after, kept, removed) = maintain a t seconds days_of c now (forecasts, s) in
        (lookup m.slug after ≡ renewed s m (lookup m.slug forecasts))
        × (refresh_forecasts a t seconds days_of c kept now forecasts ≡ after)
  unfolding maintain refresh_forecasts
  maintain_lem s forecasts m distinct there short = (
    refresh_from_lem s m (enabled_monitors c) forecasts
          (unique-Agree m (enabled_monitors c) (enabled_monitors c) distinct there (λ x h. h))
        ∙ rw (any_slug m (enabled_monitors c) there) refl,
    refresh_pruned s (enabled_monitors c) forecasts short,
  )
