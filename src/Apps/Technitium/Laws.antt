-- ===== src/Apps/Technitium/Laws.antt =====
-- TechnitiumCheck always has a result.
use ip_montior.Base.{ℕ, String, Option, none, ℤ, Try, done, raised, ◌≢◌, arith, Try-cases, inl, inr}
use ip_montior.Check.{Thresholds}
use ip_montior.Config.Kinds.{TechnitiumMonitor, StatsRange}
use ip_montior.Platforms.{pct}
use ip_montior.Apps.{ApiError}
use ip_montior.Apps.Technitium.{Answer, Update, Stats, call_of, judge_stats, technitium}

module _ (digits : ℕ → String) (text : ℤ → String) (tail : Stats → String) where
  judge_stats-ne-none :
      (range : StatsRange) (st : Stats) → judge_stats digits text tail range st ≢ none
  unfolding judge_stats pct
  judge_stats-ne-none range st h = ground (arith, h)

  -- Whatever the server answers, the missing numbers and no queries included, the check has a result.
  pub technitium-ne-none :
      (quoted : Option String → String) (m : TechnitiumMonitor) (th : Option Thresholds)
      (update : Try ApiError (Answer Update)) (stats : Try ApiError (Answer Stats))
      → technitium digits text tail quoted m th update stats ≢ none
  unfolding technitium
  technitium-ne-none quoted m th (raised e) (raised f) h = ground (arith, h)
  technitium-ne-none quoted m th (raised e) (done body) h = elim (Try-cases (call_of quoted body)) [
    | inl (f, refused) ↦ ground (arith, h, refused)
    | inr (st, given) ↦ ground (arith, h, given, judge_stats-ne-none m.range st)
  ]
  technitium-ne-none quoted m th (done body) (raised e) h = elim (Try-cases (call_of quoted body)) [
    | inl (f, refused) ↦ ground (arith, h, refused)
    | inr (r, given) ↦ ground (arith, h, given)
  ]
  technitium-ne-none quoted m th (done body) (done body') h =
      elim (Try-cases (call_of quoted body)) [
        | inl (f, refused) ↦ elim (Try-cases (call_of quoted body')) [
          | inl (g, refused') ↦ ground (arith, h, refused, refused')
          | inr (st, given) ↦ ground (arith, h, refused, given, judge_stats-ne-none m.range st)
        ]
        | inr (r, given) ↦ elim (Try-cases (call_of quoted body')) [
          | inl (g, refused) ↦ ground (arith, h, given, refused)
          | inr (st, given') ↦ ground (arith, h, given, given', judge_stats-ne-none m.range st)
        ]
      ]
