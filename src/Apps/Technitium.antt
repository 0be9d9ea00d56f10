-- ===== src/Apps/Technitium.antt =====
-- watchpost/checks/apps.py: TechnitiumCheck. `text` prints a share, in tenths of a percent, and `tail` the
-- last numbers of the message. A value of 1 stands as 10 tenths.
pub mod Laws
use ip_montior.Base.{
  ℕ, ◌≤◌, ◌*◌, String, Bool, true, false, List, Option, none, some, str_eq, if◌then◌else◌, ◌==◌,
  ◌<>◌, ℤ, pos, strip, is_some, Try, done, raised, ◌≡◌, arith, Bool-cases, inl, inr,
}
use ip_montior.Check.{Result, CheckResult, failed, passed, Thresholds}
use ip_montior.Config.Kinds.{TechnitiumMonitor, TechnitiumMode, StatsRange}
use ip_montior.Platforms.{pct, shown, is, or_zero, given}
use ip_montior.Apps.{ApiError, on_api_error}

-- The body of an answer with its entry `response`, an empty one where it is missing or null.
pub record Answer (A : Type 0) : Type 0 where
  pub status : Option String
  pub error_message : String
  pub response : A

-- `call`, after the request; `quoted` is `repr`.
unfoldable pub call_of : {A : Type 0} → (Option String → String) → Answer A → Try ApiError A
unfolding strip
call_of quoted body =
    if is body.status "invalid-token"
    then raised (ApiError.auth_failed "invalid-token")
    else if is body.status "ok"
    then done body.response
    else raised (
        ApiError.lookup_error (
          strip
            ("Technitium returned status " <> quoted body.status <> ": " <> body.error_message)))

pub record Update : Type 0 where
  pub current_version : Option String
  pub update_version : Option String
  pub update_available : Bool

pub record Stats : Type 0 where
  pub total_queries : Option ℕ
  pub total_server_failure : Option ℕ

abbrev or_unknown : Option String → String
or_unknown none = "?"
or_unknown (some s) = s

unfoldable pub judge_update : Option Thresholds → Update → CheckResult
judge_update th r =
    let cur = or_unknown r.current_version in
    if r.update_available
    then record (passed ("update available: " <> cur <> " -> " <> or_unknown r.update_version)
        (some (pos 10)) "") { result = if is_some th then Result.ok else Result.warn }
    else passed ("version " <> cur <> " is current") (some (pos 0)) ""

abbrev range_label : StatsRange → String
range_label StatsRange.last_hour = "last hour"
range_label StatsRange.last_day = "last day"

module _ (digits : ℕ → String) (text : ℤ → String) (tail : Stats → String) where
  -- `none` is a TypeError of `{rate:g}`.
  unfoldable pub judge_stats : StatsRange → Stats → Option CheckResult
  unfolding pct
  judge_stats range st =
      let total = or_zero st.total_queries in
      let rate =
        if total == 0
        then some (pos 0)
        else pct (some (pos (or_zero st.total_server_failure))) (some total) in
      given rate (λ v.
        passed
          (digits total
            <> " queries "
            <> range_label range
            <> ", "
            <> text v
            <> "% SERVFAIL, "
            <> tail st)
          (some v) "%")

  -- `_probe` within `probe`, of what both requests return
  unfoldable pub technitium :
      (Option String → String)
      → TechnitiumMonitor
      → Option Thresholds
      → Try ApiError (Answer Update)
      → Try ApiError (Answer Stats)
      → Option CheckResult
  unfolding call_of on_api_error judge_update judge_stats
  technitium quoted m th update stats = elim m.mode [
    | TechnitiumMode.update ↦ elim update [
      | raised e ↦ some (on_api_error e)
      | done body ↦ elim (call_of quoted body) [
        | raised e ↦ some (on_api_error e)
        | done r ↦ some (judge_update th r)
      ]
    ]
    | TechnitiumMode.stats ↦ elim stats [
      | raised e ↦ some (on_api_error e)
      | done body ↦ elim (call_of quoted body) [
        | raised e ↦ some (on_api_error e)
        | done st ↦ judge_stats m.range st
      ]
    ]
  ]
