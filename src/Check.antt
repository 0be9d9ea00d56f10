-- ===== src/Check.antt =====
-- watchpost/checks/base.py: the result of one poll and the thresholds that grade it.
pub mod Laws
use ip_montior.Base.{
  String, Option, none, some, Bool, true, false, ◌&&◌, if◌then◌else◌, ℤ, leb_ℤ, is_some, ◌<>◌,
}

pub data Result : Type 0 where
  ok warn fail : Result

-- The free-form `detail` dictionary is only displayed, and is left out.
pub record CheckResult : Type 0 where
  pub result : Result
  pub message : String
  pub value : Option ℤ
  pub unit : String
  pub latency_ms : Option ℤ

-- `CheckResult.fail(message)` and `CheckResult.ok(message, value, unit)`
unfoldable pub failed : String → CheckResult
failed text = record {
  result = Result.fail;
  message = text;
  value = none;
  unit = "";
  latency_ms = none;
}

unfoldable pub passed : String → Option ℤ → String → CheckResult
passed text value unit = record {
  result = Result.ok;
  message = text;
  value = value;
  unit = unit;
  latency_ms = none;
}

pub data Direction : Type 0 where
  above below : Direction

-- `Thresholds` of config.py
pub record Thresholds : Type 0 where
  pub direction : Direction
  pub warn : Option ℤ
  pub crit : Option ℤ

-- `v >= limit` or `v <= limit`, by the direction; a limit that is `None` is never crossed
unfoldable pub crossed : Direction → ℤ → Option ℤ → Bool
crossed d v none = false
crossed Direction.above v (some limit) = leb_ℤ limit v
crossed Direction.below v (some limit) = leb_ℤ v limit

-- The text of a limit. The caller only asks for one that is there.
abbrev limit_text : (ℤ → String) → Option ℤ → String
limit_text fmt none = ""
limit_text fmt (some limit) = fmt limit

-- `fmt` is Python's `{:g}`.
module _ (fmt : ℤ → String) where
  grade : CheckResult → Thresholds → ℤ → CheckResult
  unfolding crossed
  grade res th v =
      if crossed th.direction v th.crit
      then record res {
        result = Result.fail;
        message =
            res.message
            <> " (critical threshold "
            <> limit_text fmt th.crit
            <> res.unit
            <> " crossed)";
      }
      else if crossed th.direction v th.warn
      then record res {
        result = Result.warn;
        message =
            res.message
            <> " (warning threshold "
            <> limit_text fmt th.warn
            <> res.unit
            <> " crossed)";
      }
      else res

  -- The early returns: no thresholds, a failed poll, no value.
  apply_to : Result → Option ℤ → CheckResult → Thresholds → CheckResult
  unfolding grade
  apply_to Result.fail value res th = res
  apply_to Result.ok none res th = res
  apply_to Result.warn none res th = res
  apply_to Result.ok (some v) res th = grade res th v
  apply_to Result.warn (some v) res th = grade res th v

  unfoldable pub apply_thresholds : CheckResult → Option Thresholds → CheckResult
  unfolding apply_to
  apply_thresholds res none = res
  apply_thresholds res (some th) = apply_to res.result res.value res th

  -- `Check.run`: the probe's result, its latency measured where the probe gave none, then graded.
  unfoldable pub finish_run : CheckResult → ℤ → Option Thresholds → CheckResult
  unfolding apply_thresholds
  finish_run res elapsed th = elim res.latency_ms [
    | none ↦ apply_thresholds (record res { latency_ms = some elapsed }) th
    | some _ ↦ apply_thresholds res th
  ]
