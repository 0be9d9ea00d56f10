-- ===== src/Check/Laws.antt =====
-- What thresholds do to a result.
use ip_montior.Base.{ℕ, String, Option, none, some, if◌then◌else◌, ℤ, ◌≡◌, arith, leb}
use ip_montior.Check.{Result, CheckResult, Thresholds, crossed, apply_thresholds}

-- 0, 1, 2 from best to worst
abbrev pub badness : Result → ℕ
badness Result.ok = 0
badness Result.warn = 1
badness Result.fail = 2

-- What the thresholds make of a value, on its own.
abbrev pub verdict : Option ℤ → Option Thresholds → Result
verdict none th = Result.ok
verdict (some v) none = Result.ok
verdict (some v) (some th) =
    if crossed th.direction v th.crit
    then Result.fail
    else if crossed th.direction v th.warn
    then Result.warn
    else Result.ok

abbrev pub worse : Result → Result → Result
worse a b = if leb (badness a) (badness b) then b else a

module _ (fmt : ℤ → String) (res : CheckResult) (th : Option Thresholds) where
  -- The graded result is the worse of what the poll returned and what the thresholds say of its
  -- value, on every branch; the value, the unit and the latency are kept.
  pub apply_thresholds-worse :
      ((apply_thresholds fmt res th).result ≡ worse res.result (verdict res.value th))
      × ((apply_thresholds fmt res th).value ≡ res.value)
      × ((apply_thresholds fmt res th).unit ≡ res.unit)
      × ((apply_thresholds fmt res th).latency_ms ≡ res.latency_ms)
  unfolding apply_thresholds
  apply_thresholds-worse = ground arith
