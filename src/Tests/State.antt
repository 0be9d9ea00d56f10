-- ===== src/Tests/State.antt =====
-- Polls of one monitor.
use ip_montior.Base.{some, List, [], ◌∷◌, ◌≡◌, ◌≤◌, refl, arith, pos}
use ip_montior.Check.{Result, Direction, Thresholds, apply_thresholds, CheckResult}
use ip_montior.Check.Laws.{apply_thresholds-worse, worse, verdict}
use ip_montior.State.{State, initial, observe}
use ip_montior.State.Laws.{IsConsistent, initial-IsConsistent, observe-IsConsistent}
use ip_montior.State.Runs.{
  Poll, run, streak, is_fail, Follows, run-Follows, down_confirmed, down_reached,
}
use ip_montior.Tests.Sample.{answer}

abbrev hot : CheckResult
hot = record (answer Result.ok) { value = some (pos 95) }

abbrev limits : Thresholds
limits = record { direction = Direction.above; warn = some (pos 80); crit = some (pos 90) }

apply_thresholds-worse_example :
    ((apply_thresholds (λ v. "95") hot (some limits)).result
      ≡ worse hot.result (verdict hot.value (some limits)))
    × ((apply_thresholds (λ v. "95") hot (some limits)).value ≡ hot.value)
    × ((apply_thresholds (λ v. "95") hot (some limits)).unit ≡ hot.unit)
    × ((apply_thresholds (λ v. "95") hot (some limits)).latency_ms ≡ hot.latency_ms)
apply_thresholds-worse_example = apply_thresholds-worse (λ v. "95") hot (some limits)

abbrev two_fails : List Poll
two_fails = (answer Result.fail, 2) ∷ (answer Result.fail, 1) ∷ []

observe-IsConsistent_example : IsConsistent (observe (initial 2 1 0) (answer Result.fail) 1).0
observe-IsConsistent_example =
    observe-IsConsistent (initial 2 1 0) (answer Result.fail) 1
      (initial-IsConsistent 2 1 0 (omega arith) (omega arith))

run-Follows_example : Follows 2 1 two_fails (run (initial 2 1 0) two_fails)
run-Follows_example = run-Follows 2 1 0 two_fails

down_confirmed_example : 2 ≤ streak is_fail two_fails
unfolding run initial observe
down_confirmed_example =
    down_confirmed 2 1 0 (answer Result.fail) 2 ((answer Result.fail, 1) ∷ []) (λ e. cc) refl

down_reached_example : (run (initial 2 1 0) two_fails).state ≡ State.down
down_reached_example = down_reached 2 1 0 two_fails (omega arith) (omega arith)
