-- ===== src/State/Runs.antt =====
-- Many polls: the state of a monitor as a function of its history. Histories are newest first.
use ip_montior.Base.{
  ◌<◌, ℕ, suc, Bool, true, false, ◌≡◌, ◌≢◌, ◌≤◌, arith, List, [], ◌∷◌, if◌then◌else◌, leb,
}
use ip_montior.Check.{Result, CheckResult}
use ip_montior.State.{State, MonitorState, initial, observe}

abbrev pub Poll : Type 0
Poll = CheckResult × ℕ

-- The monitor after all polls of a history.
unfoldable pub run : MonitorState → List Poll → MonitorState
run s [] = s
run s ((res, now) ∷ h) = (observe (run s h) res now).0

abbrev pub is_fail : Result → Bool
is_fail Result.fail = true
is_fail _ = false

abbrev pub is_bad : Result → Bool
is_bad Result.ok = false
is_bad _ = true

abbrev pub is_good : Result → Bool
is_good Result.ok = true
is_good _ = false

-- How many of the latest polls, without a gap, pass a test.
abbrev pub streak : (Result → Bool) → List Poll → ℕ
streak test [] = 0
streak test ((res, _) ∷ h) = if test res.result then suc (streak test h) else 0

-- The documented rule: consecutive FAILs, consecutive WARN-or-worse results, consecutive OKs.
abbrev pub documented : ℕ → ℕ → List Poll → State
documented f r [] = State.pending
documented f r (p ∷ h) =
    if leb f (streak is_fail (p ∷ h))
    then State.down
    else if leb f (streak is_bad (p ∷ h))
    then State.warn
    else if leb r (streak is_good (p ∷ h))
    then State.up
    else documented f r h

-- The counters of `s` are the streaks of the history `h`, and its limits are `f` and `r`.
pub record Follows (f r : ℕ) (h : List Poll) (s : MonitorState) : Type 0 where
  pub bad : s.bad ≡ streak is_fail h
  pub warnish : s.warnish ≡ streak is_bad h
  pub good : s.good ≡ streak is_good h
  pub failures : s.failures_to_down ≡ f
  pub recoveries : s.recoveries_to_up ≡ r
  pub state : s.state ≡ documented f r h

observe-Follows :
    (f r : ℕ) (h : List Poll) (s : MonitorState) (res : CheckResult) (now : ℕ)
    → Follows f r h s
    → Follows f r ((res, now) ∷ h) (observe s res now).0
unfolding observe
observe-Follows f r h s res now k = ground arith

-- From a new monitor, any polls leave exactly the state and the counters that the documented rule
-- gives for the history.
pub run-Follows : (f r t : ℕ) (h : List Poll) → Follows f r h (run (initial f r t) h)
unfolding run
run-Follows f r t [] = unfold initial in ground arith
run-Follows f r t ((res, now) ∷ h) =
    observe-Follows f r h (run (initial f r t) h) res now (run-Follows f r t h)

-- A single failed poll is no outage: a poll that moves a monitor to DOWN ends a run of at least
-- `failures_to_down` consecutive FAIL results.
pub down_confirmed :
    (f r t : ℕ) (res : CheckResult) (now : ℕ) (h : List Poll)
    → (run (initial f r t) h).state ≢ State.down
    → (run (initial f r t) ((res, now) ∷ h)).state ≡ State.down
    → f ≤ streak is_fail ((res, now) ∷ h)
down_confirmed f r t res now h before after =
    ground (arith, run-Follows f r t h, run-Follows f r t ((res, now) ∷ h))

-- The other limit: a poll that moves a monitor to UP ends at least `recoveries_to_up` OK results.
pub up_confirmed :
    (f r t : ℕ) (res : CheckResult) (now : ℕ) (h : List Poll)
    → (run (initial f r t) h).state ≢ State.up
    → (run (initial f r t) ((res, now) ∷ h)).state ≡ State.up
    → r ≤ streak is_good ((res, now) ∷ h)
up_confirmed f r t res now h before after =
    ground (arith, run-Follows f r t h, run-Follows f r t ((res, now) ∷ h))

-- `f` failures in a row, `f` at least 1, bring any monitor to DOWN, whatever came before.
pub down_reached :
    (f r t : ℕ) (h : List Poll)
    → 0 < f
    → f ≤ streak is_fail h
    → (run (initial f r t) h).state ≡ State.down
down_reached f r t [] pos long = absurd (omega arith)
down_reached f r t (p ∷ h) pos long = ground (arith, run-Follows f r t (p ∷ h))

-- With `failures_to_down` at 0, which the configuration accepts, the first poll moves a monitor to
-- DOWN and no poll moves it back, OK or not.
pub zero_failures_down :
    (r t : ℕ) (res : CheckResult) (now : ℕ) (h : List Poll)
    → (run (initial 0 r t) ((res, now) ∷ h)).state ≡ State.down
zero_failures_down r t res now h = ground (arith, run-Follows 0 r t ((res, now) ∷ h))
