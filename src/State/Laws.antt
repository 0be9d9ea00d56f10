-- ===== src/State/Laws.antt =====
-- One poll: what `observe` does to the counters and the state.
use ip_montior.Base.{ℕ, none, some, ◌≡◌, ◌≢◌, ◌≤◌, ◌<◌, ◌⊎◌, arith}
use ip_montior.Check.{CheckResult}
use ip_montior.State.{State, MonitorState, initial, observe}

-- What holds of the counters between polls.
pub record IsConsistent (s : MonitorState) : Type 0 where
  pub bad_warnish : s.bad ≤ s.warnish
  pub good_or_bad : (s.good ≡ 0) ⊎ (s.warnish ≡ 0)
  pub started : (0 < s.failures_to_down) × (0 < s.recoveries_to_up)
  pub up_not_bad : s.state ≡ State.up → s.bad < s.failures_to_down
  pub up_not_warnish : s.state ≡ State.up → s.warnish < s.failures_to_down
  pub problem_not_good :
      (s.state ≡ State.down) ⊎ (s.state ≡ State.warn) → s.good < s.recoveries_to_up
  pub pending_fresh :
      s.state ≡ State.pending → (s.warnish < s.failures_to_down) × (s.good < s.recoveries_to_up)

-- A new monitor satisfies the invariant, when both limits are at least 1.
pub initial-IsConsistent : (f r now : ℕ) → 0 < f → 0 < r → IsConsistent (initial f r now)
unfolding initial
initial-IsConsistent f r now hf hr = ground arith

-- Every poll, whatever its result, keeps the invariant.
pub observe-IsConsistent :
    (s : MonitorState) (res : CheckResult) (now : ℕ)
    → IsConsistent s
    → IsConsistent (observe s res now).0
unfolding observe
observe-IsConsistent s res now h = ground arith

-- A poll makes a transition exactly when it changes the state; the transition then names the old
-- and the new state, the time and the poll's message, and `since` is the time of the change.
pub observe_transition :
    (s : MonitorState) (res : CheckResult) (now : ℕ)
    → let (s', tr) = observe s res now in
      ((tr ≡ none) × (s'.state ≡ s.state) × (s'.since ≡ s.since))
      ⊎ ((tr
            ≡ some (record {
              previous = s.state;
              current = s'.state;
              at = now;
              message = res.message;
            }))
          × (s'.state ≢ s.state)
          × (s'.since ≡ now))
unfolding observe
observe_transition s res now = ground arith
