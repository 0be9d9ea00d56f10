-- ===== src/Scheduler/Suppression.antt =====
-- Alerts are held back behind a monitor that is down.
use ip_montior.Base.{
  none, some, Option, ℕ, Bool, true, false, ◌&&◌, if◌then◌else◌, List, [], ◌∷◌, ◌≡◌, refl, arith,
  truthy?, ◌⊎◌, inl, inr, Bool-cases,
}
use ip_montior.Check.{CheckResult}
use ip_montior.State.{Transition}
use ip_montior.Config.Types.{Config, Monitor}
use ip_montior.Rollup.{is_problem, is_up, blocking_parent}
use ip_montior.Scheduler.{
  World, Frame, Task, Outcome, step, send_and_mark, set_open, send, settle, observed, on_transition,
  confirm, release, after_poll, still, leave_alone,
}

-- The monitor that a task may send an alert for in its next step: that of its transition, or the
-- child that it has just polled
abbrev pub subject : Task → Option Monitor
subject (Frame.transition m tr ∷ rest) = some m
subject (Frame.confirming m tr ps attempts ∷ rest) = some m
subject (Frame.returning r ∷ Frame.released m child children ∷ rest) = some child
subject _ = none

-- From `w` to `w'` at most one alert is sent, for the monitor `who`, and none for a problem of it if
-- `blocking_parent` finds it blocked in `w`.
abbrev pub HeldBack : Config → World → Option Monitor → World → Type 0
HeldBack c w who w' =
    (w'.outbox ≡ w.outbox)
    ⊎ ((m : Monitor) × (tr : Transition) × (who ≡ some m)
        × (w'.outbox ≡ record { slug = m.slug; tr = tr } ∷ w.outbox)
        × ((is_problem tr.current ≡ false) ⊎ (truthy? (blocking_parent c w.states m) ≡ false)))

module _ (c : Config) (w : World) where
  HeldBack-if :
      (who : Option Monitor) (b : Bool) (x y : Outcome)
      → (b ≡ true → HeldBack c w who x.0)
      → (b ≡ false → HeldBack c w who y.0)
      → HeldBack c w who (if b then x else y).0
  HeldBack-if who true x y hx hy = hx refl
  HeldBack-if who false x y hx hy = hy refl

  send-HeldBack :
      (m : Monitor) (tr : Transition) (b : Bool)
      → (is_problem tr.current ≡ false) ⊎ (truthy? (blocking_parent c w.states m) ≡ false)
      → HeldBack c w (some m) (send_and_mark w m tr b)
  unfolding send_and_mark set_open send
  send-HeldBack m tr b why = inr (m, tr, refl, refl, why)

  settle-HeldBack :
      (m : Monitor) (tr : Transition)
      → HeldBack c w (some m) (settle w m tr (blocking_parent c w.states m)).0
  unfolding settle
  settle-HeldBack m tr = elim (Bool-cases (truthy? (blocking_parent c w.states m))) [
    | inl blocked ↦ rw blocked (inl refl)
    | inr free ↦ rw free (send-HeldBack m tr true (inr free))
  ]

  on_transition-HeldBack :
      (m : Monitor) (tr : Transition) (rest : Task)
      → HeldBack c w (some m) (on_transition c w m tr rest).0
  unfolding on_transition
  on_transition-HeldBack m tr rest =
      HeldBack-if _ (is_problem tr.current) _ _
        (λ p. HeldBack-if _ _ _ _ (λ _. inl refl) (λ _. settle-HeldBack m tr))
        (λ n.
          HeldBack-if _ (is_up tr.current && (w.states m.slug).alert_open) _ _
            (λ _. send-HeldBack m tr false (inl n)) (λ _. inl refl))

  confirm-HeldBack :
      (m : Monitor) (tr : Transition) (ps : List Monitor) (attempts : ℕ) (rest : Task)
      → HeldBack c w (some m) (confirm c w m tr ps attempts rest).0
  unfolding confirm
  confirm-HeldBack m tr [] attempts rest = settle-HeldBack m tr
  confirm-HeldBack m tr (q ∷ ps) attempts rest = HeldBack-if _ _ _ _ (λ _. inl refl) (λ _. inl refl)

  release-HeldBack :
      (m : Monitor) (children : List Monitor) (rest : Task)
      → HeldBack c w none (release c w m children rest).0
  unfolding release
  release-HeldBack m [] rest = inl refl
  release-HeldBack m (child ∷ children) rest = HeldBack-if _ _ _ _ (λ _. inl refl) (λ _. inl refl)

  alone_free :
      (res : CheckResult) (child : Monitor)
      → leave_alone c w res child ≡ false
      → truthy? (blocking_parent c w.states child) ≡ false
  unfolding leave_alone
  alone_free res child e = ground arith

  after_poll-HeldBack :
      (res : CheckResult) (now : ℕ) (m child : Monitor) (children : List Monitor) (rest : Task)
      → HeldBack c w (some child) (after_poll c w res now m child children rest).0
  unfolding after_poll
  after_poll-HeldBack res now m child children rest =
      HeldBack-if _ (leave_alone c w res child) _ _ (λ _. inl refl)
        (λ go.
          send-HeldBack child (still (w.states child.slug).state now m res) true
            (inr (alone_free res child go)))

  -- One step of a task, whatever it is, sends at most one alert, which is for the monitor of the
  -- transition it is at, or for the child it has just polled; and none for a DOWN or WARN of that
  -- monitor if `blocking_parent` finds it blocked at that moment.
  pub step-HeldBack :
      (res : CheckResult) (now : ℕ) (t : Task) → HeldBack c w (subject t) (step c res now w t).0
  unfolding step
  step-HeldBack res now [] = inl refl
  step-HeldBack res now (Frame.polling m ∷ rest) =
      HeldBack-if _ (w.locks m.slug) _ _ (λ _. inl refl) (λ _. inl refl)
  step-HeldBack res now (Frame.probing m ∷ rest) = unfold observed in inl refl
  step-HeldBack res now (Frame.returning r ∷ Frame.released m child children ∷ rest) =
      after_poll-HeldBack r now m child children rest
  step-HeldBack res now (Frame.returning r ∷ rest) = inl refl
  step-HeldBack res now (Frame.transition m tr ∷ rest) = on_transition-HeldBack m tr rest
  step-HeldBack res now (Frame.confirming m tr ps attempts ∷ rest) =
      confirm-HeldBack m tr ps attempts rest
  step-HeldBack res now (Frame.recording m tr ∷ rest) = inl refl
  step-HeldBack res now (Frame.releasing m children ∷ rest) = release-HeldBack m children rest
  step-HeldBack res now (Frame.released m child children ∷ rest) = inl refl
  step-HeldBack res now (Frame.recording_child m child tr children ∷ rest) = inl refl
