-- ===== src/Scheduler/Pairing.antt =====
-- Problem alerts and recovery alerts go together.
use ip_montior.Base.{
  All, ◌&&◌, refl, All, eq_iff, Option, subst, Bool-cases, inl, inr, truthy?, ℕ, String, Bool, true,
  false, if◌then◌else◌, List, [], ◌∷◌, str_eq, ◌≡◌, arith, sym, ◌∙◌,
}
use ip_montior.Check.{CheckResult}
use ip_montior.State.{initial, State, Transition, MonitorState, observe}
use ip_montior.Config.Types.{Config, Monitor}
use ip_montior.Rollup.{blocking_parent, is_up, is_problem}
use ip_montior.Scheduler.System.{System, SystemStep, Reachable, boot, initial_states}
use ip_montior.Scheduler.Frames.{Sane, step-Sane}
use ip_montior.Base.{All-middle, All-replace}
use ip_montior.Scheduler.{
  enabled_monitors, step, still, leave_alone, send, Frame, Outcome, set_open, Task, after_poll,
  release, confirm, on_transition, observed, settle, World, Sent, send_and_mark,
}

-- The last alert for a monitor was a problem.
abbrev pub open_after : List Sent → String → Bool
open_after [] s = false
open_after (x ∷ xs) s = if str_eq x.slug s then is_problem x.tr.current else open_after xs s

-- Newest first: every alert is for a problem, or for UP straight after one for a problem of the
-- same monitor.
abbrev pub Paired : List Sent → Type 0
Paired [] = Unit
Paired (x ∷ xs) =
    (is_problem x.tr.current ≡ false → (x.tr.current ≡ State.up) × (open_after xs x.slug ≡ true))
    × Paired xs

pub record Honest (w : World) : Type 0 where
  pub opens : (s : String) → (w.states s).alert_open ≡ open_after w.outbox s
  pub paired : Paired w.outbox

observe-alert_open :
    (s : MonitorState) (res : CheckResult) (now : ℕ)
    → (observe s res now).0.alert_open ≡ s.alert_open
unfolding observe
observe-alert_open s res now = ground arith

up_of : (s : State) → is_up s ≡ true → s ≡ State.up
up_of s e = ground arith

and_both : (a b : Bool) → a && b ≡ true → (a ≡ true) × (b ≡ true)
and_both true true e = (refl, refl)
and_both true false e = cc
and_both false b e = cc

module _ (w : World) (h : Honest w) (m : Monitor) (tr : Transition) where
  send_and_mark-Honest :
      (is_problem tr.current ≡ false
        → (tr.current ≡ State.up) × ((w.states m.slug).alert_open ≡ true))
      → Honest (send_and_mark w m tr (is_problem tr.current))
  unfolding send_and_mark set_open send
  send_and_mark-Honest why = record {
    opens = λ s. ground (arith, h.opens s);
    paired = (λ e. ((why e).0, sym (h.opens m.slug) ∙ (why e).1), h.paired);
  }

  send_problem-Honest : is_problem tr.current ≡ true → Honest (send_and_mark w m tr true)
  send_problem-Honest p =
      subst (λ b. Honest (send_and_mark w m tr b)) p (send_and_mark-Honest (λ e. cc))

  send_up-Honest :
      is_problem tr.current ≡ false
      → is_up tr.current ≡ true
      → (w.states m.slug).alert_open ≡ true
      → Honest (send_and_mark w m tr false)
  send_up-Honest n u o =
      subst (λ b. Honest (send_and_mark w m tr b)) n
        (send_and_mark-Honest (λ e. (up_of tr.current u, o)))

  settle-Honest :
      (blocker : Option String) → is_problem tr.current ≡ true → Honest (settle w m tr blocker).0
  unfolding settle
  settle-Honest blocker p = elim (Bool-cases (truthy? blocker)) [
    | inl blocked ↦ rw blocked h
    | inr free ↦ rw free (send_problem-Honest p)
  ]

Honest-if :
    (b : Bool) (x y : Outcome)
    → (b ≡ true → Honest x.0)
    → (b ≡ false → Honest y.0)
    → Honest (if b then x else y).0
Honest-if true x y hx hy = hx refl
Honest-if false x y hx hy = hy refl

alone_problem :
    (c : Config) (w : World) (res : CheckResult) (child : Monitor)
    → leave_alone c w res child ≡ false
    → is_problem (w.states child.slug).state ≡ true
unfolding leave_alone
alone_problem c w res child e = ground arith

module _ (c : Config) (w : World) (h : Honest w) where
  observed-Honest :
      (res : CheckResult) (now : ℕ) (m : Monitor) (rest : Task)
      → Honest (observed w res now m rest).0
  unfolding observed
  observed-Honest res now m rest = record {
    opens = λ s.
        ground (arith, h.opens s, observe-alert_open (w.states m.slug) res now, eq_iff m.slug s);
    paired = h.paired;
  }

  on_transition-Honest :
      (m : Monitor) (tr : Transition) (rest : Task) → Honest (on_transition c w m tr rest).0
  unfolding on_transition
  on_transition-Honest m tr rest =
      Honest-if (is_problem tr.current) _ _
        (λ p.
          Honest-if _ _ _ (λ _. h) (λ _. settle-Honest w h m tr (blocking_parent c w.states m) p))
        (λ n.
          Honest-if (is_up tr.current && (w.states m.slug).alert_open) _ _
            (λ both.
              let (up, was) = and_both (is_up tr.current) (w.states m.slug).alert_open both in
              send_up-Honest w h m tr n up was)
            (λ _. h))

  confirm-Honest :
      (m : Monitor) (tr : Transition) (ps : List Monitor) (attempts : ℕ) (rest : Task)
      → is_problem tr.current ≡ true
      → Honest (confirm c w m tr ps attempts rest).0
  unfolding confirm
  confirm-Honest m tr [] attempts rest p = settle-Honest w h m tr (blocking_parent c w.states m) p
  confirm-Honest m tr (q ∷ ps) attempts rest p = Honest-if _ _ _ (λ _. h) (λ _. h)

  release-Honest :
      (m : Monitor) (children : List Monitor) (rest : Task) → Honest (release c w m children rest).0
  unfolding release
  release-Honest m [] rest = h
  release-Honest m (child ∷ children) rest = Honest-if _ _ _ (λ _. h) (λ _. h)

  after_poll-Honest :
      (res : CheckResult) (now : ℕ) (m child : Monitor) (children : List Monitor) (rest : Task)
      → Honest (after_poll c w res now m child children rest).0
  unfolding after_poll
  after_poll-Honest res now m child children rest =
      Honest-if _ _ _ (λ _. h)
        (λ go.
          send_problem-Honest w h child (still (w.states child.slug).state now m res)
            (alone_problem c w res child go))

module _ (c : Config) (res : CheckResult) (now : ℕ) (w : World) (h : Honest w) where
  -- A step keeps alerts paired and every `_confirm_parents` with its problem.
  step-Honest : (t : Task) → All Sane t → Honest (step c res now w t).0
  unfolding step
  step-Honest [] k = h
  step-Honest (Frame.polling m ∷ rest) k =
      Honest-if (w.locks m.slug) _ _ (λ _. h) (λ _. record { opens = h.opens; paired = h.paired })
  step-Honest (Frame.probing m ∷ rest) k = observed-Honest c w h res now m rest
  step-Honest (Frame.returning r ∷ Frame.released m child children ∷ rest) k =
      after_poll-Honest c w h r now m child children rest
  step-Honest (Frame.returning r ∷ rest) k = h
  step-Honest (Frame.transition m tr ∷ rest) k = on_transition-Honest c w h m tr rest
  step-Honest (Frame.confirming m tr ps attempts ∷ rest) k =
      confirm-Honest c w h m tr ps attempts rest k.0
  step-Honest (Frame.recording m tr ∷ rest) k = record { opens = h.opens; paired = h.paired }
  step-Honest (Frame.releasing m children ∷ rest) k = release-Honest c w h m children rest
  step-Honest (Frame.released m child children ∷ rest) k = h
  step-Honest (Frame.recording_child m child tr children ∷ rest) k = record {
    opens = h.opens;
    paired = h.paired;
  }

-- What holds of all tasks at once.
pub record IsHonest (s : System) : Type 0 where
  pub world : Honest s.world
  pub tasks : All (All Sane) s.tasks

SystemStep-IsHonest : (c : Config) (s u : System) → SystemStep c s u → IsHonest s → IsHonest u
SystemStep-IsHonest c s u (SystemStep.advance before t after res now split e) h =
    let all = subst (All (All Sane)) split h.tasks in
    let sane = All-middle (All Sane) before t after all in
    subst IsHonest (sym e) (record {
      world = step-Honest c res now s.world h.world t sane;
      tasks = All-replace (All Sane) before t after all (step-Sane c res now s.world t sane);
    })
SystemStep-IsHonest c s u (SystemStep.start m at e) h =
    subst IsHonest (sym e) (record { world = h.world; tasks = ((tt, tt), h.tasks) })

initial-closed :
    (c : Config) (ms : List Monitor) (now : ℕ) (s : String)
    → (initial_states c ms now s).alert_open ≡ false
unfolding initial_states initial
initial-closed c [] now s = refl
initial-closed c (m ∷ ms) now s = ground (arith, initial-closed c ms now s)

boot-IsHonest : (c : Config) (now : ℕ) → IsHonest (boot c now)
unfolding boot
boot-IsHonest c now = record {
  world = record { opens = initial-closed c (enabled_monitors c) now; paired = tt };
  tasks = tt;
}

Reachable-IsHonest :
    (c : Config) (s : System) → IsHonest s → (u : System) → Reachable c s u → IsHonest u
Reachable-IsHonest c s h u Reachable.here = h
Reachable-IsHonest c s h u (Reachable.next {t} r st) =
    SystemStep-IsHonest c t u st (Reachable-IsHonest c s h t r)

-- From a new scheduler, whatever the checks answer and however the tasks interleave: every alert
-- that is sent is for a DOWN or WARN, or for an UP that comes straight after a DOWN or WARN alert
-- of the same monitor; and a monitor's `alert_open` says whether its last alert was for a problem.
pub alerts-Paired :
    (c : Config) (now : ℕ) (s : System)
    → Reachable c (boot c now) s
    → Paired s.world.outbox
      × ((slug : String) → (s.world.states slug).alert_open ≡ open_after s.world.outbox slug)
alerts-Paired c now s r =
    let h = (Reachable-IsHonest c (boot c now) (boot-IsHonest c now) s r).world in
    (h.paired, h.opens)
