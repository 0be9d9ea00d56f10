-- ===== src/Tests/Scheduler.antt =====
-- The server fails once while its switch was never polled, and is well at the next poll.
use ip_montior.Base.{some, subst, ℕ, String, true, List, [], ◌∷◌, ◌≡◌, refl, Memᴰ, map}
use ip_montior.Check.{Result}
use ip_montior.State.{State, Transition, initial, observe}
use ip_montior.Config.Types.{Config, effective}
use ip_montior.Config.Graph.{parents, resolve_monitor}
use ip_montior.Rollup.{blocking_parent, enabled_parents}
use ip_montior.Scheduler.{
  World, Sent, Frame, Task, Outcome, step, observed, on_transition, confirm, release, after_poll,
  enter, settle, send_and_mark, set_open, send, unconfirmed, leave_alone, enabled_monitors,
}
use ip_montior.Scheduler.Ancestors.{is_ancestor}
use ip_montior.Scheduler.System.{System, SystemStep, Reachable, boot, initial_states}
use ip_montior.Scheduler.Pairing.{open_after, Paired, alerts-Paired}
use ip_montior.Scheduler.Suppression.{HeldBack, step-HeldBack}
use ip_montior.Tests.Sample.{lab, server, answer}

-- A task run to its end or to the end of the answers, one answer for each step.
run_task : Config → List Result → Outcome → Outcome
run_task c [] o = o
run_task c (r ∷ rs) o = run_task c rs (step c (answer r) 1 o.0 o.1)

abbrev ok_times : ℕ → List Result
ok_times ℕ.zero = []
ok_times (ℕ.suc n) = Result.ok ∷ ok_times n

abbrev story : Outcome
story =
    run_task lab (Result.ok ∷ Result.fail ∷ ok_times 40)
      ((boot lab 0).world, Frame.polling server ∷ [])

-- At the end the server is UP, its last alert says DOWN, and it counts as having an open alert.
stale_story :
    (story.1 ≡ [])
    × ((story.0.states "server").state ≡ State.up)
    × ((story.0.states "server").alert_open ≡ true)
    × (map (λ (x : Sent). x.tr.current) story.0.outbox ≡ State.down ∷ [])
unfolding run_task step observed on_transition confirm release after_poll enter settle send_and_mark
    set_open send unconfirmed leave_alone enabled_monitors is_ancestor boot initial_states initial
    observe blocking_parent enabled_parents parents resolve_monitor effective
stale_story = (refl, refl, refl, refl)

-- The first task takes a step.
abbrev advance_first : Config → Result → World → List Task → System
advance_first c r w [] = record { world = w; tasks = [] }
advance_first c r w (t ∷ ts) = record {
  world = (step c (answer r) 1 w t).0;
  tasks = (step c (answer r) 1 w t).1 ∷ ts;
}

advance_first-Reachable :
    (c : Config) (r : Result) (s t : System) (ts : List Task)
    → t.tasks ≡ ts
    → Reachable c s t
    → Reachable c s (advance_first c r t.world ts)
advance_first-Reachable c r s t [] e h =
    subst (λ (l : List Task). Reachable c s (record { world = t.world; tasks = l })) e h
advance_first-Reachable c r s t (x ∷ ts) e h =
    Reachable.next h (SystemStep.advance [] x ts (answer r) 1 e refl)

-- All tasks, the first one always running.
abbrev run_first : Config → List Result → System → System
run_first c [] s = s
run_first c (r ∷ rs) s = run_first c rs (advance_first c r s.world s.tasks)

run_first-Reachable :
    (c : Config) (rs : List Result) (s t : System)
    → Reachable c s t
    → Reachable c s (run_first c rs t)
run_first-Reachable c [] s t h = h
run_first-Reachable c (r ∷ rs) s t h =
    run_first-Reachable c rs s (advance_first c r t.world t.tasks)
      (advance_first-Reachable c r s t t.tasks refl h)

abbrev started : System
started = record { world = (boot lab 0).world; tasks = (Frame.polling server ∷ []) ∷ [] }

started-Reachable : Reachable lab (boot lab 0) started
unfolding boot enabled_monitors
started-Reachable =
    Reachable.next Reachable.here (SystemStep.start server (Memᴰ.tail (Memᴰ.head refl)) refl)

abbrev late : System
late = run_first lab (Result.ok ∷ Result.fail ∷ ok_times 40) started

alerts-Paired_example :
    Paired late.world.outbox
    × ((slug : String) → (late.world.states slug).alert_open ≡ open_after late.world.outbox slug)
alerts-Paired_example = alerts-Paired lab 0 late (
    run_first-Reachable lab (Result.ok ∷ Result.fail ∷ ok_times 40) (boot lab 0) started
      started-Reachable)

abbrev down_now : Transition
down_now = record { previous = State.up; current = State.down; at = 1; message = "m" }

step-HeldBack_example :
    HeldBack lab
      (boot lab 0).world
      (some server)
      (step lab
        (answer Result.ok)
        1
        (boot lab 0).world
        (Frame.confirming server down_now [] 0 ∷ [])).0
step-HeldBack_example =
    step-HeldBack lab (boot lab 0).world (answer Result.ok) 1
      (Frame.confirming server down_now [] 0 ∷ [])
