-- ===== src/Scheduler/Frames.antt =====
-- The frames of a task: those of `_confirm_parents` stand for problems only.
use ip_montior.Base.{ℕ, Option, none, some, true, List, [], ◌∷◌, ◌≡◌, arith, All}
use ip_montior.Check.{CheckResult}
use ip_montior.State.{Transition, observe}
use ip_montior.Config.Types.{Config, Monitor}
use ip_montior.Rollup.{is_problem}
use ip_montior.Scheduler.{
  World, Frame, Task, step, on_transition, confirm, release, after_poll, enter, observed,
}

-- A frame of `_confirm_parents` belongs to a problem.
abbrev pub Sane : Frame → Type 0
Sane (Frame.confirming m tr ps attempts) = is_problem tr.current ≡ true
Sane _ = Unit

on_transition-Sane :
    (c : Config) (w : World) (m : Monitor) (tr : Transition) (rest : Task)
    → All Sane rest
    → All Sane (on_transition c w m tr rest).1
unfolding on_transition
on_transition-Sane c w m tr rest h = ground arith

confirm-Sane :
    (c : Config) (w : World) (m : Monitor) (tr : Transition) (ps : List Monitor) (attempts : ℕ)
    (rest : Task)
    → is_problem tr.current ≡ true
    → All Sane rest
    → All Sane (confirm c w m tr ps attempts rest).1
unfolding confirm
confirm-Sane c w m tr [] attempts rest p h = (tt, h)
confirm-Sane c w m tr (q ∷ ps) attempts rest p h = ground arith

release-Sane :
    (c : Config) (w : World) (m : Monitor) (children : List Monitor) (rest : Task)
    → All Sane rest
    → All Sane (release c w m children rest).1
unfolding release
release-Sane c w m [] rest h = h
release-Sane c w m (child ∷ children) rest h = ground arith

after_poll-Sane :
    (c : Config) (w : World) (res : CheckResult) (now : ℕ) (m child : Monitor)
    (children : List Monitor) (rest : Task)
    → All Sane rest
    → All Sane (after_poll c w res now m child children rest).1
unfolding after_poll
after_poll-Sane c w res now m child children rest h = ground arith

enter-Sane :
    (m : Monitor) (o : Option Transition) (rest : Task) → All Sane rest → All Sane (enter m o rest)
unfolding enter
enter-Sane m none rest h = h
enter-Sane m (some tr) rest h = (tt, h)

-- Every step of a task leaves its frames in order.
pub step-Sane :
    (c : Config) (res : CheckResult) (now : ℕ) (w : World) (t : Task)
    → All Sane t
    → All Sane (step c res now w t).1
unfolding step
step-Sane c res now w [] h = tt
step-Sane c res now w (Frame.polling m ∷ rest) h = ground arith
step-Sane c res now w (Frame.probing m ∷ rest) h =
    unfold observed in
    enter-Sane m (observe (w.states m.slug) res now).1 (Frame.returning res ∷ rest) (tt, h.1)
step-Sane c res now w (Frame.returning r ∷ Frame.released m child children ∷ rest) h =
    after_poll-Sane c w r now m child children rest h.1.1
step-Sane c res now w (Frame.returning r ∷ rest) h = h.1
step-Sane c res now w (Frame.transition m tr ∷ rest) h = on_transition-Sane c w m tr rest h.1
step-Sane c res now w (Frame.confirming m tr ps attempts ∷ rest) h =
    confirm-Sane c w m tr ps attempts rest h.0 h.1
step-Sane c res now w (Frame.recording m tr ∷ rest) h = ground arith
step-Sane c res now w (Frame.releasing m children ∷ rest) h = release-Sane c w m children rest h.1
step-Sane c res now w (Frame.released m child children ∷ rest) h = (tt, h.1)
step-Sane c res now w (Frame.recording_child m child tr children ∷ rest) h = (tt, h.1)
