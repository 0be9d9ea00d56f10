-- ===== src/Scheduler/System.antt =====
-- All tasks together: any task may take the next step, and any enabled monitor's loop may start
-- a poll. This allows every order in which the event loop can run the tasks, and more.
use ip_montior.Base.{if◌then◌else◌, str_eq, ℕ, false, List, [], ◌∷◌, ◌++◌, ◌≡◌, Memᴰ}
use ip_montior.Check.{CheckResult}
use ip_montior.State.{initial}
use ip_montior.Config.Types.{Config, Monitor, effective}
use ip_montior.Rollup.{States}
use ip_montior.Scheduler.{World, Frame, Task, step, enabled_monitors}

pub record System : Type 0 where
  pub world : World
  pub tasks : List Task

pub data SystemStep (c : Config) (s u : System) : Type 0 where
  advance :
      (before : List Task) (t : Task) (after : List Task) (res : CheckResult) (now : ℕ)
      → s.tasks ≡ before ++ t ∷ after
      → u ≡ record {
        world = (step c res now s.world t).0;
        tasks = before ++ (step c res now s.world t).1 ∷ after;
      }
      → SystemStep c s u
  start :
      (m : Monitor)
      → Memᴰ m (enabled_monitors c)
      → u ≡ record { world = s.world; tasks = (Frame.polling m ∷ []) ∷ s.tasks }
      → SystemStep c s u

pub data Reachable (c : Config) (s : System) : System → Type 0 where
  here : Reachable c s s
  next : {t u : System} → Reachable c s t → SystemStep c t u → Reachable c s u

-- The states of `Scheduler.__init__`; a slug that is not in the configuration is never read.
unfoldable pub initial_states : Config → List Monitor → ℕ → States
initial_states c [] now s = initial c.defaults.failures_to_down c.defaults.recoveries_to_up now
initial_states c (m ∷ ms) now s =
    if str_eq m.slug s
    then initial (effective m.failures_to_down c.defaults.failures_to_down)
        (effective m.recoveries_to_up c.defaults.recoveries_to_up) now
    else initial_states c ms now s

-- A new scheduler, started at a time.
unfoldable pub boot : Config → ℕ → System
boot c now = record {
  world = record {
    states = initial_states c (enabled_monitors c) now;
    locks = λ s. false;
    store = record { results = []; events = [] };
    outbox = [];
  };
  tasks = [];
}
