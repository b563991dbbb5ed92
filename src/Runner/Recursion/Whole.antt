-- ===== src/Runner/Recursion/Whole.antt =====
-- A whole run, over the step that is tied to its recursions.
use tmx.Base.{ℕ, suc, false, ◌≤◌, Option, arith, Text}
use tmx.Limits.{flow_depth_max}
use tmx.Json.{Value}
use tmx.Flow.{ResolvedFlow}
use tmx.Runner.Session.{Ports, Session}
use tmx.Runner.Hoare.{Holds}
use tmx.Runner.Loop.{RunConfig}
use tmx.Runner.Loop.Safety.{IsGuarded}
use tmx.Runner.Loop.Results.{IsSeed, Finished}
use tmx.Runner.Lifecycle.{Stepper, run}
use tmx.Runner.Lifecycle.Firing.{IsDriven, AreKeyed}
use tmx.Runner.Lifecycle.Laws.{run_lem}
use tmx.Runner.Recursion.{Engine, step_at}
use tmx.Runner.Recursion.Parts.{GivesKeys, IsReliable}
use tmx.Runner.Recursion.Laws.{step_at-Keeps}

-- The step of a run at a depth, with fuel for every level.
abbrev pub steps :
    {W O F : Type 0} → Engine W O F → RunConfig → Ports W → Text → Value → Value → ℕ → Stepper W
steps engine config ports run_id matrix inputs depth =
    step_at engine config ports run_id matrix (suc flow_depth_max) inputs depth

pub steps-IsDriven :
    {W O F : Type 0} (engine : Engine W O F) (config : RunConfig) (ports : Ports W) (run_id : Text)
    (matrix inputs : Value) (depth : ℕ)
    → IsReliable engine ports
    → depth ≤ flow_depth_max
    → IsDriven ports (steps engine config ports run_id matrix inputs depth)
steps-IsDriven engine config ports run_id matrix inputs depth reliable shallow = record {
  emit = reliable.emit;
  steps = λ f t name state.
      step_at-Keeps engine config ports run_id reliable matrix (suc flow_depth_max) inputs depth f t
        name state shallow (omega arith);
}

-- A run outside a hook, with its hooks, sub-flows, maps and evals, from a guarded session: no assertion
-- fails, and each event that reaches the sink is sealed, wherever the run ends, by a masker that holds
-- every secret which the call that sent it had resolved by then. Where it gives an outcome, the status is
-- terminal, the state is an object, and each task up to where the run stopped has one result, in the order of
-- the flow: every task where the status is ok. Output keys that are given are not empty, in the flow and in
-- those that are loaded, the tasks of hook bodies are named and keyed, the state to start from is an
-- object, no call of a port panics, the counter of the maskers does not come round to 0, and the
-- scheduler, the guard and `run_eval` keep what their callbacks keep and do not panic.
pub run_whole_lem :
    {W O F : Type 0} (engine teardown_engine : Engine W O F) (config : RunConfig)
    (ports teardown : Ports W) (run_id : Text) (matrix inputs : Value) (depth : ℕ)
    (flow : ResolvedFlow) (seed : Option Value) (s : Session W)
    → IsReliable engine ports
    → IsReliable teardown_engine teardown
    → depth ≤ flow_depth_max
    → AreKeyed (record { context = flow.context; config = config; in_hook = false })
    → GivesKeys flow
    → IsSeed seed
    → IsGuarded s
    → IsGuarded
        (run run_id ports
          (steps engine config ports run_id matrix inputs depth)
          teardown
          (steps teardown_engine config teardown run_id matrix inputs depth)
          config
          false
          flow
          seed
          s).1
      × Holds
          (λ out. Finished flow.tasks out.pipeline)
          (run run_id ports
            (steps engine config ports run_id matrix inputs depth)
            teardown
            (steps teardown_engine config teardown run_id matrix inputs depth)
            config
            false
            flow
            seed
            s).0
run_whole_lem engine teardown_engine config ports teardown run_id matrix inputs depth flow seed s
      reliable later shallow bodies outputs object_seed i =
    run_lem run_id ports teardown _ _ config flow seed s
      (steps-IsDriven engine config ports run_id matrix inputs depth reliable shallow)
      (steps-IsDriven teardown_engine config teardown run_id matrix inputs depth later shallow)
      bodies outputs object_seed i
