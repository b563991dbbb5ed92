-- ===== src/Runner/Lifecycle.antt =====
-- A run from its start to its end: the lifecycle hooks (crates/tmx-core/src/hooks.rs) and
-- `PipelineRunner::run` of runner.rs.
--
-- A `Stepper` is the guarded step for the tasks of a flow. The teardown has ports and a stepper of its
-- own, those of a token that never fires.
pub mod Firing
pub mod Laws
use tmx.Base.{
  ℕ, ◌-◌, Bool, true, false, not, Option, none, some, List, [], ◌∷◌, ◌++◌, String, Text, bytes,
  length, ltb, if◌then◌else◌,
}
use tmx.Limits.{hook_tasks_max}
use tmx.Json.{Value}
use tmx.Error.{
  Result, ok, err, panic, RunError, validation_error, resolution_error, plain, format, text, num,
  assert, reject_if,
}
use tmx.Model.{
  RunStatus, TaskStatus, run_start, run_finish, hook_start, hook_finish, Pipeline, is_terminal,
}
use tmx.Cancel.{CancelReason}
use tmx.Flow.{Task, Hook, Hooks, Context, ResolvedFlow}
use tmx.Resolve.{desugar_tasks}
use tmx.Runner.Names.{validate_task_names}
use tmx.Runner.Session.{Ports, Session, Run, pure, lift, ask, emit_event, ◌>>=◌}
use tmx.Runner.Loop.{RunConfig, StepOutcome, Outcome, run_tasks, status_of}

pub data HookKind : Type 0 where
  create change destroy error : HookKind

unfoldable pub as_str : HookKind → String
as_str create = "create"
as_str change = "change"
as_str destroy = "destroy"
as_str error = "error"

pub record HookRunner : Type 0 where
  pub context : Option Context
  pub config : RunConfig
  pub in_hook : Bool

abbrev pub hook_of : Hooks → HookKind → Option Hook
hook_of hooks create = hooks.create
hook_of hooks change = hooks.change
hook_of hooks destroy = hooks.destroy
hook_of hooks error = hooks.error

abbrev pub hook_in : Option Hooks → HookKind → Option Hook
hook_in none kind = none
hook_in (some hooks) kind = hook_of hooks kind

abbrev pub hook_from : Option Context → HookKind → Option Hook
hook_from none kind = none
hook_from (some c) kind = hook_in c.hooks kind

unfoldable pub body_for : HookRunner → HookKind → Option Hook
body_for runner kind = hook_from runner.context kind

abbrev pub unsupported_hook : RunError
unsupported_hook =
    resolution_error "unsupported_reference"
      (plain (bytes "a referenced hook body is resolved by the loading unit, not the runner"))

abbrev pub hook_flow : HookRunner → HookKind → Result (List Task) → Result ResolvedFlow
hook_flow runner kind (ok ts) = ok (record {
  name = some (bytes (as_str kind) ++ bytes "-hook");
  environment = none;
  context = runner.context;
  inputs = [];
  tasks = ts;
})
hook_flow runner kind (err e) = err e
hook_flow runner kind panic = panic

unfoldable pub body_flow : HookRunner → HookKind → Hook → Result ResolvedFlow
body_flow runner kind (Hook.tasks ts) = hook_flow runner kind (desugar_tasks ts)
body_flow runner kind (Hook.reference r) = err unsupported_hook
body_flow runner kind (Hook.use_ref r inputs) = err unsupported_hook

abbrev pub too_many_hook_tasks : HookKind → RunError
too_many_hook_tasks kind = validation_error "too_many_hook_tasks" (
    format "a {} hook may hold at most {HOOK_TASKS_MAX} tasks"
      (text (bytes (as_str kind)) ∷ num hook_tasks_max ∷ []))

abbrev pub hook_status : Option RunError → TaskStatus
hook_status none = TaskStatus.ok
hook_status (some e) = TaskStatus.error

abbrev pub flow_name : Option Text → Text
flow_name none = bytes "flow"
flow_name (some n) = n

pub record RunOutcome : Type 0 where
  pub pipeline : Pipeline
  pub changed_tasks : List Text

abbrev pub Stepper : Type 0 → Type 0
Stepper W = ResolvedFlow → Task → Text → Value → Run W StepOutcome

abbrev pub finished_outcome : Outcome → RunOutcome
finished_outcome out = record {
  pipeline = record (out.pipeline) { status = status_of out.cancelled out.failure };
  changed_tasks = out.changed;
}

module _ {W : Type 0} (run_id : Text) where
  -- The body of a hook, between the two events of the hook.
  unfoldable pub fire_body : Ports W → Stepper W → HookRunner → HookKind → ResolvedFlow → Run W Bool
  fire_body ports step runner kind body = do
    let name = bytes (as_str kind)
    start_ms ← ask ports.now_ms
    _ ← emit_event ports (hook_start name)
    outcome ← run_tasks ports runner.config (pure tt) (step body) run_id body none
    _ ← lift (assert (is_terminal outcome.pipeline.status))
    end_ms ← ask ports.now_ms
    _ ← emit_event ports (hook_finish name (hook_status outcome.failure) (end_ms - start_ms))
    pure true

  unfoldable pub fire_hook : Ports W → Stepper W → HookRunner → HookKind → Hook → Run W Bool
  fire_hook ports step runner kind hook = do
    _ ← lift (assert (not runner.in_hook))
    body ← lift (body_flow runner kind hook)
    _ ← lift (reject_if (ltb hook_tasks_max (length body.tasks)) (too_many_hook_tasks kind))
    fire_body ports step runner kind body

  abbrev pub fire_declared : Ports W → Stepper W → HookRunner → HookKind → Option Hook → Run W Bool
  fire_declared ports step runner kind none = pure false
  fire_declared ports step runner kind (some hook) = fire_hook ports step runner kind hook

  unfoldable pub fire : Ports W → Stepper W → HookRunner → HookKind → Run W Bool
  fire ports step runner kind = fire_declared ports step runner kind (body_for runner kind)

  unfoldable pub fire_error :
      Ports W → Stepper W → HookRunner → Option CancelReason → Option RunError → Run W Bool
  fire_error ports step runner none (some e) = fire ports step runner error
  fire_error ports step runner none none = pure false
  fire_error ports step runner (some reason) f = pure false

  unfoldable pub run :
      Ports W
      → Stepper W
      → Ports W
      → Stepper W
      → RunConfig
      → Bool
      → ResolvedFlow
      → Option Value
      → Run W RunOutcome
  run ports step teardown_ports teardown_step config in_hook flow seed = do
    let hooks : HookRunner = record { context = flow.context; config = config; in_hook = in_hook }
    _ ← lift (validate_task_names flow)
    start_ms ← ask ports.now_ms
    _ ← emit_event ports (run_start run_id (flow_name flow.name))
    _ ← fire ports step hooks create
    outcome ←
        run_tasks ports config (fire ports step hooks change >>= λ _. pure tt) (step flow) run_id
          flow seed
    let status = status_of outcome.cancelled outcome.failure
    _ ← fire_error teardown_ports teardown_step hooks outcome.cancelled outcome.failure
    _ ← fire teardown_ports teardown_step hooks destroy
    end_ms ← ask ports.now_ms
    _ ← emit_event ports (run_finish run_id status (end_ms - start_ms))
    _ ← lift (assert (is_terminal status))
    pure (finished_outcome outcome)
