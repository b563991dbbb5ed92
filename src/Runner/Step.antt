-- ===== src/Runner/Step.antt =====
-- One step of the loop (runner.rs): `run_step` and `check_produces`.
--
-- The dispatch of a task and the recursions into a sub-flow, a map and an eval are the fields of `Work`,
-- which Recursion fills; the schema validator is a parameter.
pub mod Laws
use tmx.Base.{
  ℕ, Bool, true, false, Option, none, some, List, [], ◌∷◌, Text, bytes, any, if◌then◌else◌,
}
use tmx.Str.{contains}
use tmx.Json.{Value, no_fields, object}
use tmx.IndexMap.{IndexMap}
use tmx.Error.{Result, ok, err, panic, RunError, run_failure_error, with_task, format, text}
use tmx.Model.{task_start, Severity, error}
use tmx.Interpolate.{Numbers, Scope}
use tmx.Interpolate.Eval.{evaluate}
use tmx.Dispatch.Template.{Rendering, is_truthy, interp_template}
use tmx.Flow.{
  EnvMap, SecretValue, FlowWith, MapWith, EvalWith, InnerTask, Subject, Task, ResolvedFlow,
}
use tmx.Runner.Context.{resolve_context, env_to_value}
use tmx.Runner.Session.{Ports, Session, Run, pure, lift, emit_event, ◌>>=◌}
use tmx.Runner.Loop.{RunConfig, ProducesCheck, off, warn, strict, StepOutcome, skipped, produced}
use tmx.Runner.Secrets.{resolve_secrets}

abbrev pub MapTask : Type 0
MapTask = MapWith × InnerTask

abbrev pub EvalTask : Type 0
EvalTask = EvalWith × Subject

pub data Dispatch (O : Type 0) : Type 0 where
  leaf : O → Dispatch O
  flow : FlowWith → Dispatch O
  map : MapTask → Dispatch O
  eval : EvalTask → Dispatch O

pub record Work (W O F : Type 0) : Type 0 where
  pub numbers : Numbers F
  pub rendering : Rendering
  pub dispatch_task : Task → Text → Scope → EnvMap → ℕ → Run W (Dispatch O)
  pub normalize_output : O → Value
  pub run_subflow : FlowWith → Scope → ℕ → Run W Value
  pub run_map_task : MapTask → Text → Scope → EnvMap → ℕ → Run W Value
  pub run_eval_task : EvalTask → Text → Scope → EnvMap → ℕ → Run W Value
  pub validate_produces : Value → Value → Result (List Severity)

abbrev pub is_error : Severity → Bool
is_error error = true
is_error _ = false

abbrev pub produces_mismatch : Text → RunError
produces_mismatch name =
    with_task
      (run_failure_error "produces_mismatch"
        (format "task {name:?} output does not conform to its produces schema" (text name ∷ [])))
      name

abbrev pub ignored : {A : Type 0} → Result A → Result (Unit {0})
ignored (ok a) = ok tt
ignored (err e) = err e
ignored panic = panic

abbrev pub conforming : Text → Result (List Severity) → Result (Unit {0})
conforming name (ok diagnostics) =
    if any is_error diagnostics then err (produces_mismatch name) else ok tt
conforming name (err e) = err e
conforming name panic = panic

abbrev pub map_ok : {A B : Type 0} → (A → B) → Result A → Result B
map_ok f (ok a) = ok (f a)
map_ok f (err e) = err e
map_ok f panic = panic

module _ {W O F : Type 0} (work : Work W O F) (config : RunConfig) where
  abbrev pub checked : ProducesCheck → Value → Value → Text → Result (Unit {0})
  checked off schema output name = ok tt
  checked warn schema output name = ignored (work.validate_produces output schema)
  checked strict schema output name = conforming name (work.validate_produces output schema)

  abbrev pub checked_against : Option Value → Value → Text → Result (Unit {0})
  checked_against none output name = ok tt
  checked_against (some schema) output name = checked config.check_produces schema output name

  unfoldable pub check_produces : Task → Value → Text → Result (Unit {0})
  check_produces task output name = checked_against task.produces output name

  module _ (ports : Ports W) (matrix inputs : Value) (depth : ℕ) where
    abbrev pub gate_scope : EnvMap → Value → Scope
    gate_scope env state = record {
      inputs = inputs;
      env = env_to_value env;
      secrets = object no_fields;
      tasks = state;
      item = none;
      item_alias = none;
      item_index = none;
      case_value = none;
      output = none;
      matrix = matrix;
    }

    -- The `if` gate: true where there is none. A condition with an opening `${{` is a template.
    unfoldable pub gate : Option Text → Scope → Result Bool
    gate none scope = ok true
    gate (some condition) scope = map_ok (is_truthy work.numbers) (
        if contains (bytes "${{") condition
        then interp_template work.numbers work.rendering condition scope
        else evaluate work.numbers condition scope)

    -- What a leaf, a map and an eval do with their output.
    abbrev pub conform : Task → Text → Value → Run W StepOutcome
    conform task name output =
        lift (check_produces task output name) >>= λ _. pure (produced output)

    unfoldable pub after_dispatch : Task → Text → Scope → EnvMap → Dispatch O → Run W StepOutcome
    after_dispatch task name scope env (leaf adapter) =
        conform task name (work.normalize_output adapter)
    after_dispatch task name scope env (flow fw) =
        work.run_subflow fw scope depth >>= λ output. pure (produced output)
    after_dispatch task name scope env (map mw) =
        work.run_map_task mw name scope env depth >>= conform task name
    after_dispatch task name scope env (eval ew) =
        work.run_eval_task ew name scope env depth >>= conform task name

    -- The step of a task whose gate is open.
    unfoldable pub open_step :
        Task → Text → Value → EnvMap → IndexMap SecretValue → Run W StepOutcome
    open_step task name state env secret_defs = do
      secrets ← resolve_secrets ports task secret_defs
      let scope = record (gate_scope env state) { secrets = secrets }
      _ ← emit_event ports (task_start name)
      d ← work.dispatch_task task name scope env depth
      after_dispatch task name scope env d

    abbrev pub gated : Bool → Run W StepOutcome → Run W StepOutcome
    gated true m = m
    gated false m = pure skipped

    unfoldable pub run_step : ResolvedFlow → Task → Text → Value → Run W StepOutcome
    run_step f task name state = lift (resolve_context f.context task) >>= λ c.
        lift (gate task.if_condition (gate_scope c.0 state)) >>= λ is_open.
        gated is_open (open_step task name state c.0 c.1)
