-- ===== src/Runner/Recursion.antt =====
-- The recursions of a step (runner.rs): `run_subflow`, `run_map_task`, `run_eval_task` and
-- `run_inner_task`, and the step that they are tied to.
--
-- `Engine` holds what is not modelled: the calls of the adapters for a task that is neither a flow nor a
-- fan-out, the loader, the scheduler, the cancel guard around a step, and `run_eval` of fanout.rs, which is handed the callback that
-- runs a case. A level of sub-flows costs a unit of fuel, and without fuel it panics.
pub mod Parts
pub mod Laws
pub mod Whole
use tmx.Base.{
  ℕ, zero, suc, ◌+◌, ◌-◌, Option, none, some, List, [], ◌∷◌, Text, ltb, leb, bytes, length,
  if◌then◌else◌,
}
use tmx.Limits.{flow_depth_max, concurrency_max}
use tmx.Json.{Value, null, no_fields, object, get, as_array}
use tmx.Error.{
  Result, ok, err, panic, RunError, resolution_error, with_task, format, num, text, assert,
}
use tmx.Model.{map_item_finish, eval_case_finish, Severity}
use tmx.Mask.{Masker, Masked, redact_value}
use tmx.Mask.Routing.{register_all}
use tmx.Cancel.{CancelReason, to_error}
use tmx.Interpolate.{Numbers, Scope}
use tmx.Dispatch.Template.{Rendering, interp_value}
use tmx.Flow.{
  EnvMap, FlowWith, MapWith, EvalWith, TaskFields, TaskWith, InnerTask, inner, Subject, no_subject,
  subject, Task, Flow, ResolvedFlow,
}
use tmx.Resolve.{resolve, merged_inputs}
use tmx.Fanout.Map.{Scheduler, run_map}
use tmx.Runner.Names.{validate_task_names}
use tmx.Runner.Session.{Ports, Session, Run, pure, lift, attempt, ask, emit_event, ◌>>=◌}
use tmx.Runner.Loop.{RunConfig, Outcome, StepOutcome, run_tasks}
use tmx.Runner.Secrets.{answered}
use tmx.Runner.Step.{MapTask, EvalTask, Dispatch, leaf, flow, map, eval, Work, run_step}

pub record Engine (W O F : Type 0) : Type 0 where
  pub numbers : Numbers F
  pub rendering : Rendering
  pub call_adapter : TaskWith → Text → Scope → EnvMap → W → Result O × W
  pub normalize_output : O → Value
  pub load_flow : Text → W → Result Flow × W
  pub scheduler : Scheduler W
  pub guard : Run W StepOutcome → Run W StepOutcome
  pub run_eval :
      EvalWith → Subject → Text → Scope → ℕ → ℕ → (ℕ → Value → ℕ → Run W Value) → Run W Value
  pub validate_produces : Value → Value → Result (List Severity)

abbrev pub flow_depth_exceeded : Text → ℕ → RunError
flow_depth_exceeded name depth =
    with_task
      (resolution_error "flow_depth_exceeded" (
        format
          "flow task {name:?} at depth {depth} would recurse past the {FLOW_DEPTH_MAX}-level bound"
          (text name ∷ num depth ∷ num flow_depth_max ∷ [])))
      name

abbrev pub or_max : Option ℕ → ℕ
or_max none = concurrency_max
or_max (some cap) = cap

abbrev pub or_name : Text → Option Text → Text
or_name name none = name
or_name name (some own) = own

abbrev pub sub_inputs_of : Option Value → (Value → Result Value) → Result Value
sub_inputs_of none interp = ok (object no_fields)
sub_inputs_of (some v) interp = interp v

-- The state of a sub-flow that ended, unless it was cancelled or failed.
abbrev pub settled : Option CancelReason → Option RunError → Value → Result Value
settled (some reason) failure state = err (to_error reason)
settled none (some e) state = err e
settled none none state = ok state

abbrev pub case_count : Value → ℕ
case_count (object fs) = elim (get (bytes "cases") fs) [
  | none ↦ 0
  | some v ↦ elim (as_array v) [ none ↦ 0 | some cases ↦ length cases ]
]
case_count other = 0

module _ {W : Type 0} where
  abbrev pub restored : {A : Type 0} → Session W → Result A × Session W → Result A × Session W
  restored s (r, t) = (r, record t { masker = s.masker; resolved_secrets = s.resolved_secrets })

  -- A call under another masker, with a copy of the resolved secrets.
  unfoldable pub under : {A : Type 0} → Masker → Run W A → Run W A
  under m call = λ s. restored s (call (record s { masker = m }))

  -- `redact_value`, as it is then owned, by the masker at hand.
  unfoldable pub redacted : Value → Run W Value
  redacted v = λ s. (tmx.Error.◌>>=◌ (redact_value s.masker v) (λ masked. ok masked.value), s)

  unfoldable pub seeded_masker : ℕ → Run W Masker
  seeded_masker id = λ s. (tmx.Error.◌>>=◌ (tmx.Mask.new id).0 (register_all s.resolved_secrets), s)

module _ {W O F : Type 0} (engine : Engine W O F) (config : RunConfig) (ports : Ports W)
    (run_id : Text) where
  abbrev pub dispatch_flow : FlowWith → Text → ℕ → Result (Dispatch O)
  dispatch_flow fw name depth =
      if leb flow_depth_max depth
      then err (flow_depth_exceeded name depth)
      else tmx.Error.◌>>=◌ (assert (ltb depth flow_depth_max)) (λ _. ok (flow fw))

  unfoldable pub dispatch_with : TaskWith → Text → Scope → EnvMap → ℕ → Run W (Dispatch O)
  dispatch_with (TaskWith.map mw t) name scope env depth = pure (map (mw, t))
  dispatch_with (TaskWith.eval ew s) name scope env depth = pure (eval (ew, s))
  dispatch_with (TaskWith.flow fw) name scope env depth = lift (dispatch_flow fw name depth)
  dispatch_with w name scope env depth =
      answered (engine.call_adapter w name scope env) >>= λ o. pure (leaf o)

  -- `sub_step` is the step of a sub-flow's loop, on its inputs and its depth.
  module _ (sub_step : Value → ℕ → ResolvedFlow → Task → Text → Value → Run W StepOutcome) where
    unfoldable pub run_subflow : FlowWith → Scope → ℕ → Run W Value
    run_subflow fw scope depth = do
      _ ← lift (assert (ltb depth flow_depth_max))
      loaded ← answered (engine.load_flow fw.use_ref)
      sub_flow ← lift (resolve loaded)
      _ ← lift (validate_task_names sub_flow)
      given ←
          lift (sub_inputs_of fw.inputs (λ v. interp_value engine.numbers engine.rendering v scope))
      out ←
          run_tasks ports config (pure tt)
            (sub_step (merged_inputs given sub_flow.inputs) (depth + 1) sub_flow) run_id sub_flow
            none
      lift (settled out.cancelled out.failure out.pipeline.state)

    -- A flow as an inner task: under a fresh masker that holds what is resolved so far.
    unfoldable pub run_inner_flow : FlowWith → Scope → ℕ → Run W Value
    run_inner_flow fw scope depth = do
      id ← ask ports.next_masker_id
      sub_masker ← seeded_masker id
      under sub_masker (run_subflow fw scope depth >>= redacted)

    -- The callback of a map: the item's event is emitted also where the item failed.
    unfoldable pub run_item : Text → ℕ → Run W Value → Run W Value
    run_item name index call = do
      start_ms ← ask ports.now_ms
      result ← attempt call
      end_ms ← ask ports.now_ms
      _ ← emit_event ports (map_item_finish name index (end_ms - start_ms))
      lift result

    abbrev pub item_scope : MapWith → Scope → ℕ → Value → Scope
    item_scope mw scope index element = record scope {
      item = some element;
      item_alias = mw.as_binding;
      item_index = some index;
    }

    unfoldable pub run_map_over :
        MapWith → InnerTask → Text → Scope → ℕ → (Scope → Run W Value) → Run W Value
    run_map_over mw t name scope depth run_inner =
        run_map engine.numbers ports.to_value engine.rendering engine.scheduler
          (λ index element _. run_item name index (run_inner (item_scope mw scope index element)))
          mw t name scope (or_max config.concurrency_cap) depth

    -- The events of the scored cases, from an index on.
    unfoldable pub emit_cases : Text → ℕ → ℕ → Run W (Unit {0})
    emit_cases name index zero = pure tt
    emit_cases name index (suc count) =
        emit_event ports (eval_case_finish name index) >>= λ _. emit_cases name (index + 1) count

    unfoldable pub run_eval_over :
        EvalWith → Subject → Text → Scope → ℕ → (Scope → Run W Value) → Run W Value
    run_eval_over ew s name scope depth run_subject = do
      scorecard ←
          engine.run_eval ew s name scope (or_max config.concurrency_cap) depth
            (λ index element _. run_subject (record scope { case_value = some element }))
      _ ← emit_cases name 0 (case_count scorecard)
      pure scorecard

    unfoldable mutual
      pub run_inner_task : InnerTask → Text → Scope → EnvMap → ℕ → Run W Value
      run_inner_task (inner fields w) name scope env depth =
          run_inner_with w (or_name name fields.name) scope env depth

      -- A map and an eval are dispatched to themselves, and a flow only within the depth bound.
      pub run_inner_with : TaskWith → Text → Scope → EnvMap → ℕ → Run W Value
      run_inner_with (TaskWith.map mw t) name scope env depth =
          run_map_over mw t name scope depth (λ inside. run_inner_task t name inside env depth)
      run_inner_with (TaskWith.eval ew s) name scope env depth =
          run_eval_over ew s name scope depth (λ inside. run_subject s name inside env depth)
      run_inner_with (TaskWith.flow fw) name scope env depth =
          lift (dispatch_flow fw name depth) >>= λ _. run_inner_flow fw scope depth
      run_inner_with w name scope env depth =
          answered (engine.call_adapter w name scope env) >>= λ o. pure (engine.normalize_output o)

      pub run_subject : Subject → Text → Scope → EnvMap → ℕ → Run W Value
      run_subject no_subject name scope env depth = pure null
      run_subject (subject t) name scope env depth = run_inner_task t name scope env depth

    unfoldable pub run_map_task : MapTask → Text → Scope → EnvMap → ℕ → Run W Value
    run_map_task (mw, t) name scope env depth =
        run_map_over mw t name scope depth (λ inside. run_inner_task t name inside env depth)

    unfoldable pub run_eval_task : EvalTask → Text → Scope → EnvMap → ℕ → Run W Value
    run_eval_task (ew, s) name scope env depth =
        run_eval_over ew s name scope depth (λ inside. run_subject s name inside env depth)

    abbrev pub work_over : Work W O F
    work_over = record {
      numbers = engine.numbers;
      rendering = engine.rendering;
      dispatch_task = λ task. dispatch_with task.with;
      normalize_output = engine.normalize_output;
      run_subflow = run_subflow;
      run_map_task = run_map_task;
      run_eval_task = run_eval_task;
      validate_produces = engine.validate_produces;
    }

  module _ (matrix : Value) where
    unfoldable pub step_at : ℕ → Value → ℕ → ResolvedFlow → Task → Text → Value → Run W StepOutcome
    step_at zero inputs depth f task name state = lift panic
    step_at (suc n) inputs depth f task name state =
        engine.guard
          (run_step (work_over (step_at n)) config ports matrix inputs depth f task name state)
