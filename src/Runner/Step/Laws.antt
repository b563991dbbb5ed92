-- ===== src/Runner/Step/Laws.antt =====
-- What a step keeps, over work that keeps it.
use tmx.Base.{ℕ, ◌<◌, ◌≢◌, Bool, true, false, Option, none, some, arith, Text}
use tmx.Limits.{flow_depth_max}
use tmx.Json.{Value}
use tmx.IndexMap.{IndexMap}
use tmx.Error.{Result, ok, err, panic}
use tmx.Mask.{Masked}
use tmx.Model.{Event, task_start}
use tmx.Flow.{EnvMap, SecretSource, SecretValue, FlowWith, Task, Context, ResolvedFlow}
use tmx.Runner.Context.{resolve_context}
use tmx.Runner.Session.{Ports, Session, Run}
use tmx.Runner.Hoare.{Holds, no_panic_lem, Keeps, bind-Keeps, pure-Keeps, lift-Keeps}
use tmx.Runner.Loop.{RunConfig, ProducesCheck, off, warn, strict, StepOutcome, skipped, produced}
use tmx.Runner.Loop.Safety.{IsGuarded, emit_event-Keeps}
use tmx.Runner.Secrets.{resolve_secrets-Keeps}
use tmx.Interpolate.Outcome.{Yields, Any}
use tmx.Interpolate.Eval.Laws.{evaluate-Yields}
use tmx.Dispatch.Template.Laws.{interp_template-Yields}
use tmx.Runner.Step.{
  MapTask, EvalTask, Scope, Dispatch, leaf, flow, map, eval, Work, checked_against, check_produces,
  gate, conform, after_dispatch, open_step, gated, run_step,
}

pub never_panics : {A : Type 0} (r : Result A) → Yields Any r → r ≢ panic
unfolding Yields
never_panics (ok a) h e = absurd cc
never_panics (err x) h e = absurd cc
never_panics panic h e = h

-- A flow is dispatched only within the depth bound.
abbrev pub Allowed : {O : Type 0} → ℕ → Dispatch O → Type 0
Allowed depth (flow fw) = depth < flow_depth_max
Allowed depth d = Unit

-- What a step at a depth needs of the work: no call panics, and each keeps the session guarded.
pub record IsSafe {W O F : Type 0} (work : Work W O F) (ports : Ports W) (depth : ℕ) : Type 0 where
  pub validate_produces : (v w : Value) → work.validate_produces v w ≢ panic
  pub emit : (e : Masked Event) (w : W) → (ports.emit e w).0 ≢ panic
  pub resolve_secret : (s : SecretSource) (w : W) → Holds (λ _. Unit) (ports.resolve_secret s w).0
  pub dispatch_task :
      (t : Task) (n : Text) (s : Scope) (env : EnvMap)
      → Keeps IsGuarded (Allowed depth) (work.dispatch_task t n s env depth)
  pub run_subflow :
      (fw : FlowWith) (s : Scope)
      → depth < flow_depth_max
      → Keeps IsGuarded (λ _. Unit) (work.run_subflow fw s depth)
  pub run_map_task :
      (mw : MapTask) (n : Text) (s : Scope) (env : EnvMap)
      → Keeps IsGuarded (λ _. Unit) (work.run_map_task mw n s env depth)
  pub run_eval_task :
      (ew : EvalTask) (n : Text) (s : Scope) (env : EnvMap)
      → Keeps IsGuarded (λ _. Unit) (work.run_eval_task ew n s env depth)

module _ {W O F : Type 0} (work : Work W O F) (config : RunConfig) (ports : Ports W)
    (matrix inputs : Value) (depth : ℕ) (safe : IsSafe work ports depth) where
  abbrev Guarded : Session W → Type 0
  Guarded = IsGuarded

  check_produces_lem :
      (task : Task) (output : Value) (name : Text)
      → check_produces work config task output name ≢ panic
  unfolding check_produces
  check_produces_lem task output name = against task.produces config.check_produces
    where
      against :
          (schema : Option Value) (mode : ProducesCheck)
          → checked_against work (record config { check_produces = mode }) schema output name
            ≢ panic
      against none mode = ground arith
      against (some schema) off = ground arith
      against (some schema) warn = ground (arith, safe.validate_produces output schema)
      against (some schema) strict = ground (arith, safe.validate_produces output schema)

  conform-Keeps :
      (task : Task) (name : Text) (output : Value)
      → Keeps Guarded (λ _. Unit) (conform work config ports matrix inputs depth task name output)
  conform-Keeps task name output =
      bind-Keeps Guarded (λ _. Unit) _ _ _
        (lift-Keeps Guarded _ _ (no_panic_lem _ (check_produces_lem task output name)))
        (λ _ _. pure-Keeps Guarded _ (produced output) tt)

  after_dispatch-Keeps :
      (task : Task) (name : Text) (scope : Scope) (env : EnvMap) (d : Dispatch O)
      → Allowed depth d
      → Keeps Guarded
          (λ _. Unit)
          (after_dispatch work config ports matrix inputs depth task name scope env d)
  unfolding after_dispatch
  after_dispatch-Keeps task name scope env (leaf adapter) allowed =
      conform-Keeps task name (work.normalize_output adapter)
  after_dispatch-Keeps task name scope env (flow fw) allowed =
      bind-Keeps Guarded (λ _. Unit) _ _ _ (safe.run_subflow fw scope allowed)
        (λ output _. pure-Keeps Guarded _ (produced output) tt)
  after_dispatch-Keeps task name scope env (map mw) allowed =
      bind-Keeps Guarded (λ _. Unit) _ _ _ (safe.run_map_task mw name scope env)
        (λ output _. conform-Keeps task name output)
  after_dispatch-Keeps task name scope env (eval ew) allowed =
      bind-Keeps Guarded (λ _. Unit) _ _ _ (safe.run_eval_task ew name scope env)
        (λ output _. conform-Keeps task name output)

  open_step-Keeps :
      (task : Task) (name : Text) (state : Value) (env : EnvMap) (defs : IndexMap SecretValue)
      → Keeps Guarded
          (λ _. Unit)
          (open_step work config ports matrix inputs depth task name state env defs)
  unfolding open_step
  open_step-Keeps task name state env defs =
      bind-Keeps Guarded (λ _. Unit) _ _ _
        (resolve_secrets-Keeps ports safe.resolve_secret task defs)
        (λ secrets _.
          bind-Keeps Guarded (λ _. Unit) _ _ _ (emit_event-Keeps ports safe.emit (task_start name))
            (λ _ _.
              bind-Keeps Guarded (Allowed depth) _ _ _ (safe.dispatch_task task name _ env)
                (λ d allowed. after_dispatch-Keeps task name _ env d allowed)))

  gate_lem :
      (condition : Option Text) (scope : Scope)
      → gate work config ports matrix inputs depth condition scope ≢ panic
  unfolding gate
  gate_lem none scope = ground arith
  gate_lem (some c) scope = ground (
    arith,
    never_panics _ (interp_template-Yields work.numbers work.rendering c scope),
    never_panics _ (evaluate-Yields work.numbers c scope),
  )

  resolve_context_lem : (ctx : Option Context) (task : Task) → resolve_context ctx task ≢ panic
  unfolding resolve_context
  resolve_context_lem ctx task = ground arith

  gated-Keeps :
      (is_open : Bool) (m : Run W StepOutcome)
      → Keeps Guarded (λ _. Unit) m
      → Keeps Guarded (λ _. Unit) (gated work config ports matrix inputs depth is_open m)
  gated-Keeps true m h = h
  gated-Keeps false m h = pure-Keeps Guarded _ skipped tt

  pub run_step-Keeps :
      (f : ResolvedFlow) (task : Task) (name : Text) (state : Value)
      → Keeps IsGuarded
          (λ _. Unit)
          (run_step work config ports matrix inputs depth f task name state)
  unfolding run_step
  run_step-Keeps f task name state =
      bind-Keeps Guarded (λ _. Unit) _ _ _
        (lift-Keeps Guarded _ _ (no_panic_lem _ (resolve_context_lem f.context task)))
        (λ c _.
          bind-Keeps Guarded (λ _. Unit) _ _ _
            (lift-Keeps Guarded _ _ (no_panic_lem _ (gate_lem task.if_condition _)))
            (λ is_open _. gated-Keeps is_open _ (open_step-Keeps task name state c.0 c.1)))
