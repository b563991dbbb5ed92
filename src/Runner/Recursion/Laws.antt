-- ===== src/Runner/Recursion/Laws.antt =====
-- A step keeps the session guarded, through sub-flows, maps and evals.
use tmx.Base.{ℕ, zero, suc, ◌+◌, ◌≤◌, ◌<◌, ◌≡◌, true, false, Option, none, some, arith, Text, ◌==◌}
use tmx.Limits.{flow_depth_max}
use tmx.Json.{Value, null}
use tmx.Error.{RunError}
use tmx.Cancel.{CancelReason}
use tmx.Flow.{
  EnvMap, FlowWith, MapWith, EvalWith, TaskWith, InnerTask, inner, Subject, no_subject, subject,
  Task, ResolvedFlow,
}
use tmx.Interpolate.{Scope}
use tmx.Dispatch.Template.{interp_value}
use tmx.Dispatch.Template.Laws.{interp_value-Yields}
use tmx.Resolve.{resolve}
use tmx.Runner.Session.{Ports, Session, Run, pure, ◌>>=◌}
use tmx.Runner.Hoare.{
  Holds, Post, no_panic_lem, Keeps, bind-Keeps, pure-Keeps, lift-Keeps, assert-Keeps, attempt-Keeps,
  weaken-Keeps,
}
use tmx.Runner.Names.{well_named}
use tmx.Runner.Loop.{RunConfig, StepOutcome}
use tmx.Runner.Loop.Safety.{IsGuarded, emit_event-Keeps}
use tmx.Runner.Loop.Results.{Ended, run_tasks-Keeps}
use tmx.Runner.Lifecycle.Laws.{keyed, named_flow, within_cap, all_named}
use tmx.Runner.Secrets.{answered}
use tmx.Runner.Step.Laws.{Allowed, IsSafe, run_step-Keeps}
use tmx.Fanout.Safety.{run_map-Keeps, Yields-NotPanic}
use tmx.Runner.Recursion.{
  Engine, or_max, sub_inputs_of, settled, case_count, redacted, run_subflow, run_inner_flow,
  run_item, run_map_over, emit_cases, run_eval_over, run_inner_task, run_inner_with, run_subject,
  run_map_task, run_eval_task, work_over, step_at,
}
use tmx.Runner.Recursion.Parts.{
  GivesKeys, IsReliable, asks, seeded_call-Keeps, drawn, answers, redacted-Keeps,
  dispatch_flow-Holds, call_adapter-Keeps, dispatch_with-Keeps,
}

keeps_ends :
    (c : Option CancelReason) (f : Option RunError) (v : Value) → Holds (λ _. Unit) (settled c f v)
unfolding Holds
keeps_ends (some reason) f v = tt
keeps_ends none (some e) v = tt
keeps_ends none none v = tt

module _ {W O F : Type 0} (engine : Engine W O F) (config : RunConfig) (ports : Ports W)
    (run_id : Text) (reliable : IsReliable engine ports)
    (sub_step : Value → ℕ → ResolvedFlow → Task → Text → Value → Run W StepOutcome) (depth : ℕ)
    (shallow : depth ≤ flow_depth_max)
    (sub_step-Keeps : depth < flow_depth_max
      → (inputs : Value) (f : ResolvedFlow) (t : Task) (name : Text) (state : Value)
      → Keeps IsGuarded (λ _. Unit) (sub_step inputs (depth + 1) f t name state)) where
  abbrev Guarded : Session W → Type 0
  Guarded = IsGuarded

  given-Holds :
      (given : Option Value) (scope : Scope)
      → Holds
          (λ _. Unit)
          (sub_inputs_of given (λ v. interp_value engine.numbers engine.rendering v scope))
  given-Holds none scope = unfold Holds in tt
  given-Holds (some v) scope =
      no_panic_lem _
        (Yields-NotPanic _ (interp_value-Yields engine.numbers engine.rendering v scope))

  run_subflow-Keeps :
      (fw : FlowWith) (scope : Scope)
      → depth < flow_depth_max
      → Keeps IsGuarded (λ _. Unit) (run_subflow engine config ports run_id sub_step fw scope depth)
  unfolding run_subflow
  run_subflow-Keeps fw scope deeper =
      bind-Keeps Guarded (λ _. Unit) _ _ _ (assert-Keeps Guarded _ (ground (arith, deeper)))
        (λ _ _.
          bind-Keeps Guarded (λ f. Holds GivesKeys (resolve f)) _ _ _
            (answers engine config ports run_id reliable _ _ (reliable.load_flow fw.use_ref))
            (λ loaded gives.
              bind-Keeps Guarded GivesKeys _ _ _
                (lift-Keeps Guarded GivesKeys (resolve loaded) gives)
                (λ sub_flow outputs.
                  bind-Keeps Guarded (λ _. well_named sub_flow.tasks ≡ true) _ _ _
                    (lift-Keeps Guarded _ _ (named_flow sub_flow))
                    (λ _ named.
                      bind-Keeps Guarded (λ _. Unit) _ _ _
                        (lift-Keeps Guarded _ _ (given-Holds fw.inputs scope))
                        (λ given _.
                          bind-Keeps Guarded (Ended sub_flow.tasks) _ _ _
                            (run_tasks-Keeps ports reliable.emit config _
                              (pure-Keeps Guarded _ tt tt) _ (sub_step-Keeps deeper _ sub_flow)
                              run_id sub_flow none (within_cap sub_flow named)
                              (keyed sub_flow.tasks (all_named sub_flow named) outputs) tt)
                            (λ out _.
                              lift-Keeps Guarded _ _
                                (keeps_ends out.cancelled out.failure out.pipeline.state)))))))

  redacted_subflow-Keeps :
      (fw : FlowWith) (scope : Scope)
      → depth < flow_depth_max
      → Keeps IsGuarded
          (λ _. Unit)
          (run_subflow engine config ports run_id sub_step fw scope depth >>= redacted)
  redacted_subflow-Keeps fw scope deeper =
      bind-Keeps Guarded (λ _. Unit) _ _ _ (run_subflow-Keeps fw scope deeper)
        (λ v _. redacted-Keeps engine config ports run_id reliable v)

  run_inner_flow-Keeps :
      (fw : FlowWith) (scope : Scope)
      → depth < flow_depth_max
      → Keeps IsGuarded
          (λ _. Unit)
          (run_inner_flow engine config ports run_id sub_step fw scope depth)
  unfolding run_inner_flow
  run_inner_flow-Keeps fw scope deeper =
      bind-Keeps Guarded (λ id. (id == 0) ≡ false) _ _ _ (drawn engine config ports run_id reliable)
        (λ id idle.
          seeded_call-Keeps engine config ports run_id reliable id _ idle
            (redacted_subflow-Keeps fw scope deeper))

  run_item-Keeps :
      (name : Text) (index : ℕ) (call : Run W Value)
      → Keeps Guarded (λ _. Unit) call
      → Keeps Guarded (λ _. Unit) (run_item engine config ports run_id sub_step name index call)
  unfolding run_item
  run_item-Keeps name index call h =
      bind-Keeps Guarded (λ _. Unit) _ _ _ (asks engine config ports run_id reliable ports.now_ms)
        (λ start_ms _.
          bind-Keeps Guarded (Holds (λ _. Unit)) _ _ _ (attempt-Keeps Guarded _ call h)
            (λ result safe.
              bind-Keeps Guarded (λ _. Unit) _ _ _
                (asks engine config ports run_id reliable ports.now_ms)
                (λ end_ms _.
                  bind-Keeps Guarded (λ _. Unit) _ _ _ (emit_event-Keeps ports reliable.emit _)
                    (λ _ _. lift-Keeps Guarded _ result safe))))

  run_map_over-Keeps :
      (mw : MapWith) (t : InnerTask) (name : Text) (scope : Scope) (run_inner : Scope → Run W Value)
      → ((inside : Scope) → Keeps Guarded (λ _. Unit) (run_inner inside))
      → Keeps Guarded
          (λ _. Unit)
          (run_map_over engine config ports run_id sub_step mw t name scope depth run_inner)
  unfolding run_map_over
  run_map_over-Keeps mw t name scope run_inner h =
      weaken-Keeps Guarded _ (λ _. Unit) _ (λ _ _. tt)
        (run_map-Keeps engine.numbers ports.to_value engine.rendering engine.scheduler _ Guarded
          reliable.scheduler (λ index element d _. run_item-Keeps name index _ (h _)) mw t name
          scope (or_max config.concurrency_cap) depth shallow)

  emit_cases-Keeps :
      (name : Text) (index count : ℕ)
      → Keeps Guarded (λ _. Unit) (emit_cases engine config ports run_id sub_step name index count)
  unfolding emit_cases
  emit_cases-Keeps name index zero = pure-Keeps Guarded _ tt tt
  emit_cases-Keeps name index (suc count) =
      bind-Keeps Guarded (λ _. Unit) _ _ _ (emit_event-Keeps ports reliable.emit _)
        (λ _ _. emit_cases-Keeps name (index + 1) count)

  run_eval_over-Keeps :
      (ew : EvalWith) (s : Subject) (name : Text) (scope : Scope)
      (run_subject : Scope → Run W Value)
      → ((inside : Scope) → Keeps Guarded (λ _. Unit) (run_subject inside))
      → Keeps Guarded
          (λ _. Unit)
          (run_eval_over engine config ports run_id sub_step ew s name scope depth run_subject)
  unfolding run_eval_over
  run_eval_over-Keeps ew s name scope run_subject h =
      bind-Keeps Guarded (λ _. Unit) _ _ _
        (reliable.run_eval ew s name scope _ depth _ shallow (λ i v d. h _))
        (λ scorecard _.
          bind-Keeps Guarded (λ _. Unit) _ _ _ (emit_cases-Keeps name 0 (case_count scorecard))
            (λ _ _. pure-Keeps Guarded _ scorecard tt))

  inner_leaf-Keeps :
      (t : TaskWith) (n : Text) (s : Scope) (env : EnvMap)
      → Keeps Guarded
          (λ _. Unit)
          (answered (engine.call_adapter t n s env) >>= λ o. pure (engine.normalize_output o))
  inner_leaf-Keeps t n s env =
      bind-Keeps Guarded (λ _. Unit) _ _ _
        (call_adapter-Keeps engine config ports run_id reliable t n s env)
        (λ o _. pure-Keeps Guarded _ _ tt)

  mutual
    unfolding run_inner_task run_inner_with run_subject

    run_inner_task-Keeps :
        (t : InnerTask) (n : Text) (s : Scope) (env : EnvMap)
        → Keeps IsGuarded
            (λ _. Unit)
            (run_inner_task engine config ports run_id sub_step t n s env depth)
    run_inner_task-Keeps (inner fields w) n s env = run_inner_with-Keeps w _ s env

    run_inner_with-Keeps :
        (w : TaskWith) (n : Text) (s : Scope) (env : EnvMap)
        → Keeps IsGuarded
            (λ _. Unit)
            (run_inner_with engine config ports run_id sub_step w n s env depth)
    run_inner_with-Keeps (TaskWith.map mw t) n s env =
        run_map_over-Keeps mw t n s _ (λ inside. run_inner_task-Keeps t n inside env)
    run_inner_with-Keeps (TaskWith.eval ew t) n s env =
        run_eval_over-Keeps ew t n s _ (λ inside. run_subject-Keeps t n inside env)
    run_inner_with-Keeps (TaskWith.flow fw) n s env =
        bind-Keeps Guarded (λ d. (depth < flow_depth_max) × Allowed depth d) _ _ _
          (lift-Keeps Guarded _ _
            (dispatch_flow-Holds engine config ports run_id reliable fw n depth))
          (λ _ h. run_inner_flow-Keeps fw s h.0)
    run_inner_with-Keeps (TaskWith.exec w) n s env = inner_leaf-Keeps (TaskWith.exec w) n s env
    run_inner_with-Keeps (TaskWith.run w) n s env = inner_leaf-Keeps (TaskWith.run w) n s env
    run_inner_with-Keeps (TaskWith.fetch w) n s env = inner_leaf-Keeps (TaskWith.fetch w) n s env
    run_inner_with-Keeps (TaskWith.file w) n s env = inner_leaf-Keeps (TaskWith.file w) n s env
    run_inner_with-Keeps (TaskWith.store w) n s env = inner_leaf-Keeps (TaskWith.store w) n s env
    run_inner_with-Keeps (TaskWith.chat_completion w) n s env =
        inner_leaf-Keeps (TaskWith.chat_completion w) n s env
    run_inner_with-Keeps (TaskWith.assert w) n s env = inner_leaf-Keeps (TaskWith.assert w) n s env

    run_subject-Keeps :
        (t : Subject) (n : Text) (s : Scope) (env : EnvMap)
        → Keeps IsGuarded
            (λ _. Unit)
            (run_subject engine config ports run_id sub_step t n s env depth)
    run_subject-Keeps no_subject n s env = pure-Keeps Guarded _ null tt
    run_subject-Keeps (subject t) n s env = run_inner_task-Keeps t n s env

  -- All that a step calls.
  work-IsSafe : IsSafe (work_over engine config ports run_id sub_step) ports depth
  unfolding run_map_task run_eval_task
  work-IsSafe = record {
    validate_produces = reliable.validate_produces;
    emit = reliable.emit;
    resolve_secret = reliable.resolve_secret;
    dispatch_task =
        λ t n s env. dispatch_with-Keeps engine config ports run_id reliable t.with n s env depth;
    run_subflow = run_subflow-Keeps;
    run_map_task = λ (mw, t) n s env.
        run_map_over-Keeps mw t n s _ (λ inside. run_inner_task-Keeps t n inside env);
    run_eval_task = λ (ew, t) n s env.
        run_eval_over-Keeps ew t n s _ (λ inside. run_subject-Keeps t n inside env);
  }

module _ {W O F : Type 0} (engine : Engine W O F) (config : RunConfig) (ports : Ports W)
    (run_id : Text) (reliable : IsReliable engine ports) (matrix : Value) where
  -- A unit of fuel for each level that is left, and one for the step itself, is enough.
  pub step_at-Keeps :
      (n : ℕ) (inputs : Value) (depth : ℕ) (f : ResolvedFlow) (t : Task) (name : Text)
      (state : Value)
      → depth ≤ flow_depth_max
      → flow_depth_max < depth + n
      → Keeps IsGuarded
          (λ _. Unit)
          (step_at engine config ports run_id matrix n inputs depth f t name state)
  unfolding step_at
  step_at-Keeps zero inputs depth f t name state shallow enough = absurd (omega arith)
  step_at-Keeps (suc n) inputs depth f t name state shallow enough = reliable.guard _ (
      run_step-Keeps
        (work_over engine config ports run_id (step_at engine config ports run_id matrix n)) config
        ports matrix inputs depth
        (work-IsSafe engine config ports run_id reliable
          (step_at engine config ports run_id matrix n) depth shallow
          (λ deeper inner_inputs g u sub_name sub_state.
            step_at-Keeps n inner_inputs (depth + 1) g u sub_name sub_state (omega (arith, deeper))
              (omega arith)))
        f t name state)

  -- A step, from a guarded session, ends, keeps it guarded and does not panic, with the sub-flows, maps and
  -- evals in it, at every depth within the bound: each event is sealed by a masker that holds every secret
  -- which the call that sent it had resolved by then. There is a unit of fuel for each level that is left and one
  -- more. No call of a port panics, a loaded flow gives no empty output key, the counter of the maskers
  -- does not come round to 0, and the
  -- scheduler, the guard and `run_eval` keep what their callbacks keep and do not panic.
  pub step_at_lem :
      (n : ℕ) (inputs : Value) (depth : ℕ) (f : ResolvedFlow) (t : Task) (name : Text)
      (state : Value) (s : Session W)
      → depth ≤ flow_depth_max
      → flow_depth_max < depth + n
      → IsGuarded s
      → IsGuarded (step_at engine config ports run_id matrix n inputs depth f t name state s).1
        × Holds
            (λ _. Unit)
            (step_at engine config ports run_id matrix n inputs depth f t name state s).0
  unfolding Keeps Post
  step_at_lem n inputs depth f t name state s shallow enough i =
      step_at-Keeps n inputs depth f t name state shallow enough s i
