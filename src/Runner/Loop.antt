-- ===== src/Runner/Loop.antt =====
-- The task loop of runner.rs: `fail_task` and `run_tasks`.
--
-- `step` is the guarded step of a task, `ports.cancel.guard(self.run_step(…))`, on its name and the
-- state so far. `change_hook` fires the `change` hook, where the loop has hooks.
pub mod Safety
pub mod Results
use tmx.Base.{
  ℕ, zero, suc, ◌-◌, Bool, true, false, not, ◌||◌, Option, none, some, List, [], ◌∷◌, ◌++◌, bytes,
  Text, length, is_empty, leb, if◌then◌else◌,
}
use tmx.Limits.{tasks_per_flow_max}
use tmx.Json.{Value, Fields, no_fields, field, object, get, is_object}
use tmx.Error.{Result, ok, err, panic, RunError, assert}
use tmx.Model.{
  RunStatus, TaskStatus, TaskResult, Event, task_finish, task_skip, task_error, Pipeline,
  new_pipeline,
}
use tmx.Merge.{StateBuilder, merge, from_state_with_cap, from_state, with_cap, new, into_state}
use tmx.Cancel.{CancelReason, cancel_reason_of, to_status}
use tmx.Flow.{Task, ResolvedFlow}
use tmx.Runner.Names.{name_of}
use tmx.Runner.Session.{Ports, Session, Run, pure, lift, attempt, ask, emit_event, ◌>>=◌}

pub data ProducesCheck : Type 0 where
  off warn strict : ProducesCheck

pub record RunConfig : Type 0 where
  pub continue_on_error : Bool
  pub check_produces : ProducesCheck
  pub max_state_size_bytes : Option ℕ
  pub concurrency_cap : Option ℕ

pub data StepOutcome : Type 0 where
  skipped : StepOutcome
  produced : Value → StepOutcome

pub record Outcome : Type 0 where
  pub pipeline : Pipeline
  pub failure : Option RunError
  pub changed : List Text
  pub cancelled : Option CancelReason

-- The variables that the loop writes: `failure` and `cancelled` are the two ways to stop.
pub data Stop : Type 0 where
  go : Stop
  failure : RunError → Stop
  cancelled : CancelReason → Stop

pub record Progress : Type 0 where
  pub builder : StateBuilder
  pub results : List TaskResult
  pub changed : List Text

-- The task at hand: its name, the key of its output, and its times.
pub record Current : Type 0 where
  pub name : Text
  pub key : Text
  pub started_at : Text
  pub ms : ℕ

abbrev pub task_result : Current → TaskStatus → Option Value → Option RunError → TaskResult
task_result c status output e = record {
  name = c.name;
  status = status;
  output = output;
  error = e;
  started_at = c.started_at;
  ms = c.ms;
}

abbrev pub push : TaskResult → Progress → Progress
push r p = record p { results = p.results ++ r ∷ [] }

abbrev pub or_name : Text → Option Text → Text
or_name name none = name
or_name name (some output) = output

abbrev pub or_false : Option Bool → Bool
or_false none = false
or_false (some b) = b

abbrev pub failure_of : Stop → Option RunError
failure_of (failure e) = some e
failure_of _ = none

abbrev pub cancelled_of : Stop → Option CancelReason
cancelled_of (cancelled reason) = some reason
cancelled_of _ = none

unfoldable pub status_of : Option CancelReason → Option RunError → RunStatus
status_of (some reason) f = to_status reason
status_of none (some e) = RunStatus.failed
status_of none none = RunStatus.ok

abbrev pub outcome_of : Text → Stop × Progress → Outcome
outcome_of id (stop, p) = record {
  pipeline = record (new_pipeline id) {
    state = into_state p.builder;
    status = status_of (cancelled_of stop) (failure_of stop);
    results = p.results;
  };
  failure = failure_of stop;
  changed = p.changed;
  cancelled = cancelled_of stop;
}

module _ {W : Type 0} (ports : Ports W) where
  -- The slot of a failed task that the run survives; where it does not fit, the run stops.
  unfoldable pub record_slot :
      Current
      → RunError
      → Value
      → Result (Unit {0}) × StateBuilder
      → Progress
      → Run W (Stop × Progress)
  record_slot c e slot (ok _, b) p =
      pure
        (go, push (task_result c TaskStatus.error (some slot) (some e)) (record p { builder = b }))
  record_slot c e slot (err merge_err, b) p = pure (
    failure merge_err,
    push (task_result c TaskStatus.error none (some e)) (record p { builder = b }),
  )
  record_slot c e slot (panic, b) p = lift panic

  unfoldable pub fail_task : Current → Bool → RunError → Progress → Run W (Stop × Progress)
  fail_task c continue_on_error e p =
      let slot = object (field (bytes "error") (ports.to_value e) no_fields) in
      let settled : Run W (Stop × Progress) =
        if continue_on_error
        then record_slot c e slot (merge ports.json p.builder c.key slot c.name) p
        else pure (failure e, push (task_result c TaskStatus.error none (some e)) p) in
      emit_event ports (task_error c.name e) >>= λ _. settled

  abbrev pub same_value : Option Value → Value → Bool
  same_value none output = false
  same_value (some previous) output = ports.value_eq previous output

  abbrev pub previous_value : Text → Value → Option Value
  previous_value key (object fs) = get key fs
  previous_value key _ = none

  abbrev pub note_change : Bool → Text → Progress → Progress
  note_change did_change name p =
      if did_change then record p { changed = p.changed ++ name ∷ [] } else p

  module _ (config : RunConfig) (change_hook : Run W (Unit {0})) where
    -- After the merge of an output, whose result is at hand.
    unfoldable pub after_merge :
        Current
        → Value
        → Bool
        → Result (Unit {0}) × StateBuilder
        → Progress
        → Run W (Stop × Progress)
    after_merge c output did_change (ok _, b) p = do
      _ ← emit_event ports (task_finish c.name TaskStatus.ok c.ms (some output))
      _ ← if did_change then change_hook else pure tt
      pure (
        go,
        push (task_result c TaskStatus.ok (some output) none)
            (note_change did_change c.name (record p { builder = b })),
      )
    after_merge c output did_change (err e, b) p = fail_task c false e (record p { builder = b })
    after_merge c output did_change (panic, b) p = lift panic

    unfoldable pub after_error :
        Current → Bool → RunError → Option CancelReason → Progress → Run W (Stop × Progress)
    after_error c continue_on_error e (some reason) p = do
      _ ← emit_event ports (task_error c.name e)
      pure (cancelled reason, push (task_result c TaskStatus.error none (some e)) p)
    after_error c continue_on_error e none p = fail_task c continue_on_error e p

    -- The `match` on the step's result.
    unfoldable pub after_step :
        Current → Task → Result StepOutcome → Progress → Run W (Stop × Progress)
    after_step c task (ok skipped) p = do
      _ ← emit_event ports (task_skip c.name (bytes "if=false"))
      pure (go, push (task_result c TaskStatus.skipped none none) p)
    after_step c task (ok (produced output)) p =
        let previous = previous_value c.key p.builder.state in
        after_merge c output (not (same_value previous output))
          (merge ports.json p.builder c.key output c.name) p
    after_step c task (err e) p =
        after_error c (or_false task.continue_on_error || config.continue_on_error) e
          (cancel_reason_of e) p
    after_step c task panic p = lift panic

    module _ (step : Task → Text → Value → Run W StepOutcome) where
      unfoldable pub run_task : Task → Progress → Run W (Stop × Progress)
      run_task task p = do
        let name = name_of task
        let key = or_name name task.output
        _ ← lift (assert (not (is_empty name)))
        _ ← lift (assert (is_object p.builder.state))
        _ ← lift (assert (not (is_empty key)))
        started_at ← ask ports.now
        start_ms ← ask ports.now_ms
        outcome ← attempt (step task name p.builder.state)
        end_ms ← ask ports.now_ms
        after_step
            (record { name = name; key = key; started_at = started_at; ms = end_ms - start_ms })
            task outcome p

      -- One round, unless a stop was requested; and the rest, unless the round stops the loop.
      abbrev pub unless_stopped :
          (Progress → Run W (Stop × Progress)) → Stop × Progress → Run W (Stop × Progress)
      unless_stopped rest (go, p) = rest p
      unless_stopped rest (failure e, p) = pure (failure e, p)
      unless_stopped rest (cancelled reason, p) = pure (cancelled reason, p)

      abbrev pub unless_requested :
          Run W (Stop × Progress) → Progress → Option CancelReason → Run W (Stop × Progress)
      unless_requested round p (some reason) = pure (cancelled reason, p)
      unless_requested round p none = round

      unfoldable pub walk : List Task → Progress → Run W (Stop × Progress)
      walk [] p = pure (go, p)
      walk (task ∷ tasks) p =
          ask ports.requested_reason
          >>= unless_requested (run_task task p >>= unless_stopped (walk tasks)) p

      abbrev pub seeded : Option Value → Option ℕ → StateBuilder
      seeded (some state) (some cap) = from_state_with_cap ports.json state cap
      seeded (some state) none = from_state ports.json state
      seeded none (some cap) = with_cap ports.json cap
      seeded none none = new ports.json

      -- `run_tasks`: the bound on the loop, the state to start from, and the loop.
      unfoldable pub run_tasks : Text → ResolvedFlow → Option Value → Run W Outcome
      run_tasks id flow seed = do
        _ ← lift (assert (leb (length flow.tasks) tasks_per_flow_max))
        let b = seeded seed config.max_state_size_bytes
        ended ← walk flow.tasks (record { builder = b; results = []; changed = [] })
        pure (outcome_of id ended)
