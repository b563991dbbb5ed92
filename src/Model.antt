-- ===== src/Model.antt =====
-- The runtime entities (crates/tmx-core/src/model.rs) that the runner, the masker and the token use.
-- A timestamp is the text that the clock port gives, and a duration a number of milliseconds.
use tmx.Base.{ℕ, Bool, true, false, Option, List, [], Text, if◌then◌else◌}
use tmx.Json.{Value, object, no_fields, is_object}
use tmx.Error.{Result, err, RunError, validation_error, format}

pub data RunStatus : Type 0 where
  pending running ok failed cancelled timed_out : RunStatus

unfoldable pub is_terminal : RunStatus → Bool
is_terminal pending = false
is_terminal running = false
is_terminal _ = true

pub data TaskStatus : Type 0 where
  ok skipped error : TaskStatus

pub record TaskResult : Type 0 where
  pub name : Text
  pub status : TaskStatus
  pub output : Option Value
  pub error : Option RunError
  pub started_at : Text
  pub ms : ℕ

pub data Event : Type 0 where
  run_start : Text → Text → Event
  run_finish : Text → RunStatus → ℕ → Event
  task_start : Text → Event
  task_finish : Text → TaskStatus → ℕ → Option Value → Event
  task_skip : Text → Text → Event
  task_error : Text → RunError → Event
  map_item_finish : Text → ℕ → ℕ → Event
  eval_case_finish : Text → ℕ → Event
  hook_start : Text → Event
  hook_finish : Text → TaskStatus → ℕ → Event
  log_truncated : Event

-- `PipelineState::new`; the state is its JSON value.
unfoldable pub pipeline_state : Value → Result Value
pipeline_state value =
    if is_object value
    then Result.ok value
    else err (
        validation_error "state_not_object"
          (format "the Pipeline state must be a JSON object at the top level" []))

pub record Pipeline : Type 0 where
  pub id : Text
  pub state : Value
  pub status : RunStatus
  pub results : List TaskResult

unfoldable pub new_pipeline : Text → Pipeline
new_pipeline id = record { id = id; state = object no_fields; status = pending; results = [] }

pub data Severity : Type 0 where
  error warning info : Severity

pub record Diagnostic : Type 0 where
  pub severity : Severity
  pub code : Text
  pub message : Text
  pub path : Option Text
