-- ===== src/Fanout/Map.antt =====
-- `run_map` and `bind_item`. The scheduler port and the callback that runs one item are parameters; a
-- scheduler is handed the number of jobs, the budget and the jobs, and gives a result for each.
use tmx.Base.{
  ℕ, ◌+◌, Bool, true, false, Option, none, some, List, [], ◌∷◌, Text, bytes, length, get_elem?, ltb,
  leb, ◌==◌, max, min, if◌then◌else◌,
}
use tmx.Limits.{fanout_width_max, concurrency_max, flow_depth_max}
use tmx.Json.{
  Value, Fields, number, object, array, no_fields, items_of, as_array, contains_key, insert,
}
use tmx.Error.{
  Result, ok, err, panic, RunError, run_failure_error, validation_error, resolution_error,
  with_task, format, num, text, reject_if, assert, ok_or,
}
use tmx.Flow.{MapWith, InnerTask, inner, TaskWith}
use tmx.Interpolate.{Numbers, Scope}
use tmx.Dispatch.Template.{Rendering, interp_value}
use tmx.Runner.Session.{Run, pure, lift, ◌>>=◌}

-- `Scheduler::run_indexed`: the number of jobs, the budget, and the job of each index.
abbrev pub Scheduler : Type 0 → Type 0
Scheduler W = ℕ → ℕ → (ℕ → Run W Value) → Run W (List (Result Value))

abbrev pub map_items_not_array : Text → RunError
map_items_not_array name =
    with_task
      (run_failure_error "map_items_not_array"
        (format "map task {name:?} `items` did not resolve to an array" (text name ∷ [])))
      name

abbrev pub fanout_too_wide : Text → ℕ → RunError
fanout_too_wide name n =
    with_task
      (run_failure_error "fanout_too_wide" (
        format
          "map task {name:?} resolved {n} items, exceeding the {FANOUT_WIDTH_MAX} fan-out width limit"
          (text name ∷ num n ∷ num fanout_width_max ∷ [])))
      name

abbrev pub concurrency_too_high : Text → ℕ → RunError
concurrency_too_high name requested =
    with_task
      (validation_error "concurrency_too_high" (
        format
          "map task {name:?} requests concurrency {requested}, exceeding the {CONCURRENCY_MAX} ceiling"
          (text name ∷ num requested ∷ num concurrency_max ∷ [])))
      name

abbrev pub flow_depth_exceeded : Text → ℕ → RunError
flow_depth_exceeded name depth =
    with_task
      (resolution_error "flow_depth_exceeded" (
        format
          "map task {name:?} flow inner task at depth {depth} would recurse past the {FLOW_DEPTH_MAX}-level bound"
          (text name ∷ num depth ∷ num flow_depth_max ∷ [])))
      name

abbrev pub or_one : Option ℕ → ℕ
or_one none = 1
or_one (some n) = n

abbrev pub or_false : Option Bool → Bool
or_false none = false
or_false (some b) = b

-- The budget: what is asked for, within the run's cap, which is itself clamped to the ceiling.
unfoldable pub effective_budget : ℕ → ℕ → ℕ
effective_budget requested concurrency_cap =
    min (max requested 1) (min (max concurrency_cap 1) concurrency_max)

-- A flow as the inner task takes a level of recursion.
unfoldable pub inner_depth : Text → InnerTask → ℕ → Result ℕ
inner_depth name (inner fields (TaskWith.flow w)) depth =
    if leb flow_depth_max depth then err (flow_depth_exceeded name depth) else ok (depth + 1)
inner_depth name (inner fields w) depth = ok depth

-- `entry("index").or_insert_with(…)`
abbrev pub with_index : Text → Fields → Fields
with_index index fs =
    if contains_key (bytes "index") fs then fs else insert (bytes "index") (number index) fs

module _ {F : Type 0} (numbers : Numbers F) where
  unfoldable pub bind_item : Value → ℕ → Value
  bind_item (object fs) index = object (with_index (numbers.of_u64 index) fs)
  bind_item other index = other

  module _ (to_value : RunError → Value) where
    -- The slot of an item that failed.
    abbrev pub error_slot : RunError → Value
    error_slot e = object (Fields.field (bytes "error") (to_value e) no_fields)

    -- The error policy, over the results in the order of the items.
    unfoldable pub collect : Bool → List (Result Value) → Result (List Value)
    collect continue_on_error [] = ok []
    collect continue_on_error (ok v ∷ results) =
        tmx.Error.◌>>=◌ (collect continue_on_error results) (λ out. ok (v ∷ out))
    collect true (err e ∷ results) =
        tmx.Error.◌>>=◌ (collect true results) (λ out. ok (error_slot e ∷ out))
    collect false (err e ∷ results) = err e
    collect continue_on_error (panic ∷ results) = panic

    module _ {W : Type 0} (rendering : Rendering) (scheduler : Scheduler W)
        (run_item : ℕ → Value → ℕ → Run W Value) where
      -- The job of an index: `items[index]` panics out of range.
      abbrev pub job : List Value → ℕ → ℕ → Run W Value
      job items depth index = elim (get_elem? items index) [
        | none ↦ lift panic
        | some element ↦ run_item index (bind_item element index) depth
      ]

      unfoldable pub fan_out : MapWith → List Value → ℕ → ℕ → Run W Value
      fan_out mw items effective depth = do
        results ← scheduler (length items) effective (job items depth)
        _ ← lift (assert (length results == length items))
        out ← lift (collect (or_false mw.continue_on_error) results)
        _ ← lift (assert (length out == length items))
        pure (array (items_of out))

      unfoldable pub run_map : MapWith → InnerTask → Text → Scope → ℕ → ℕ → Run W Value
      run_map mw task name scope concurrency_cap depth = do
        resolved ← lift (interp_value numbers rendering mw.items scope)
        items ← lift (ok_or (as_array resolved) (map_items_not_array name))
        _ ←
            lift (
              reject_if (ltb fanout_width_max (length items)) (fanout_too_wide name (length items)))
        _ ← lift (assert (leb (length items) fanout_width_max))
        _ ← lift (
            reject_if (ltb concurrency_max (or_one mw.concurrency))
              (concurrency_too_high name (or_one mw.concurrency)))
        _ ← lift (assert (leb 1 (effective_budget (or_one mw.concurrency) concurrency_cap)))
        _ ← lift (
            assert (leb (effective_budget (or_one mw.concurrency) concurrency_cap) concurrency_max))
        inside ← lift (inner_depth name task depth)
        fan_out mw items (effective_budget (or_one mw.concurrency) concurrency_cap) inside
