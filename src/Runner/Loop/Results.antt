-- ===== src/Runner/Loop/Results.antt =====
-- What a run of the task loop amounts to: its results, its state and its status.
use tmx.Base.{
  ℕ, ◌≡◌, refl, sym, ap, ◌∙◌, ◌≢◌, true, false, Option, none, some, List, [], ◌∷◌, ◌++◌, arith,
  Text, is_empty, All, map, append_assoc, append-nil, length, leb,
}
use tmx.Limits.{tasks_per_flow_max}
use tmx.Json.{Value, is_object}
use tmx.Error.{panic}
use tmx.Model.{Event, Pipeline, TaskResult, RunStatus, is_terminal, new_pipeline}
use tmx.Merge.{from_state_with_cap, from_state, with_cap, new, into_state}
use tmx.Mask.{Masked}
use tmx.Cancel.{CancelReason, timeout, interrupt, to_status}
use tmx.Flow.{Task, ResolvedFlow}
use tmx.Runner.Names.{name_of}
use tmx.Runner.Session.{Ports, Session, Run, ask, ◌>>=◌}
use tmx.Runner.Hoare.{
  Holds, Post, Keeps, bind-Keeps, weaken-Keeps, pure-Keeps, assert-Keeps, attempt-Keeps, ask-Keeps,
}
use tmx.Runner.Loop.{
  RunConfig, StepOutcome, Stop, go, failure, cancelled, Progress, or_name, run_task, walk,
  unless_stopped, unless_requested, Outcome, run_tasks, seeded, outcome_of, status_of,
}
use tmx.Runner.Loop.Safety.{IsGuarded, OneMore, Marks, after_step-Keeps}

-- The task has a name, and its output has a key.
abbrev pub key_of : Task → Text
key_of t = or_name (name_of t) t.output

abbrev pub IsKeyed : Task → Type 0
IsKeyed t = (is_empty (name_of t) ≡ false) × (is_empty (key_of t) ≡ false)

-- The tasks split into those that were run and the rest: those that were run have a result each, in
-- their order, and there is a rest only where the loop was stopped. Where a task failed, its result
-- is the last one.
unfoldable pub Walked : List Task → List TaskResult → Stop × Progress → Type 0
Walked tasks before (stop, q) =
    (is_object q.builder.state ≡ true)
    × (done rest : List Task) × (tasks ≡ done ++ rest)
    × (results : List TaskResult) × (q.results ≡ before ++ results)
    × (map (λ r. r.name) results ≡ map name_of done)
    × (stop ≡ go → rest ≡ [])

-- The state to start from, if there is one, is an object.
abbrev pub IsSeed : Option Value → Type 0
IsSeed none = Unit
IsSeed (some state) = is_object state ≡ true

unfoldable pub Finished : List Task → Pipeline → Type 0
Finished tasks pipeline =
    (is_object pipeline.state ≡ true)
    × (is_terminal pipeline.status ≡ true)
    × (done rest : List Task) × (tasks ≡ done ++ rest)
    × (map (λ r. r.name) pipeline.results ≡ map name_of done)
    × (pipeline.status ≡ RunStatus.ok → rest ≡ [])

-- The status says how the loop ended.
unfoldable pub Ended : List Task → Outcome → Type 0
Ended tasks out =
    Finished tasks out.pipeline × (out.pipeline.status ≡ status_of out.cancelled out.failure)

Walked-cons :
    (t : Task) (ts : List Task) (before : List TaskResult) (r : TaskResult) (p : Progress)
    (y : Stop × Progress)
    → p.results ≡ before ++ r ∷ []
    → r.name ≡ name_of t
    → Walked ts p.results y
    → Walked (t ∷ ts) before y
unfolding Walked
Walked-cons t ts before r p (stop, q) e n (obj, done, rest, split, results, are, names, all) = (
  obj,
  t ∷ done,
  rest,
  ap (λ xs. t ∷ xs) split,
  r ∷ results,
  are ∙ ap (λ xs. xs ++ results) e ∙ append_assoc before (r ∷ []) results,
  cc (n, names),
  all,
)

finished :
    (run_id : Text) (tasks : List Task) (y : Stop × Progress)
    → Walked tasks [] y
    → Ended tasks (outcome_of run_id y)
unfolding Ended Finished Walked into_state status_of is_terminal to_status new_pipeline
finished run_id tasks (go, q) (obj, done, rest, split, results, are, names, all) =
    let named = ap (map (λ r. r.name)) are ∙ names in
    ((ground (arith, obj), refl, done, rest, split, named, (λ e. all refl)), refl)
finished run_id tasks (failure e, q) (obj, done, rest, split, results, are, names, all) =
    let named = ap (map (λ r. r.name)) are ∙ names in
    ((ground (arith, obj), refl, done, rest, split, named, (λ e. absurd cc)), refl)
finished run_id tasks (cancelled timeout, q) (obj, done, rest, split, results, are, names, all) =
    let named = ap (map (λ r. r.name)) are ∙ names in
    ((ground (arith, obj), refl, done, rest, split, named, (λ e. absurd cc)), refl)
finished run_id tasks (cancelled interrupt, q) (obj, done, rest, split, results, are, names, all) =
    let named = ap (map (λ r. r.name)) are ∙ names in
    ((ground (arith, obj), refl, done, rest, split, named, (λ e. absurd cc)), refl)

module _ {W : Type 0} (ports : Ports W)
    (quiet : (e : Masked Event) (w : W) → (ports.emit e w).0 ≢ panic) (config : RunConfig)
    (change_hook : Run W (Unit {0})) (hook_safe : Keeps IsGuarded (λ _. Unit) change_hook)
    (step : Task → Text → Value → Run W StepOutcome)
    (step_safe : (t : Task) (name : Text) (state : Value)
      → Keeps IsGuarded (λ _. Unit) (step t name state)) where
  abbrev Guarded : Session W → Type 0
  Guarded = IsGuarded

  asks : {A : Type 0} (port : W → A × W) → Keeps Guarded (λ _. Unit) (ask port)
  asks port =
      ask-Keeps Guarded port
        (λ s w i. record { own = i.own; ready = i.ready; full = i.full; sealed = i.sealed })

  run_task-Keeps :
      (t : Task) (p : Progress)
      → IsKeyed t
      → is_object p.builder.state ≡ true
      → Keeps Guarded (OneMore p.results (name_of t)) (run_task ports config change_hook step t p)
  unfolding run_task
  run_task-Keeps t p (n, k) obj =
      bind-Keeps Guarded (λ _. Unit) _ _ _ (assert-Keeps Guarded _ (ground (arith, n)))
        (λ _ _.
          bind-Keeps Guarded (λ _. Unit) _ _ _ (assert-Keeps Guarded _ obj)
            (λ _ _.
              bind-Keeps Guarded (λ _. Unit) _ _ _ (assert-Keeps Guarded _ (ground (arith, k)))
                (λ _ _.
                  bind-Keeps Guarded (λ _. Unit) _ _ _ (asks ports.now)
                    (λ started_at _.
                      bind-Keeps Guarded (λ _. Unit) _ _ _ (asks ports.now_ms)
                        (λ start_ms _.
                          bind-Keeps Guarded _ _ _ _
                            (attempt-Keeps Guarded _ _ (step_safe t (name_of t) p.builder.state))
                            (λ outcome safe.
                              bind-Keeps Guarded (λ _. Unit) _ _ _ (asks ports.now_ms)
                                (λ end_ms _.
                                  after_step-Keeps ports quiet config change_hook hook_safe _ t
                                    outcome p k obj safe)))))))

  -- The loop stopped before a task, or right after it.
  stopped_before :
      (t : Task) (ts : List Task) (p : Progress) (reason : CancelReason)
      → is_object p.builder.state ≡ true
      → Walked (t ∷ ts) p.results (cancelled reason, p)
  unfolding Walked
  stopped_before t ts p reason obj =
      (obj, [], t ∷ ts, refl, [], sym (append-nil p.results), refl, (λ e. absurd cc))

  stopped_after :
      (t : Task) (ts : List Task) (before : List TaskResult) (stop : Stop) (q : Progress)
      → (stop ≡ go → ts ≡ [])
      → OneMore before (name_of t) (stop, q)
      → Walked (t ∷ ts) before (stop, q)
  unfolding Walked OneMore
  stopped_after t ts before stop q all (obj, r, are, n, m) =
      (obj, t ∷ [], ts, refl, r ∷ [], are, ap (λ x. x ∷ []) n, all)

  continue-Keeps :
      (t : Task) (ts : List Task) (before : List TaskResult) (y : Stop × Progress)
      → ((p : Progress)
          → is_object p.builder.state ≡ true
          → Keeps Guarded (Walked ts p.results) (walk ports config change_hook step ts p))
      → OneMore before (name_of t) y
      → Keeps Guarded
          (Walked (t ∷ ts) before)
          (unless_stopped ports config change_hook step (walk ports config change_hook step ts) y)
  continue-Keeps t ts before (go, q) next one =
      let (obj, r, are, n, m) : (is_object q.builder.state ≡ true)
          × (r : TaskResult) × (q.results ≡ before ++ r ∷ [])
          × (r.name ≡ name_of t)
          × Marks go r =
        unfold OneMore in one in
      weaken-Keeps Guarded (Walked ts q.results) (Walked (t ∷ ts) before) _
        (λ y w. Walked-cons t ts before r q y are n w) (next q obj)
  continue-Keeps t ts before (failure e, q) next one =
      pure-Keeps Guarded _ _ (stopped_after t ts before (failure e) q (λ e. absurd cc) one)
  continue-Keeps t ts before (cancelled reason, q) next one =
      pure-Keeps Guarded _ _ (stopped_after t ts before (cancelled reason) q (λ e. absurd cc) one)

  seeded-is_object :
      (seed : Option Value) (cap : Option ℕ)
      → IsSeed seed
      → is_object (seeded ports config change_hook step seed cap).state ≡ true
  unfolding from_state_with_cap from_state with_cap new
  seeded-is_object none none h = refl
  seeded-is_object none (some cap) h = refl
  seeded-is_object (some state) none h = h
  seeded-is_object (some state) (some cap) h = h

  request-Keeps :
      (t : Task) (ts : List Task) (p : Progress) (reason : Option CancelReason)
      (round : Run W (Stop × Progress))
      → is_object p.builder.state ≡ true
      → Keeps Guarded (Walked (t ∷ ts) p.results) round
      → Keeps Guarded
          (Walked (t ∷ ts) p.results)
          (unless_requested ports config change_hook step round p reason)
  request-Keeps t ts p (some reason) round obj h =
      pure-Keeps Guarded _ _ (stopped_before t ts p reason obj)
  request-Keeps t ts p none round obj h = h

  -- The loop, from any progress.
  walk-Keeps :
      (ts : List Task) (p : Progress)
      → All IsKeyed ts
      → is_object p.builder.state ≡ true
      → Keeps Guarded (Walked ts p.results) (walk ports config change_hook step ts p)
  unfolding walk
  walk-Keeps [] p ks obj =
      pure-Keeps Guarded (Walked [] p.results) (go, p)
        (unfold Walked in (obj, [], [], refl, [], sym (append-nil p.results), refl, (λ e. refl)))
  walk-Keeps (t ∷ ts) p ks obj =
      let round : Keeps Guarded (Walked (t ∷ ts) p.results) (
          run_task ports config change_hook step t p
          >>= unless_stopped ports config change_hook step
              (walk ports config change_hook step ts)) =
        bind-Keeps Guarded (OneMore p.results (name_of t)) _ _ _ (run_task-Keeps t p ks.0 obj)
          (λ y one. continue-Keeps t ts p.results y (λ q o. walk-Keeps ts q ks.1 o) one) in
      bind-Keeps Guarded (λ _. Unit) _ _ _ (asks ports.requested_reason)
        (λ reason _. request-Keeps t ts p reason _ obj round)

  pub run_tasks-Keeps :
      (run_id : Text) (flow : ResolvedFlow) (seed : Option Value)
      → leb (length flow.tasks) tasks_per_flow_max ≡ true
      → All IsKeyed flow.tasks
      → IsSeed seed
      → Keeps IsGuarded
          (Ended flow.tasks)
          (run_tasks ports config change_hook step run_id flow seed)
  unfolding run_tasks
  run_tasks-Keeps run_id flow seed few keyed object_seed =
      let b = seeded ports config change_hook step seed config.max_state_size_bytes in
      let obj = seeded-is_object seed config.max_state_size_bytes object_seed in
      bind-Keeps Guarded (λ _. Unit) _ _ _ (assert-Keeps Guarded _ few)
        (λ _ _.
          bind-Keeps Guarded (Walked flow.tasks []) _ _ _
            (walk-Keeps flow.tasks (record { builder = b; results = []; changed = [] }) keyed obj)
            (λ y w. pure-Keeps Guarded (Ended flow.tasks) _ (finished run_id flow.tasks y w)))

  -- The loop, from a guarded session, neither fails an assertion nor lets an event reach the sink that
  -- was not sealed by a masker which held every secret that the call that sent it had resolved by
  -- then. Where it gives an outcome, the state is an object, the status is
  -- terminal and says how the loop ended, and each task up to where it stopped has one result, in their
  -- order: every task where the status is ok. The tasks are named, keyed and within the cap, the state
  -- to start from is an object, and the step and the hook keep the session guarded and do not panic.
  pub run_tasks_lem :
      (run_id : Text) (flow : ResolvedFlow) (seed : Option Value) (s : Session W)
      → leb (length flow.tasks) tasks_per_flow_max ≡ true
      → All IsKeyed flow.tasks
      → IsSeed seed
      → IsGuarded s
      → IsGuarded (run_tasks ports config change_hook step run_id flow seed s).1
        × Holds (Ended flow.tasks) (run_tasks ports config change_hook step run_id flow seed s).0
  unfolding Keeps Post
  run_tasks_lem run_id flow seed s few keyed object_seed i =
      run_tasks-Keeps run_id flow seed few keyed object_seed s i
