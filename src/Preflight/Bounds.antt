-- ===== src/Preflight/Bounds.antt =====
-- A flow passes the structural checks exactly if it is within the limits.
use tmx.Base.{
  ℕ, ◌+◌, ◌≡◌, refl, Bool, true, false, not, ◌&&◌, Option, none, some, List, [], ◌∷◌, arith, Text,
  length, is_empty, all, map, ltb, leb, Bool-cases, inl, inr, if◌then◌else◌, subst, ap, length-map,
}
use tmx.Limits.{tasks_per_flow_max, fanout_width_max, concurrency_max, hook_tasks_max}
use tmx.Json.{Value, null, boolean, number, string, array, object, to_list}
use tmx.Error.{Result, ok, err, RunError, reject_if, ◌>>◌}
use tmx.Flow.{
  TaskWith, InnerTask, inner, Subject, no_subject, subject, Task, Tasks, Hook, Hooks, Context,
  ResolvedFlow,
}
use tmx.Resolve.{desugar_tasks, entry_task}
use tmx.Runner.Names.{name_of, has_name, well_named, acceptable, fresh-cons, fresh-nil}
use tmx.Preflight.Limits.{
  check_names, check_fanout_width, check_concurrency, check_dataset, check_task_limits, check_inner,
  check_subject, check_tasks, hook_task_count, add_count, check_hooks, check_hooks_of,
  check_hook_task_budget, check_structure_and_limits, unnamed_task, duplicate_name,
}

abbrev narrow : Value → Bool
narrow (array items) = leb (length (to_list items)) fanout_width_max
narrow _ = true

abbrev narrow_dataset : Option Value → Bool
narrow_dataset none = true
narrow_dataset (some v) = narrow v

abbrev bounded_concurrency : Option ℕ → Bool
bounded_concurrency none = true
bounded_concurrency (some n) = leb n concurrency_max

-- The literal collections of a task, and of the tasks in it, are within the fan-out width, and the
-- concurrency that each asks for is within the cap.
unfoldable mutual
  pub within_limits : TaskWith → Bool
  within_limits (TaskWith.map w t) =
      narrow w.items && bounded_concurrency w.concurrency && inner_within t
  within_limits (TaskWith.eval w s) =
      narrow_dataset w.dataset && bounded_concurrency w.concurrency && subject_within s
  within_limits _ = true

  pub inner_within : InnerTask → Bool
  inner_within (inner fields w) = within_limits w

  pub subject_within : Subject → Bool
  subject_within no_subject = true
  subject_within (subject t) = inner_within t

abbrev pub entries : Tasks → ℕ
entries (Tasks.list ts) = length ts
entries (Tasks.map m) = length m

abbrev pub hook_size : Option Hook → ℕ
hook_size (some (Hook.tasks ts)) = entries ts
hook_size _ = 0

abbrev pub hooks_within : Option Hooks → Bool
hooks_within none = true
hooks_within (some h) =
    leb (hook_size h.create + hook_size h.change + hook_size h.destroy + hook_size h.error)
      hook_tasks_max

abbrev pub budget_within : Option Context → Bool
budget_within none = true
budget_within (some c) = hooks_within c.hooks

-- The names are in order, and so are the limits of every task and the number of tasks in the hooks.
unfoldable pub is_bounded : ResolvedFlow → Bool
is_bounded flow =
    well_named flow.tasks
    && all (λ (t : Task). within_limits t.with) flow.tasks
    && budget_within flow.context

-- The result says yes exactly if the test does, and is no panic.
abbrev Decides : Result (Unit {0}) → Bool → Type 0
Decides r b = (e : RunError) × (r ≡ (if b then ok tt else err e))

then-Decides :
    (m n : Result (Unit {0})) (b c : Bool) → Decides m b → Decides n c → Decides (m >> n) (b && c)
then-Decides m n true c (e, h) (e', k) = (e', rw h k)
then-Decides m n false c (e, h) k = (e, rw h refl)

reject-Decides : (b : Bool) (e : RunError) → Decides (reject_if b e) (not b)
reject-Decides true e = (e, refl)
reject-Decides false e = (e, refl)

leb-not : (a b : ℕ) → not (ltb b a) ≡ leb a b
leb-not a b = ground arith

passes : Decides (ok tt) true
passes = (unnamed_task, refl)

narrow-Decides : (v : Value) (name : Option Text) → Decides (check_fanout_width v name) (narrow v)
unfolding check_fanout_width
narrow-Decides (array items) name =
    subst (Decides _) (leb-not (length (to_list items)) fanout_width_max) (reject-Decides _ _)
narrow-Decides null name = passes
narrow-Decides (boolean b) name = passes
narrow-Decides (number n) name = passes
narrow-Decides (string s) name = passes
narrow-Decides (object fs) name = passes

dataset-Decides :
    (v : Option Value) (name : Option Text) → Decides (check_dataset v name) (narrow_dataset v)
dataset-Decides none name = passes
dataset-Decides (some v) name = narrow-Decides v name

concurrency-Decides :
    (n : Option ℕ) (name : Option Text) → Decides (check_concurrency n name) (bounded_concurrency n)
unfolding check_concurrency
concurrency-Decides none name = passes
concurrency-Decides (some n) name =
    subst (Decides _) (leb-not n concurrency_max) (reject-Decides _ _)

mutual
  unfolding check_task_limits within_limits

  limits-Decides :
      (w : TaskWith) (name : Option Text) → Decides (check_task_limits w name) (within_limits w)
  limits-Decides (TaskWith.map w t) name =
      then-Decides _ _ _ _
        (then-Decides _ _ _ _ (narrow-Decides w.items name)
          (concurrency-Decides w.concurrency name))
        (inner-Decides t)
  limits-Decides (TaskWith.eval w s) name =
      then-Decides _ _ _ _
        (then-Decides _ _ _ _ (dataset-Decides w.dataset name)
          (concurrency-Decides w.concurrency name))
        (subject-Decides s)
  limits-Decides _ name = passes

  inner-Decides : (t : InnerTask) → Decides (check_inner t) (inner_within t)
  inner-Decides (inner fields w) = limits-Decides w fields.name

  subject-Decides : (s : Subject) → Decides (check_subject s) (subject_within s)
  subject-Decides no_subject = passes
  subject-Decides (subject t) = inner-Decides t

tasks-Decides :
    (ts : List Task) → Decides (check_tasks ts) (all (λ (t : Task). within_limits t.with) ts)
tasks-Decides [] = passes
tasks-Decides (t ∷ ts) = then-Decides _ _ _ _ (limits-Decides t.with t.name) (tasks-Decides ts)

names-Decides : (ns seen : List Text) → Decides (check_names ns seen) (acceptable seen ns)
unfolding check_names
names-Decides [] seen = passes
names-Decides (n ∷ ns) seen =
    let (e, rest) = names-Decides ns (n ∷ seen) in
    elim (Bool-cases (is_empty n)) [
      | inl empty ↦ (unnamed_task, ground (arith, empty))
      | inr named ↦ elim (Bool-cases (has_name seen n)) [
        | inl seen_before ↦ (duplicate_name n, ground (arith, named, seen_before))
        | inr new ↦ (e, ground (arith, named, new, rest, fresh-cons n seen ns))
      ]
    ]

count-entries : (h : Hook) → hook_task_count h ≡ ok (hook_size (some h))
unfolding hook_task_count desugar_tasks
count-entries (Hook.tasks (Tasks.list ts)) = refl
count-entries (Hook.tasks (Tasks.map m)) = ap ok (length-map m entry_task)
count-entries (Hook.reference r) = refl
count-entries (Hook.use_ref r i) = refl

add_count-size : (h : Option Hook) (total : ℕ) → add_count h total ≡ ok (total + hook_size h)
add_count-size none total = ap ok (omega arith)
add_count-size (some h) total = rw (count-entries h) refl

hooks-Decides : (h : Option Hooks) → Decides (check_hooks_of h) (hooks_within h)
unfolding check_hooks
hooks-Decides none = passes
hooks-Decides (some h) =
    rw
      (
        add_count-size h.create 0,
        add_count-size h.change (0 + hook_size h.create),
        add_count-size h.destroy (0 + hook_size h.create + hook_size h.change),
        add_count-size h.error (0 + hook_size h.create + hook_size h.change + hook_size h.destroy),
      )
      (let total =
          0 + hook_size h.create + hook_size h.change + hook_size h.destroy + hook_size h.error in
        subst (Decides _) (ground arith) (reject-Decides (ltb hook_tasks_max total) _))

budget-Decides : (c : Option Context) → Decides (check_hook_task_budget c) (budget_within c)
budget-Decides none = passes
budget-Decides (some c) = hooks-Decides c.hooks

-- The four tests, in the order of the checks.
abbrev tests : ResolvedFlow → Bool
tests flow =
    ((not (ltb tasks_per_flow_max (length flow.tasks)) && acceptable [] (map name_of flow.tasks))
      && all (λ (t : Task). within_limits t.with) flow.tasks)
    && budget_within flow.context

tests-is_bounded : (flow : ResolvedFlow) → tests flow ≡ is_bounded flow
unfolding is_bounded well_named
tests-is_bounded flow = ground (arith, fresh-nil (map name_of flow.tasks))

-- Preflight's structural checks let a flow through exactly if it is bounded: its task names are those that
-- the runner asks for, and it, the tasks within its tasks and its hooks are within the limits.
-- Otherwise they give an error, and they never panic.
pub check_structure_and_limits_lem :
    (flow : ResolvedFlow)
    → (e : RunError) × (check_structure_and_limits flow
        ≡ (if is_bounded flow then ok tt else err e))
unfolding check_structure_and_limits is_bounded
check_structure_and_limits_lem flow = subst (Decides _) (tests-is_bounded flow) (
    then-Decides _ _ _ _
      (then-Decides _ _ _ _
        (then-Decides _ _ _ _ (reject-Decides _ _) (names-Decides (map name_of flow.tasks) []))
        (tasks-Decides flow.tasks))
      (budget-Decides flow.context))
