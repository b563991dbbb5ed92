-- ===== src/Preflight/Coverage.antt =====
-- The capability check lets a flow through exactly if all that it counts is wired. It counts nothing for
-- the sub-flow of a flow task, which is loaded later, and nothing for the secrets of a task's own context.
use tmx.Base.{
  Bool, true, false, not, ◌&&◌, ◌||◌, ◌≡◌, ◌↔◌, refl, Option, none, some, List, [], ◌∷◌, ◌++◌,
  arith, String, Text, bytes, all, if◌then◌else◌,
}
use tmx.Error.{Result, ok, err, panic}
use tmx.Flow.{
  Scorer, TaskWith, InnerTask, inner, Subject, no_subject, subject, Task, Hook, Hooks, Context,
  Environment, ResolvedFlow,
}
use tmx.Resolve.{desugar_tasks}
use tmx.Preflight.Capabilities.{
  Capability, process, http, file, store, chat, secret, provider, same, CapabilitySet, contains,
  require, AvailableCapabilities, has, scorer_is, walk_scorer_type, walk_scorers, walk_with,
  walk_inner, walk_subject, walk_tasks, walk_desugared, walk_hook, walk_hook_of, walk_hooks,
  has_source, walk_context, walk_provider, walk_environment, walk_context_of, walk_environment_of,
  compute_capabilities, check_capabilities,
}

-- What is wired, as a test on capabilities; the rest of this module says what it covers.
abbrev pub Wired : Type 0
Wired = Capability → Bool

abbrev scorer_covered : Wired → Option Text → Bool
scorer_covered w none = true
scorer_covered w (some t) =
    if scorer_is "llmRubric" t
    then w chat
    else not (scorer_is "exec" t || scorer_is "run" t) || w process

-- The adapter of a task is wired, and those of its inner task and of its scorers. What the sub-flow of a
-- flow task needs is not counted, and neither are the secrets of a task's own context.
unfoldable mutual
  pub task_covered : Wired → TaskWith → Bool
  task_covered w (TaskWith.exec _) = w process
  task_covered w (TaskWith.run _) = w process
  task_covered w (TaskWith.fetch _) = w http
  task_covered w (TaskWith.file _) = w file
  task_covered w (TaskWith.store _) = w store
  task_covered w (TaskWith.chat_completion _) = w chat
  task_covered w (TaskWith.assert _) = true
  task_covered w (TaskWith.map _ t) = inner_covered w t
  task_covered w (TaskWith.eval e s) =
      subject_covered w s && all (λ (s : Scorer). scorer_covered w s.scorer_type) e.scorers
  task_covered w (TaskWith.flow _) = true

  pub inner_covered : Wired → InnerTask → Bool
  inner_covered w (inner fields t) = task_covered w t

  pub subject_covered : Wired → Subject → Bool
  subject_covered w no_subject = true
  subject_covered w (subject t) = inner_covered w t

abbrev tasks_covered : Wired → List Task → Bool
tasks_covered w ts = all (λ (t : Task). task_covered w t.with) ts

abbrev desugared_covered : Wired → Result (List Task) → Bool
desugared_covered w (ok ts) = tasks_covered w ts
desugared_covered w _ = true

-- The body of a hook, which is inline by then.
abbrev hook_covered : Wired → Option Hook → Bool
hook_covered w (some (Hook.tasks ts)) = desugared_covered w (desugar_tasks ts)
hook_covered w _ = true

abbrev hooks_covered : Wired → Option Hooks → Bool
hooks_covered w none = true
hooks_covered w (some h) =
    hook_covered w h.create
    && hook_covered w h.change
    && hook_covered w h.destroy
    && hook_covered w h.error

abbrev context_covered : Wired → Option Context → Bool
context_covered w none = true
context_covered w (some c) = (not (has_source c.secrets) || w secret) && hooks_covered w c.hooks

abbrev is_some : {A : Type 0} → Option A → Bool
is_some none = false
is_some (some a) = true

abbrev environment_covered : Wired → Option Environment → Bool
environment_covered w none = true
environment_covered w (some e) =
    (not (is_some e.provider) || w provider) && hook_covered w e.bootstrap

unfoldable pub flow_covered : Wired → ResolvedFlow → Bool
flow_covered w flow =
    tasks_covered w flow.tasks
    && context_covered w flow.context
    && environment_covered w flow.environment

-- Every required capability is wired.
abbrev set_wired : Wired → CapabilitySet → Bool
set_wired w set = all (λ r. w r.0) set

same_eq : (a b : Capability) → same a b ≡ true → a ≡ b
same_eq process process h = refl
same_eq http http h = refl
same_eq file file h = refl
same_eq store store h = refl
same_eq chat chat h = refl
same_eq secret secret h = refl
same_eq provider provider h = refl
same_eq _ _ h = absurd cc

set_wired-append :
    (w : Wired) (set : CapabilitySet) (cap : Capability) (t : Text)
    → set_wired w (set ++ ((cap, t) ∷ [])) ≡ (set_wired w set && w cap)
set_wired-append w [] cap t = ground arith
set_wired-append w (r ∷ set) cap t = ground (arith, set_wired-append w set cap t)

contains-set_wired :
    (w : Wired) (set : CapabilitySet) (cap : Capability)
    → contains set cap ≡ true
    → set_wired w set ≡ true
    → w cap ≡ true
contains-set_wired w [] cap h k = absurd cc
contains-set_wired w ((c, t) ∷ set) cap h k =
    ground (arith, contains-set_wired w set cap, same_eq c cap)

set_wired-require :
    (w : Wired) (cap : Capability) (t : String) (set : CapabilitySet)
    → set_wired w (require cap t set) ≡ (set_wired w set && w cap)
unfolding require
set_wired-require w cap t set =
    ground (arith, set_wired-append w set cap (bytes t), contains-set_wired w set cap)

if_require :
    (w : Wired) (cap : Capability) (t : String) (set other : CapabilitySet) (covered b : Bool)
    → set_wired w other ≡ (set_wired w set && covered)
    → set_wired w (if b then require cap t set else other)
      ≡ (set_wired w set && (if b then w cap else covered))
if_require w cap t set other covered true h = set_wired-require w cap t set
if_require w cap t set other covered false h = h

if_require_or :
    (w : Wired) (cap : Capability) (t u : String) (set : CapabilitySet) (b c : Bool)
    → set_wired w (if b then require cap t set else if c then require cap u set else set)
      ≡ (set_wired w set && (not (b || c) || w cap))
if_require_or w cap t u set true c = set_wired-require w cap t set
if_require_or w cap t u set false true = set_wired-require w cap u set
if_require_or w cap t u set false false = ground arith

walk_scorer_type-wired :
    (w : Wired) (t : Option Text) (set : CapabilitySet)
    → set_wired w (walk_scorer_type t set) ≡ (set_wired w set && scorer_covered w t)
walk_scorer_type-wired w none set = ground arith
walk_scorer_type-wired w (some t) set =
    if_require w chat "eval.llmRubric" set _ _ (scorer_is "llmRubric" t)
      (if_require_or w process "eval.exec" "eval.run" set (scorer_is "exec" t) (scorer_is "run" t))

walk_scorers-wired :
    (w : Wired) (ss : List Scorer) (set : CapabilitySet)
    → set_wired w (walk_scorers ss set)
      ≡ (set_wired w set && all (λ (s : Scorer). scorer_covered w s.scorer_type) ss)
walk_scorers-wired w [] set = ground arith
walk_scorers-wired w (s ∷ ss) set = ground (
  arith,
  walk_scorers-wired w ss (walk_scorer_type s.scorer_type set),
  walk_scorer_type-wired w s.scorer_type set,
)

mutual
  unfolding walk_with task_covered

  walk_with-wired :
      (w : Wired) (t : TaskWith) (set : CapabilitySet)
      → set_wired w (walk_with t set) ≡ (set_wired w set && task_covered w t)
  walk_with-wired w (TaskWith.exec _) set = set_wired-require w process "exec" set
  walk_with-wired w (TaskWith.run _) set = set_wired-require w process "run" set
  walk_with-wired w (TaskWith.fetch _) set = set_wired-require w http "fetch" set
  walk_with-wired w (TaskWith.file _) set = set_wired-require w file "file" set
  walk_with-wired w (TaskWith.store _) set = set_wired-require w store "store" set
  walk_with-wired w (TaskWith.chat_completion _) set =
      set_wired-require w chat "chat-completion" set
  walk_with-wired w (TaskWith.assert _) set = ground arith
  walk_with-wired w (TaskWith.map _ t) set = walk_inner-wired w t set
  walk_with-wired w (TaskWith.eval e s) set =
      ground
        (arith, walk_scorers-wired w e.scorers (walk_subject s set), walk_subject-wired w s set)
  walk_with-wired w (TaskWith.flow _) set = ground arith

  walk_inner-wired :
      (w : Wired) (t : InnerTask) (set : CapabilitySet)
      → set_wired w (walk_inner t set) ≡ (set_wired w set && inner_covered w t)
  walk_inner-wired w (inner fields t) set = walk_with-wired w t set

  walk_subject-wired :
      (w : Wired) (s : Subject) (set : CapabilitySet)
      → set_wired w (walk_subject s set) ≡ (set_wired w set && subject_covered w s)
  walk_subject-wired w no_subject set = ground arith
  walk_subject-wired w (subject t) set = walk_inner-wired w t set

walk_tasks-wired :
    (w : Wired) (ts : List Task) (set : CapabilitySet)
    → set_wired w (walk_tasks ts set) ≡ (set_wired w set && tasks_covered w ts)
unfolding walk_tasks
walk_tasks-wired w [] set = ground arith
walk_tasks-wired w (t ∷ ts) set =
    ground (arith, walk_tasks-wired w ts (walk_with t.with set), walk_with-wired w t.with set)

walk_desugared-wired :
    (w : Wired) (ts : Result (List Task)) (set : CapabilitySet)
    → set_wired w (walk_desugared ts set) ≡ (set_wired w set && desugared_covered w ts)
walk_desugared-wired w (ok ts) set = walk_tasks-wired w ts set
walk_desugared-wired w (err e) set = ground arith
walk_desugared-wired w panic set = ground arith

walk_hook-wired :
    (w : Wired) (h : Option Hook) (set : CapabilitySet)
    → set_wired w (walk_hook_of h set) ≡ (set_wired w set && hook_covered w h)
unfolding walk_hook
walk_hook-wired w none set = ground arith
walk_hook-wired w (some (Hook.tasks ts)) set = walk_desugared-wired w (desugar_tasks ts) set
walk_hook-wired w (some (Hook.reference r)) set = ground arith
walk_hook-wired w (some (Hook.use_ref r i)) set = ground arith

walk_hooks-wired :
    (w : Wired) (h : Option Hooks) (set : CapabilitySet)
    → set_wired w (walk_hooks h set) ≡ (set_wired w set && hooks_covered w h)
walk_hooks-wired w none set = ground arith
walk_hooks-wired w (some h) set =
    let created = walk_hook_of h.create set in
    let changed = walk_hook_of h.change created in
    let destroyed = walk_hook_of h.destroy changed in
    ground (
      arith,
      walk_hook-wired w h.create set,
      walk_hook-wired w h.change created,
      walk_hook-wired w h.destroy changed,
      walk_hook-wired w h.error destroyed,
    )

walk_context-wired :
    (w : Wired) (c : Option Context) (set : CapabilitySet)
    → set_wired w (walk_context_of c set) ≡ (set_wired w set && context_covered w c)
unfolding walk_context
walk_context-wired w none set = ground arith
walk_context-wired w (some c) set = ground (
  arith,
  walk_hooks-wired w c.hooks (require secret "context.secrets" set),
  walk_hooks-wired w c.hooks set,
  set_wired-require w secret "context.secrets" set,
)

walk_provider-wired :
    (w : Wired) (p : Option Text) (set : CapabilitySet)
    → set_wired w (walk_provider p set) ≡ (set_wired w set && (not (is_some p) || w provider))
walk_provider-wired w none set = ground arith
walk_provider-wired w (some p) set = set_wired-require w provider "environment" set

walk_environment-wired :
    (w : Wired) (e : Option Environment) (set : CapabilitySet)
    → set_wired w (walk_environment_of e set) ≡ (set_wired w set && environment_covered w e)
unfolding walk_environment
walk_environment-wired w none set = ground arith
walk_environment-wired w (some e) set = ground (
  arith,
  walk_hook-wired w e.bootstrap (walk_provider e.provider set),
  walk_provider-wired w e.provider set,
)

compute-wired :
    (w : Wired) (flow : ResolvedFlow)
    → set_wired w (compute_capabilities flow) ≡ flow_covered w flow
unfolding compute_capabilities flow_covered
compute-wired w flow =
    let tasks = walk_tasks flow.tasks [] in
    ground (
      arith,
      walk_tasks-wired w flow.tasks [],
      walk_context-wired w flow.context tasks,
      walk_environment-wired w flow.environment (walk_context_of flow.context tasks),
    )

check-wired :
    (set : CapabilitySet) (available : AvailableCapabilities)
    → (check_capabilities set available ≡ ok tt) ↔ (set_wired (has available) set ≡ true)
unfolding check_capabilities
check-wired [] available = ground arith
check-wired ((cap, t) ∷ set) available = ground (arith, check-wired set available)

-- A flow passes the capability check exactly if every adapter is wired that its tasks, the tasks in its
-- maps and evals, the scorers, the hooks, the bootstrap, the structured secrets of its context and its
-- provider need. A flow task counts as needing nothing, and so does the context of a task.
pub check_capabilities_lem :
    (flow : ResolvedFlow) (available : AvailableCapabilities)
    → (check_capabilities (compute_capabilities flow) available ≡ ok tt)
      ↔ (flow_covered (has available) flow ≡ true)
check_capabilities_lem flow available =
    rw (← compute-wired (has available) flow) (check-wired (compute_capabilities flow) available)
