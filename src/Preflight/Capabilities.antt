-- ===== src/Preflight/Capabilities.antt =====
-- The capabilities that a flow needs, and the check that they are wired.
use tmx.Base.{
  Bool, true, false, not, Option, none, some, List, [], ◌∷◌, ◌++◌, String, Text, bytes, text_eq,
  any, filter, if◌then◌else◌,
}
use tmx.IndexMap.{IndexMap}
use tmx.Error.{Result, ok, err, RunError, ErrorCategory, new_error, with_task, format, text}
use tmx.Flow.{
  SecretValue, Scorer, TaskWith, InnerTask, inner, Subject, no_subject, subject, Task, Hook, Hooks,
  Context, Environment, ResolvedFlow,
}
use tmx.Resolve.{desugar_tasks}

pub data Capability : Type 0 where
  process http file store chat secret provider : Capability

abbrev pub every_capability : List Capability
every_capability = process ∷ http ∷ file ∷ store ∷ chat ∷ secret ∷ provider ∷ []

abbrev pub port_name : Capability → String
port_name process = "ProcessRunner"
port_name http = "HttpClient"
port_name file = "FileSystem"
port_name store = "ObjectStore"
port_name chat = "ChatModel"
port_name secret = "SecretResolver"
port_name provider = "EnvironmentProvider"

-- The derived `PartialEq`
abbrev pub same : Capability → Capability → Bool
same process process = true
same http http = true
same file file = true
same store store = true
same chat chat = true
same secret secret = true
same provider provider = true
same _ _ = false

abbrev pub CapabilitySet : Type 0
CapabilitySet = List (Capability × Text)

abbrev pub contains : CapabilitySet → Capability → Bool
contains set cap = any (λ r. same r.0 cap) set

unfoldable pub require : Capability → String → CapabilitySet → CapabilitySet
require cap task_type set = if contains set cap then set else set ++ ((cap, bytes task_type) ∷ [])

abbrev pub AvailableCapabilities : Type 0
AvailableCapabilities = List Capability

abbrev pub has : AvailableCapabilities → Capability → Bool
has present cap = any (λ c. same c cap) present

-- `AvailableCapabilities::with` and `without`
unfoldable pub add : AvailableCapabilities → Capability → AvailableCapabilities
add present cap = if has present cap then present else present ++ (cap ∷ [])

unfoldable pub without : AvailableCapabilities → Capability → AvailableCapabilities
without present cap = filter (λ c. not (same c cap)) present

abbrev pub scorer_is : String → Text → Bool
scorer_is kind scorer_type = text_eq scorer_type (bytes kind)

abbrev pub walk_scorer_type : Option Text → CapabilitySet → CapabilitySet
walk_scorer_type none set = set
walk_scorer_type (some t) set =
    if scorer_is "llmRubric" t
    then require chat "eval.llmRubric" set
    else if scorer_is "exec" t
    then require process "eval.exec" set
    else if scorer_is "run" t
    then require process "eval.run" set
    else set

abbrev pub walk_scorers : List Scorer → CapabilitySet → CapabilitySet
walk_scorers [] set = set
walk_scorers (s ∷ ss) set = walk_scorers ss (walk_scorer_type s.scorer_type set)

-- `walk_task_capabilities`, on the payload of a task, and on the task of a map or an eval.
unfoldable mutual
  pub walk_with : TaskWith → CapabilitySet → CapabilitySet
  walk_with (TaskWith.exec w) set = require process "exec" set
  walk_with (TaskWith.run w) set = require process "run" set
  walk_with (TaskWith.fetch w) set = require http "fetch" set
  walk_with (TaskWith.file w) set = require file "file" set
  walk_with (TaskWith.store w) set = require store "store" set
  walk_with (TaskWith.chat_completion w) set = require chat "chat-completion" set
  walk_with (TaskWith.assert w) set = set
  walk_with (TaskWith.map w t) set = walk_inner t set
  walk_with (TaskWith.eval w s) set = walk_scorers w.scorers (walk_subject s set)
  walk_with (TaskWith.flow w) set = set

  pub walk_inner : InnerTask → CapabilitySet → CapabilitySet
  walk_inner (inner fields w) set = walk_with w set

  pub walk_subject : Subject → CapabilitySet → CapabilitySet
  walk_subject no_subject set = set
  walk_subject (subject t) set = walk_inner t set

unfoldable pub walk_tasks : List Task → CapabilitySet → CapabilitySet
walk_tasks [] set = set
walk_tasks (t ∷ ts) set = walk_tasks ts (walk_with t.with set)

abbrev pub walk_desugared : Result (List Task) → CapabilitySet → CapabilitySet
walk_desugared (ok ts) set = walk_tasks ts set
walk_desugared _ set = set

unfoldable pub walk_hook : Hook → CapabilitySet → CapabilitySet
walk_hook (Hook.tasks ts) set = walk_desugared (desugar_tasks ts) set
walk_hook _ set = set

abbrev pub walk_hook_of : Option Hook → CapabilitySet → CapabilitySet
walk_hook_of none set = set
walk_hook_of (some h) set = walk_hook h set

abbrev pub walk_hooks : Option Hooks → CapabilitySet → CapabilitySet
walk_hooks none set = set
walk_hooks (some hooks) set =
    walk_hook_of hooks.error
      (walk_hook_of hooks.destroy (walk_hook_of hooks.change (walk_hook_of hooks.create set)))

abbrev pub is_source : SecretValue → Bool
is_source (SecretValue.source s) = true
is_source (SecretValue.literal s) = false

abbrev pub has_source : Option (IndexMap SecretValue) → Bool
has_source none = false
has_source (some secrets) = any (λ e. is_source e.1) secrets

unfoldable pub walk_context : Context → CapabilitySet → CapabilitySet
walk_context context set =
    walk_hooks context.hooks
      (if has_source context.secrets then require secret "context.secrets" set else set)

abbrev pub walk_provider : Option Text → CapabilitySet → CapabilitySet
walk_provider none set = set
walk_provider (some p) set = require provider "environment" set

unfoldable pub walk_environment : Environment → CapabilitySet → CapabilitySet
walk_environment environment set =
    walk_hook_of environment.bootstrap (walk_provider environment.provider set)

abbrev pub walk_context_of : Option Context → CapabilitySet → CapabilitySet
walk_context_of none set = set
walk_context_of (some c) set = walk_context c set

abbrev pub walk_environment_of : Option Environment → CapabilitySet → CapabilitySet
walk_environment_of none set = set
walk_environment_of (some e) set = walk_environment e set

unfoldable pub compute_capabilities : ResolvedFlow → CapabilitySet
compute_capabilities flow =
    walk_environment_of flow.environment (walk_context_of flow.context (walk_tasks flow.tasks []))

abbrev pub missing_capability : Capability → Text → RunError
missing_capability cap task_type =
    with_task
      (new_error ErrorCategory.environment "missing_capability" (
        format "no {} adapter is wired for a `{task_type}` task"
          (text (bytes (port_name cap)) ∷ text task_type ∷ [])))
      task_type

unfoldable pub check_capabilities : CapabilitySet → AvailableCapabilities → Result (Unit {0})
check_capabilities [] available = ok tt
check_capabilities ((cap, task_type) ∷ required) available =
    let rest = check_capabilities required available in
    if has available cap then rest else err (missing_capability cap task_type)
