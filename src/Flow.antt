-- ===== src/Flow.antt =====
-- The flow that the engine runs: the data of crates/tmx-schema (task.rs, flow.rs, context.rs,
-- environment.rs) and the
-- `ResolvedFlow` of crates/tmx-core/src/model.rs.
--
-- Descriptive fields that the engine never reads are left out, and so are the hooks of a task's own
-- context, which it does not read either. A payload that only the dispatch reads is kept as the
-- JSON that it is parsed from.
use tmx.Base.{ℕ, Bool, Option, List, Text}
use tmx.Json.{Value, Fields}
use tmx.IndexMap.{IndexMap}

abbrev pub EnvMap : Type 0
EnvMap = IndexMap Text

pub record SecretSource : Type 0 where
  pub env : Option Text
  pub file : Option Text
  pub provider : Option Text
  pub key : Option Text
  pub extra : IndexMap Value

pub data SecretValue : Type 0 where
  literal : Text → SecretValue
  source : SecretSource → SecretValue

pub record LocalContext : Type 0 where
  pub env : Option EnvMap
  pub secrets : Option (IndexMap SecretValue)

pub data Ref (A : Type 0) : Type 0 where
  inline : A → Ref A
  reference : Text → Ref A

pub data Duration : Type 0 where
  seconds : ℕ → Duration
  spec : Text → Duration

pub record ExecWith : Type 0 where
  pub command : Text
  pub args : Option (List Text)
  pub shell : Option Text
  pub cwd : Option Text
  pub env : Option EnvMap
  pub timeout : Option Duration

pub record RunWith : Type 0 where
  pub language : Option Text
  pub script : Option Text
  pub file : Option Text
  pub args : Option (List Text)
  pub env : Option EnvMap
  pub cwd : Option Text
  pub timeout : Option Duration

pub record FetchWith : Type 0 where
  pub url : Text
  pub method : Option Text
  pub headers : Option EnvMap
  pub query : Option (IndexMap Value)
  pub body : Option Value
  pub body_type : Option Text
  pub timeout : Option Duration
  pub follow_redirects : Option Bool
  pub retries : Option ℕ

pub record FileWith : Type 0 where
  pub operation : Text
  pub path : Text
  pub content : Option Text
  pub encoding : Option Text
  pub destination : Option Text

pub record StoreWith : Type 0 where
  pub operation : Text
  pub bucket : Text
  pub key : Option Text
  pub endpoint : Option Text
  pub region : Option Text
  pub content : Option Text
  pub content_type : Option Text
  pub credentials : Option Value
  pub timeout : Option Duration

pub record FlowWith : Type 0 where
  pub use_ref : Text
  pub inputs : Option Value

-- `settings` holds the fields that only the scoring reads.
pub record Scorer : Type 0 where
  pub name : Text
  pub scorer_type : Option Text
  pub settings : Fields

-- `MapWith` and `EvalWith`, less the task that they run.
pub record MapWith : Type 0 where
  pub items : Value
  pub as_binding : Option Text
  pub concurrency : Option ℕ
  pub continue_on_error : Option Bool

pub record EvalWith : Type 0 where
  pub scorers : List Scorer
  pub dataset : Option Value
  pub concurrency : Option ℕ
  pub threshold : Option Value

-- A task less its payload.
pub record TaskFields : Type 0 where
  pub name : Option Text
  pub if_condition : Option Text
  pub secrets : Option (List Text)
  pub context : Option (Ref LocalContext)
  pub context_strategy : Option Text
  pub context_precedence : Option Text
  pub output : Option Text
  pub produces : Option Value
  pub continue_on_error : Option Bool

-- A payload may hold a task again: that of a map, and the subject of an eval, where it has one.
mutual
  pub data TaskWith : Type 0 where
    exec : ExecWith → TaskWith
    run : RunWith → TaskWith
    fetch : FetchWith → TaskWith
    file : FileWith → TaskWith
    store : StoreWith → TaskWith
    chat_completion assert : Value → TaskWith
    flow : FlowWith → TaskWith
    map : MapWith → InnerTask → TaskWith
    eval : EvalWith → Subject → TaskWith

  pub data InnerTask : Type 0 where
    inner : TaskFields → TaskWith → InnerTask

  pub data Subject : Type 0 where
    no_subject : Subject
    subject : InnerTask → Subject

pub record Task : Type 0 where
  pub name : Option Text
  pub if_condition : Option Text
  pub secrets : Option (List Text)
  pub context : Option (Ref LocalContext)
  pub context_strategy : Option Text
  pub context_precedence : Option Text
  pub output : Option Text
  pub produces : Option Value
  pub continue_on_error : Option Bool
  pub with : TaskWith

pub data TaskEntry : Type 0 where
  task : Task → TaskEntry
  shorthand : Text → TaskEntry

pub data Tasks : Type 0 where
  list : List Task → Tasks
  map : IndexMap TaskEntry → Tasks

pub data Hook : Type 0 where
  reference : Text → Hook
  use_ref : Text → Option Value → Hook
  tasks : Tasks → Hook

pub record Hooks : Type 0 where
  pub create : Option Hook
  pub change : Option Hook
  pub destroy : Option Hook
  pub error : Option Hook

pub record Context : Type 0 where
  pub env : Option EnvMap
  pub secrets : Option (IndexMap SecretValue)
  pub hooks : Option Hooks

-- `extra` holds the keys that only an environment provider reads.
pub record Environment : Type 0 where
  pub provider : Option Text
  pub bootstrap : Option Hook
  pub extra : Fields

pub record InputSpec : Type 0 where
  pub input_type : Option Text
  pub required : Option Bool
  pub default : Option Value

-- A flow as it is loaded, and the one that the runner walks.
pub record Flow : Type 0 where
  pub tasks : Tasks
  pub name : Option Text
  pub environment : Option (Ref Environment)
  pub context : Option (Ref Context)
  pub inputs : Option (IndexMap InputSpec)

pub record ResolvedFlow : Type 0 where
  pub name : Option Text
  pub environment : Option Environment
  pub context : Option Context
  pub inputs : IndexMap InputSpec
  pub tasks : List Task
