-- ===== src/Fanout/Examples.antt =====
-- A map over two items on the serial scheduler, whose second item fails.
use tmx.Base.{ℕ, arith, Bool, true, false, none, some, [], bytes, length, ◌==◌, if◌then◌else◌}
use tmx.Json.{Value, null, string, array, item, no_items}
use tmx.Error.{err, run_failure_error, plain}
use tmx.Flow.{MapWith, InnerTask, inner, TaskWith, FetchWith}
use tmx.Interpolate.{Numbers, Scope}
use tmx.Dispatch.Template.{Rendering}
use tmx.Runner.Session.{Session, Run, pure, lift}
use tmx.Runner.Hoare.{Holds, Keeps, pure-Keeps, lift-Keeps}
use tmx.Fanout.Map.{run_map}
use tmx.Fanout.Serial.{run_indexed, run_indexed-Keeps}
use tmx.Fanout.Safety.{run_map_lem, Mapped}

abbrev get_request : FetchWith
get_request = record {
  url = bytes "u";
  method = none;
  headers = none;
  query = none;
  body = none;
  body_type = none;
  timeout = none;
  follow_redirects = none;
  retries = none;
}

abbrev numbers : Numbers ℕ
numbers = record {
  from_str = λ t. some t;
  as_f64 = λ t. some (length t);
  as_u64 = λ t. none;
  of_u64 = λ i. [];
  f64_eq = λ x y. x == y;
  is_zero = λ x. x == 0;
  is_nan = λ x. false;
}

abbrev rendering : Rendering
rendering = record { trim = λ t. t; to_string = λ v. [] }

abbrev scope : Scope
scope = record {
  inputs = null;
  env = null;
  secrets = null;
  tasks = null;
  item = none;
  item_alias = none;
  item_index = none;
  case_value = none;
  output = none;
  matrix = null;
}

abbrev two : MapWith
two = record {
  items = array (item (string (bytes "a")) (item (string (bytes "b")) no_items));
  as_binding = none;
  concurrency = some 3;
  continue_on_error = some true;
}

abbrev task : InnerTask
task =
    inner
      (record {
        name = none;
        if_condition = none;
        secrets = none;
        context = none;
        context_strategy = none;
        context_precedence = none;
        output = none;
        produces = none;
        continue_on_error = none;
      })
      (TaskWith.fetch get_request)

abbrev run_item : ℕ → Value → ℕ → Run ℕ Value
run_item i element depth =
    if i == 0 then pure element else lift (err (run_failure_error "no" (plain [])))

abbrev Always : Session ℕ → Type 0
Always s = Unit

item-Keeps :
    (i : ℕ) (b : Bool) (v : Value)
    → Keeps Always
        (λ _. Unit)
        (if b then pure v else lift (err (run_failure_error "no" (plain []))))
unfolding Holds
item-Keeps i true v = pure-Keeps Always _ v tt
item-Keeps i false v = lift-Keeps Always _ _ tt

abbrev session : Session ℕ
session = record {
  world = 0;
  masker = record { substring = []; exact = []; id = 1 };
  resolved_secrets = [];
  emitted = [];
}

run_map_lem_example :
    Unit {0}
    × Holds
        (Mapped numbers rendering two scope)
        (run_map numbers
          (λ e. null)
          rendering
          run_indexed
          run_item
          two
          task
          (bytes "fan")
          scope
          4
          0
          session).0
run_map_lem_example =
    run_map_lem numbers (λ e. null) rendering run_indexed run_item Always
      (λ n budget make narrow low high jobs. run_indexed-Keeps Always n budget make low high jobs)
      (λ i element d shallow. item-Keeps i (i == 0) element) two task (bytes "fan") scope 4 0
      session (omega arith) tt
