-- ===== src/Error.antt =====
-- The typed error model (crates/tmx-core/src/error.rs), and the result of code that may fail.
use tmx.Base.{ℕ, Bool, true, false, Option, none, some, List, Text, String}

pub data ErrorCategory : Type 0 where
  run_failure validation resolution environment timeout interrupt : ErrorCategory

-- `ErrorCategory::as_str`
unfoldable pub as_str : ErrorCategory → String
as_str run_failure = "run_failure"
as_str validation = "validation"
as_str resolution = "resolution"
as_str environment = "environment"
as_str timeout = "timeout"
as_str interrupt = "interrupt"

-- An argument of a `format!` call.
pub data Argument : Type 0 where
  text : Text → Argument
  num : ℕ → Argument

-- A human message: text that was handed over, or the template of a `format!` call with its
-- arguments, not yet rendered.
pub data Message : Type 0 where
  plain : Text → Message
  format : String → List Argument → Message

pub record RunError : Type 0 where
  pub category : ErrorCategory
  pub code : String
  pub message : Message
  pub task : Option Text
  pub path : Option Text

-- `RunError::new`, and a constructor for each of the categories that the engine raises itself.
abbrev pub new_error : ErrorCategory → String → Message → RunError
new_error c code m = record { category = c; code = code; message = m; task = none; path = none }

abbrev pub validation_error : String → Message → RunError
validation_error = new_error validation

abbrev pub resolution_error : String → Message → RunError
resolution_error = new_error resolution

abbrev pub run_failure_error : String → Message → RunError
run_failure_error = new_error run_failure

abbrev pub with_task : RunError → Text → RunError
with_task e t = record e { task = some t }

abbrev pub with_path : RunError → Text → RunError
with_path e p = record e { path = some p }

-- `Result<A, RunError>`, and the abort of a failed `assert!`.
pub data Result {ℓ} (A : Type ℓ) : Type ℓ where
  ok : A → Result A
  err : RunError → Result A
  panic : Result A

infixl 5 ◌>>=◌ ◌>>◌
abbrev pub ◌>>=◌ {ℓ κ} : {A : Type ℓ} {B : Type κ} → Result A → (A → Result B) → Result B
ok a >>= f = f a
err e >>= f = err e
panic >>= f = panic

abbrev pub ◌>>◌ {ℓ} : {B : Type ℓ} → Result (Unit {0}) → Result B → Result B
m >> k = m >>= λ _. k

-- `assert!`
abbrev pub assert : Bool → Result (Unit {0})
assert true = ok tt
assert false = panic

-- An early `return Err(e)` where the test holds.
abbrev pub reject_if : Bool → RunError → Result (Unit {0})
reject_if true e = err e
reject_if false e = ok tt

-- `ok_or_else`
abbrev pub ok_or {ℓ} : {A : Type ℓ} → Option A → RunError → Result A
ok_or none e = err e
ok_or (some a) e = ok a
