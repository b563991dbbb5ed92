-- ===== src/Interpolate.antt =====
-- The expression language of `${{ … }}` (crates/tmx-core/src/interpolate.rs): its tree, tokenizer,
-- parser and evaluator.
--
-- What serde_json makes of a number is the parameter `Numbers`: a number is the text that it is
-- written as.
pub mod Lexer
pub mod Parser
pub mod Eval
pub mod Outcome
pub mod Printer
pub mod RoundTrip
pub mod Chain
mod Examples
use tmx.Base.{ℕ, Bool, Option, List, Text}
use tmx.Json.{Value}
use tmx.Error.{RunError, Message, resolution_error}

pub data BinOp : Type 0 where
  strict_eq strict_ne and or : BinOp

-- `Vec<Step>` is `Steps`.
mutual
  pub data Expr : Type 0 where
    literal : Value → Expr
    path : Text → Steps → Expr
    negation : Expr → Expr
    binary : BinOp → Expr → Expr → Expr

  pub data Steps : Type 0 where
    no_steps : Steps
    field : Text → Steps → Steps
    index : Expr → Steps → Steps

pub data Token : Type 0 where
  lparen rparen lbracket rbracket dot bang eq_eq_eq bang_eq_eq amp_amp pipe_pipe : Token
  ident : Text → Token
  number : Text → Token
  str : Text → Token

abbrev pub Tokens : Type 0
Tokens = List Token

-- `serde_json::from_str` on a number, `Number::as_f64`, `Number::as_u64` and the number of a `u64`, with
-- the tests on what `as_f64` gives.
pub record Numbers (F : Type 0) : Type 0 where
  pub from_str : Text → Option Text
  pub as_f64 : Text → Option F
  pub as_u64 : Text → Option ℕ
  pub of_u64 : ℕ → Text
  pub f64_eq : F → F → Bool
  pub is_zero : F → Bool
  pub is_nan : F → Bool

-- `Scope` of crates/tmx-core/src/model.rs: what an expression can read.
pub record Scope : Type 0 where
  pub inputs : Value
  pub env : Value
  pub secrets : Value
  pub tasks : Value
  pub item : Option Value
  pub item_alias : Option Text
  pub item_index : Option ℕ
  pub case_value : Option Value
  pub output : Option Value
  pub matrix : Value

abbrev pub parse_err : Message → RunError
parse_err message = resolution_error "expr_parse_error" message
