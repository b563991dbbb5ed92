-- ===== src/Interpolate/Parser.antt =====
-- The parser: `parse_bp`, `parse_steps` and `parse`. The tokens that are left stand for the position.
-- A call costs a unit of fuel, and without fuel it panics.
pub mod Bounds
pub mod Brackets
use tmx.Base.{
  ℕ, zero, suc, ◌+◌, ◌*◌, Bool, true, false, Option, none, some, List, [], ◌∷◌, String, Text, bytes,
  text_eq, length, tail, ltb, leb, if◌then◌else◌,
}
use tmx.Limits.{expr_len_max_bytes, expr_depth_max}
use tmx.Json.{Value, null, boolean, string}
use tmx.Error.{
  Result, ok, err, panic, RunError, Message, plain, format, num, text, resolution_error, reject_if,
  ◌>>=◌, ◌>>◌,
}
use tmx.Interpolate.{
  BinOp, strict_eq, strict_ne, and, or, Expr, literal, path, negation, binary, Steps, no_steps,
  field, index, Token, Tokens, lparen, rparen, lbracket, rbracket, dot, bang, eq_eq_eq, bang_eq_eq,
  amp_amp, pipe_pipe, ident, number, str, Numbers, parse_err,
}
use tmx.Interpolate.Lexer.{tokenize}

abbrev pub Parser : Type 0 → Type 0
Parser A = Tokens → Result (A × Tokens)

abbrev pub expr_too_deep : RunError
expr_too_deep = resolution_error "expr_too_deep" (
    format "expression AST is deeper than the {EXPR_DEPTH_MAX}-level limit"
      (num expr_depth_max ∷ []))

unfoldable pub check_depth : ℕ → Result (Unit {0})
check_depth depth = reject_if (ltb expr_depth_max depth) expr_too_deep

-- `expect`, for the two tokens that it is called with.
unfoldable pub expect_rparen : Parser (Unit {0})
expect_rparen (rparen ∷ ts) = ok (tt, ts)
expect_rparen _ = err (parse_err (plain (bytes "expected a closing `)`")))

unfoldable pub expect_rbracket : Parser (Unit {0})
expect_rbracket (rbracket ∷ ts) = ok (tt, ts)
expect_rbracket _ = err (parse_err (plain (bytes "expected a closing `]`")))

unfoldable pub expect_field : Parser Text
expect_field (ident name ∷ ts) = ok (name, ts)
expect_field _ = err (parse_err (plain (bytes "expected a field name after `.`")))

abbrev pub bang_bp : ℕ
bang_bp = 7

abbrev pub left_bp : BinOp → ℕ
left_bp or = 1
left_bp and = 3
left_bp strict_eq = 5
left_bp strict_ne = 5

abbrev pub right_bp : BinOp → ℕ
right_bp or = 2
right_bp and = 4
right_bp strict_eq = 6
right_bp strict_ne = 6

-- The infix operator that comes next.
abbrev pub next_op : Tokens → Option BinOp
next_op (pipe_pipe ∷ ts) = some or
next_op (amp_amp ∷ ts) = some and
next_op (eq_eq_eq ∷ ts) = some strict_eq
next_op (bang_eq_eq ∷ ts) = some strict_ne
next_op _ = none

abbrev bound_by : ℕ → Option BinOp → Option BinOp
bound_by min_bp none = none
bound_by min_bp (some op) = if ltb (left_bp op) min_bp then none else some op

-- The operator with which the infix loop goes on.
unfoldable pub loop_op : ℕ → Tokens → Option BinOp
loop_op min_bp ts = bound_by min_bp (next_op ts)

abbrev pub keyword : Text → Option Value
keyword name =
    if text_eq name (bytes "true")
    then some (boolean true)
    else if text_eq name (bytes "false")
    then some (boolean false)
    else if text_eq name (bytes "null")
    then some null
    else none

abbrev unexpected : String → Message
unexpected token = format "unexpected token {other:?}" (text (bytes token) ∷ [])

unfoldable mutual
  pub parse_bp : ℕ → ℕ → ℕ → Parser Expr
  parse_bp zero min_bp depth ts = panic
  parse_bp (suc f) min_bp depth ts = do
    check_depth depth
    (lhs, rest) ← parse_primary f depth ts
    infix_loop f min_bp depth lhs rest

  -- The prefix operators and the primary expressions.
  pub parse_primary : ℕ → ℕ → Parser Expr
  parse_primary zero depth ts = panic
  parse_primary (suc f) depth (bang ∷ ts) = do
    (operand, rest) ← parse_bp f bang_bp (depth + 1) ts
    ok (negation operand, rest)
  parse_primary (suc f) depth (lparen ∷ ts) = do
    (inner, rest) ← parse_bp f 0 (depth + 1) ts
    (_, rest') ← expect_rparen rest
    ok (inner, rest')
  parse_primary (suc f) depth (number n ∷ ts) = ok (literal (Value.number n), ts)
  parse_primary (suc f) depth (str s ∷ ts) = ok (literal (string s), ts)
  parse_primary (suc f) depth (ident name ∷ ts) = elim (keyword name) [
    | some v ↦ ok (literal v, ts)
    | none ↦ do (steps, rest) ← parse_steps f depth ts; ok (path name steps, rest)
  ]
  parse_primary (suc f) depth (rparen ∷ ts) = err (parse_err (unexpected "RParen"))
  parse_primary (suc f) depth (lbracket ∷ ts) = err (parse_err (unexpected "LBracket"))
  parse_primary (suc f) depth (rbracket ∷ ts) = err (parse_err (unexpected "RBracket"))
  parse_primary (suc f) depth (dot ∷ ts) = err (parse_err (unexpected "Dot"))
  parse_primary (suc f) depth (eq_eq_eq ∷ ts) = err (parse_err (unexpected "EqEqEq"))
  parse_primary (suc f) depth (bang_eq_eq ∷ ts) = err (parse_err (unexpected "BangEqEq"))
  parse_primary (suc f) depth (amp_amp ∷ ts) = err (parse_err (unexpected "AmpAmp"))
  parse_primary (suc f) depth (pipe_pipe ∷ ts) = err (parse_err (unexpected "PipePipe"))
  parse_primary (suc f) depth [] = err (parse_err (plain (bytes "unexpected end of expression")))

  pub infix_loop : ℕ → ℕ → ℕ → Expr → Parser Expr
  infix_loop zero min_bp depth lhs ts = panic
  infix_loop (suc f) min_bp depth lhs ts = elim (loop_op min_bp ts) [
    | none ↦ ok (lhs, ts)
    | some op ↦ do
      (rhs, rest) ← parse_bp f (right_bp op) (depth + 1) (tail ts)
      infix_loop f min_bp depth (binary op lhs rhs) rest
  ]

  pub parse_steps : ℕ → ℕ → Parser Steps
  parse_steps zero depth ts = panic
  parse_steps (suc f) depth (dot ∷ ts) = do
    (name, rest) ← expect_field ts
    (steps, rest') ← parse_steps f depth rest
    ok (field name steps, rest')
  parse_steps (suc f) depth (lbracket ∷ ts) = do
    (e, rest) ← parse_bp f 0 (depth + 1) ts
    (_, rest') ← expect_rbracket rest
    (steps, rest'') ← parse_steps f depth rest'
    ok (index e steps, rest'')
  parse_steps (suc f) depth ts = ok (no_steps, ts)

abbrev pub finish : Expr × Tokens → Result Expr
finish (e, []) = ok e
finish (e, t ∷ ts) =
    err (parse_err (plain (bytes "unexpected trailing tokens after the expression")))

abbrev pub expr_too_long : ℕ → RunError
expr_too_long len = resolution_error "expr_too_long" (
    format "expression is {} bytes, over the {EXPR_LEN_MAX_BYTES}-byte limit"
      (num len ∷ num expr_len_max_bytes ∷ []))

unfoldable pub parse_tokens : Tokens → Result Expr
parse_tokens ts = parse_bp (2 * length ts + 2) 0 1 ts >>= finish

unfoldable pub parse : {F : Type 0} → Numbers F → Text → Result Expr
parse numbers src = do
  reject_if (ltb expr_len_max_bytes (length src)) (expr_too_long (length src))
  tokens ← tokenize numbers src
  parse_tokens tokens
