-- ===== src/Interpolate/Printer.antt =====
-- A printer for the trees of the expression language, as tokens: every operand stands in parentheses.
-- It puts the tokens of a tree before those that follow.
use tmx.Base.{
  ℕ, ◌+◌, ◌*◌, ◌≤◌, max, Bool, true, false, ◌&&◌, Option, none, some, ◌∷◌, arith, bytes, length,
}
use tmx.Json.{Value, null, boolean, string, array, object}
use tmx.Interpolate.{
  BinOp, strict_eq, strict_ne, and, or, Expr, literal, path, negation, binary, Steps, no_steps,
  field, index, Token, Tokens, lparen, rparen, lbracket, rbracket, dot, bang, eq_eq_eq, bang_eq_eq,
  amp_amp, pipe_pipe, ident, number, str,
}
use tmx.Interpolate.Parser.{keyword}

abbrev pub op_token : BinOp → Token
op_token strict_eq = eq_eq_eq
op_token strict_ne = bang_eq_eq
op_token and = amp_amp
op_token or = pipe_pipe

abbrev pub scalar_token : Value → Token
scalar_token null = ident (bytes "null")
scalar_token (boolean true) = ident (bytes "true")
scalar_token (boolean false) = ident (bytes "false")
scalar_token (Value.number n) = number n
scalar_token (string s) = str s
scalar_token _ = dot

unfoldable mutual
  pub emit : Expr → Tokens → Tokens
  emit (literal v) rest = scalar_token v ∷ rest
  emit (path root steps) rest = ident root ∷ emit_steps steps rest
  emit (negation e) rest = bang ∷ lparen ∷ emit e (rparen ∷ rest)
  emit (binary op l r) rest =
      lparen ∷ emit l (rparen ∷ op_token op ∷ lparen ∷ emit r (rparen ∷ rest))

  pub emit_steps : Steps → Tokens → Tokens
  emit_steps no_steps rest = rest
  emit_steps (field name steps) rest = dot ∷ ident name ∷ emit_steps steps rest
  emit_steps (index e steps) rest = lbracket ∷ emit e (rbracket ∷ emit_steps steps rest)

abbrev pub is_scalar : Value → Bool
is_scalar (array vs) = false
is_scalar (object fs) = false
is_scalar _ = true

abbrev pub is_none : {A : Type 0} → Option A → Bool
is_none none = true
is_none (some a) = false

-- The trees that a text can stand for: literals are scalars, and no namespace is spelled like one.
unfoldable mutual
  pub printable : Expr → Bool
  printable (literal v) = is_scalar v
  printable (path root steps) = is_none (keyword root) && printable_steps steps
  printable (negation e) = printable e
  printable (binary op l r) = printable l && printable r

  pub printable_steps : Steps → Bool
  printable_steps no_steps = true
  printable_steps (field name steps) = printable_steps steps
  printable_steps (index e steps) = printable e && printable_steps steps

-- How deep the parser's calls nest on the printed tree.
unfoldable mutual
  pub room : Expr → ℕ
  room (literal v) = 1
  room (path root steps) = max 1 (room_steps steps)
  room (negation e) = 2 + room e
  room (binary op l r) = max (1 + room l) (2 + room r)

  pub room_steps : Steps → ℕ
  room_steps no_steps = 0
  room_steps (field name steps) = room_steps steps
  room_steps (index e steps) = max (1 + room e) (room_steps steps)

-- The fuel that the parser takes on it.
unfoldable mutual
  pub cost : Expr → ℕ
  cost (literal v) = 2
  cost (path root steps) = 2 + cost_steps steps
  cost (negation e) = 4 + cost e
  cost (binary op l r) = 4 + (cost l + cost r)

  pub cost_steps : Steps → ℕ
  cost_steps no_steps = 1
  cost_steps (field name steps) = 1 + cost_steps steps
  cost_steps (index e steps) = 1 + (cost e + cost_steps steps)

mutual
  unfolding emit cost

  pub cost-le : (e : Expr) (rest : Tokens) → cost e + 2 * length rest ≤ 2 * length (emit e rest) + 1
  cost-le (literal v) rest = omega arith
  cost-le (path root steps) rest = omega (arith, cost_steps-le steps rest)
  cost-le (negation e) rest = omega (arith, cost-le e (rparen ∷ rest))
  cost-le (binary op l r) rest = omega (
    arith,
    cost-le l (rparen ∷ op_token op ∷ lparen ∷ emit r (rparen ∷ rest)),
    cost-le r (rparen ∷ rest),
  )

  pub cost_steps-le :
      (steps : Steps) (rest : Tokens)
      → cost_steps steps + 2 * length rest ≤ 2 * length (emit_steps steps rest) + 1
  cost_steps-le no_steps rest = omega arith
  cost_steps-le (field name steps) rest = omega (arith, cost_steps-le steps rest)
  cost_steps-le (index e steps) rest =
      omega (arith, cost-le e (rbracket ∷ emit_steps steps rest), cost_steps-le steps rest)
