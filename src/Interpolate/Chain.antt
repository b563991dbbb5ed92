-- ===== src/Interpolate/Chain.antt =====
-- Operators in a row: the infix loop collects them into a tree whose height is their number.
use tmx.Base.{ℕ, zero, suc, ◌+◌, ◌*◌, ◌≤◌, max, ◌≡◌, refl, [], ◌∷◌, arith, length}
use tmx.Json.{string}
use tmx.Error.{ok}
use tmx.Interpolate.{
  or, Expr, literal, path, negation, binary, Steps, no_steps, field, index, Tokens, pipe_pipe, str,
}
use tmx.Interpolate.Parser.{check_depth, parse_bp, parse_primary, infix_loop, loop_op, parse_tokens}

-- How deep `eval` recurses on a tree.
unfoldable mutual
  pub height : Expr → ℕ
  height (literal v) = 1
  height (path root steps) = 1 + height_steps steps
  height (negation e) = 1 + height e
  height (binary op l r) = 1 + max (height l) (height r)

  pub height_steps : Steps → ℕ
  height_steps no_steps = 0
  height_steps (field name steps) = height_steps steps
  height_steps (index e steps) = max (height e) (height_steps steps)

abbrev empty_string : Expr
empty_string = literal (string [])

-- `|| ""`, n times
abbrev pub or_tail : ℕ → Tokens
or_tail zero = []
or_tail (suc n) = pipe_pipe ∷ str [] ∷ or_tail n

-- `"" || "" || … || ""`, with n operators
abbrev pub chain : ℕ → Tokens
chain n = str [] ∷ or_tail n

abbrev pub left_deep : ℕ → Expr → Expr
left_deep zero e = e
left_deep (suc n) e = left_deep n (binary or e empty_string)

operand : (f n : ℕ) → parse_bp (suc (suc f)) 2 2 (chain n) ≡ ok (empty_string, or_tail n)
unfolding parse_bp parse_primary infix_loop check_depth loop_op
operand f zero = refl
operand f (suc n) = refl

infix_loop-or_tail :
    (n f : ℕ) (e : Expr) → n + 2 ≤ f → infix_loop f 0 1 e (or_tail n) ≡ ok (left_deep n e, [])
unfolding infix_loop loop_op
infix_loop-or_tail n zero e h = absurd (omega arith)
infix_loop-or_tail zero (suc f) e h = refl
infix_loop-or_tail (suc n) (suc zero) e h = absurd (omega arith)
infix_loop-or_tail (suc n) (suc (suc zero)) e h = absurd (omega arith)
infix_loop-or_tail (suc n) (suc (suc (suc f))) e h =
    rw (operand f n)
      (infix_loop-or_tail n (suc (suc f)) (binary or e empty_string) (omega (arith, h)))

height-left_deep : (n : ℕ) (e : Expr) → 1 ≤ height e → height (left_deep n e) ≡ n + height e
unfolding height
height-left_deep zero e h = omega arith
height-left_deep (suc n) e h =
    omega (arith, height-left_deep n (binary or e empty_string) (omega arith))

length-or_tail : (n : ℕ) → length (or_tail n) ≡ 2 * n
length-or_tail zero = refl
length-or_tail (suc n) = omega (arith, length-or_tail n)

parse_bp-chain :
    (f n : ℕ) → n + 3 ≤ f → parse_bp f 0 1 (chain n) ≡ ok (left_deep n empty_string, [])
unfolding parse_bp parse_primary check_depth
parse_bp-chain zero n h = absurd (omega arith)
parse_bp-chain (suc zero) n h = absurd (omega arith)
parse_bp-chain (suc (suc f)) n h = infix_loop-or_tail n (suc f) empty_string (omega arith)

-- A row of n operators is accepted for every n, and the tree that the parser gives for it has the
-- height n + 1: no bound on depth limits the height of a tree.
pub parse_tokens-chain : (n : ℕ) → (e : Expr) × (parse_tokens (chain n) ≡ ok e) × (height e ≡ suc n)
unfolding parse_tokens height
parse_tokens-chain n = (
  left_deep n empty_string,
  rw (parse_bp-chain (2 * length (chain n) + 2) n (omega (arith, length-or_tail n))) refl,
  omega (arith, height-left_deep n empty_string (omega arith)),
)
