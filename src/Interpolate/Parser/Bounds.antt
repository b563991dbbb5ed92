-- ===== src/Interpolate/Parser/Bounds.antt =====
-- The parser ends on every input, and the tree that it gives is within the depth bound.
use tmx.Base.{
  ℕ, zero, suc, ◌+◌, ◌*◌, ◌≤◌, ◌<◌, max, ◌≡◌, refl, ap, Option, none, some, [], ◌∷◌, arith, Text,
  length, tail, ltb, Option-cases, inl, inr,
}
use tmx.Limits.{expr_depth_max}
use tmx.Json.{Value}
use tmx.Error.{Result, ok, ◌>>=◌}
use tmx.Interpolate.{
  BinOp, Expr, literal, path, negation, binary, Steps, no_steps, field, index, Tokens, lparen,
  rparen, lbracket, rbracket, dot, bang, eq_eq_eq, bang_eq_eq, amp_amp, pipe_pipe, ident, number,
  str,
}
use tmx.Interpolate.Outcome.{
  Yields, ok-Yields, err-Yields, bind-Yields, weaken-Yields, reject_if-Yields,
}
use tmx.Interpolate.Parser.{
  check_depth, expect_rparen, expect_rbracket, expect_field, loop_op, right_bp, keyword, parse_bp,
  parse_primary, infix_loop, parse_steps, finish, parse_tokens,
}

-- How deep the parser has to nest its calls for a tree: an operand on the left costs nothing, since
-- the infix loop collects it.
unfoldable mutual
  pub nesting : Expr → ℕ
  nesting (literal v) = 1
  nesting (path root steps) = max 1 (nesting_steps steps)
  nesting (negation e) = 1 + nesting e
  nesting (binary op l r) = max (nesting l) (1 + nesting r)

  pub nesting_steps : Steps → ℕ
  nesting_steps no_steps = 0
  nesting_steps (field name steps) = nesting_steps steps
  nesting_steps (index e steps) = max (1 + nesting e) (nesting_steps steps)

check_depth-Yields : (depth : ℕ) → Yields (λ _. depth ≤ expr_depth_max) (check_depth depth)
unfolding check_depth
check_depth-Yields depth =
    weaken-Yields _ _ _ (λ _ h. ground (arith, h)) (reject_if-Yields (ltb expr_depth_max depth) _ _)

abbrev Shorter : {A : Type 0} → ℕ → A × Tokens → Type 0
Shorter n r = length r.1 < n

expect_rparen-Yields : (ts : Tokens) → Yields (Shorter (length ts)) (expect_rparen ts)
unfolding expect_rparen Yields
expect_rparen-Yields (rparen ∷ ts) = omega arith
expect_rparen-Yields _ = refl

expect_rbracket-Yields : (ts : Tokens) → Yields (Shorter (length ts)) (expect_rbracket ts)
unfolding expect_rbracket Yields
expect_rbracket-Yields (rbracket ∷ ts) = omega arith
expect_rbracket-Yields _ = refl

expect_field-Yields : (ts : Tokens) → Yields (Shorter (length ts)) (expect_field ts)
unfolding expect_field Yields
expect_field-Yields (ident name ∷ ts) = omega arith
expect_field-Yields _ = refl

-- What is left is no longer than the limit, and the tree fits below the depth.
abbrev Fits : ℕ → ℕ → Expr × Tokens → Type 0
Fits n depth (e, rest) = (length rest ≤ n) × (depth + nesting e ≤ suc expr_depth_max)

abbrev FitSteps : ℕ → ℕ → Steps × Tokens → Type 0
FitSteps n depth (steps, rest) =
    (length rest ≤ n) × (depth + nesting_steps steps ≤ suc expr_depth_max)

loop_op-some :
    (bp : ℕ) (ts : Tokens) (op : BinOp)
    → loop_op bp ts ≡ some op
    → suc (length (tail ts)) ≡ length ts
unfolding loop_op
loop_op-some bp [] op h = absurd cc
loop_op-some bp (t ∷ ts) op h = refl

name-Yields :
    (depth : ℕ) (name : Text) (ts : Tokens) (k : Option Value) (steps : Result (Steps × Tokens))
    → depth ≤ expr_depth_max
    → Yields (FitSteps (length ts) depth) steps
    → Yields (Fits (suc (length ts)) depth) (elim k as (λ _. Result (Expr × Tokens)) [
      | some v ↦ ok (literal v, ts)
      | none ↦ steps >>= λ r. ok (path name r.0, r.1)
    ])
unfolding nesting
name-Yields depth name ts (some v) steps d fits = unfold Yields in (omega arith, omega arith)
name-Yields depth name ts none steps d fits =
    bind-Yields (FitSteps (length ts) depth) _ _ _ fits
      (λ r fit. unfold Yields in (omega (arith, fit.0), omega (arith, fit.1)))

mutual
  unfolding parse_bp nesting

  parse_bp-Yields :
      (f bp depth : ℕ) (ts : Tokens)
      → 2 * length ts + 1 < f
      → Yields (Fits (length ts) depth) (parse_bp f bp depth ts)
  parse_bp-Yields zero bp depth ts h = absurd (omega arith)
  parse_bp-Yields (suc f) bp depth ts h =
      bind-Yields (λ _. depth ≤ expr_depth_max) _ _ _ (check_depth-Yields depth)
        (λ _ shallow.
          bind-Yields (Fits (length ts) depth) _ _ _
            (parse_primary-Yields f depth ts (omega arith) shallow)
            (λ r lhs.
              weaken-Yields (Fits (length r.1) depth) _ _
                (λ out fits. (omega (arith, fits.0, lhs.0), fits.1))
                (infix_loop-Yields f bp depth r.0 r.1 (omega (arith, lhs.0)) shallow lhs.1)))

  parse_primary-Yields :
      (f depth : ℕ) (ts : Tokens)
      → 2 * length ts < f
      → depth ≤ expr_depth_max
      → Yields (Fits (length ts) depth) (parse_primary f depth ts)
  parse_primary-Yields zero depth ts h d = absurd (omega arith)
  parse_primary-Yields (suc f) depth (bang ∷ ts) h d =
      bind-Yields (Fits (length ts) (depth + 1)) _ _ _
        (parse_bp-Yields f 7 (depth + 1) ts (omega arith))
        (λ r fits. ok-Yields _ _ (omega (arith, fits.0), omega (arith, fits.1)))
  parse_primary-Yields (suc f) depth (lparen ∷ ts) h d =
      bind-Yields (Fits (length ts) (depth + 1)) _ _ _
        (parse_bp-Yields f 0 (depth + 1) ts (omega arith))
        (λ r fits.
          bind-Yields (Shorter (length r.1)) _ _ _ (expect_rparen-Yields r.1)
            (λ u shorter. ok-Yields _ _ (omega (arith, fits.0, shorter), omega (arith, fits.1))))
  parse_primary-Yields (suc f) depth (number n ∷ ts) h d = ok-Yields _ _ (omega arith, omega arith)
  parse_primary-Yields (suc f) depth (str s ∷ ts) h d = ok-Yields _ _ (omega arith, omega arith)
  parse_primary-Yields (suc f) depth (ident name ∷ ts) h d =
      name-Yields depth name ts (keyword name) (parse_steps f depth ts) d
        (parse_steps-Yields f depth ts (omega arith) d)
  parse_primary-Yields (suc f) depth (rparen ∷ ts) h d = err-Yields _ _ refl
  parse_primary-Yields (suc f) depth (lbracket ∷ ts) h d = err-Yields _ _ refl
  parse_primary-Yields (suc f) depth (rbracket ∷ ts) h d = err-Yields _ _ refl
  parse_primary-Yields (suc f) depth (dot ∷ ts) h d = err-Yields _ _ refl
  parse_primary-Yields (suc f) depth (eq_eq_eq ∷ ts) h d = err-Yields _ _ refl
  parse_primary-Yields (suc f) depth (bang_eq_eq ∷ ts) h d = err-Yields _ _ refl
  parse_primary-Yields (suc f) depth (amp_amp ∷ ts) h d = err-Yields _ _ refl
  parse_primary-Yields (suc f) depth (pipe_pipe ∷ ts) h d = err-Yields _ _ refl
  parse_primary-Yields (suc f) depth [] h d = err-Yields _ _ refl

  infix_loop-Yields :
      (f bp depth : ℕ) (lhs : Expr) (ts : Tokens)
      → 2 * length ts < f
      → depth ≤ expr_depth_max
      → depth + nesting lhs ≤ suc expr_depth_max
      → Yields (Fits (length ts) depth) (infix_loop f bp depth lhs ts)
  infix_loop-Yields zero bp depth lhs ts h d n = absurd (omega arith)
  infix_loop-Yields (suc f) bp depth lhs ts h d n = elim (Option-cases (loop_op bp ts)) [
    | inl e ↦ rw (e, infix_loop) (ok-Yields _ _ (omega arith, n))
    | inr (op, e) ↦
        let len = loop_op-some bp ts op e in
        rw (e, infix_loop)
          (bind-Yields (Fits (length (tail ts)) (depth + 1)) _ _ _
            (parse_bp-Yields f (right_bp op) (depth + 1) (tail ts) (omega (arith, len)))
            (λ r rhs.
              weaken-Yields (Fits (length r.1) depth) _ _
                (λ out fits. (omega (arith, fits.0, rhs.0, len), fits.1))
                (infix_loop-Yields f bp depth (binary op lhs r.0) r.1 (omega (arith, rhs.0, len)) d
                  (omega (arith, rhs.1, n)))))
  ]

  parse_steps-Yields :
      (f depth : ℕ) (ts : Tokens)
      → 2 * length ts < f
      → depth ≤ expr_depth_max
      → Yields (FitSteps (length ts) depth) (parse_steps f depth ts)
  parse_steps-Yields zero depth ts h d = absurd (omega arith)
  parse_steps-Yields (suc f) depth (dot ∷ ts) h d =
      bind-Yields (Shorter (length ts)) _ _ _ (expect_field-Yields ts) (λ r shorter.
        bind-Yields (FitSteps (length r.1) depth) _ _ _
          (parse_steps-Yields f depth r.1 (omega (arith, shorter)) d)
          (λ out fits. ok-Yields _ _ (omega (arith, fits.0, shorter), fits.1)))
  parse_steps-Yields (suc f) depth (lbracket ∷ ts) h d =
      bind-Yields (Fits (length ts) (depth + 1)) _ _ _
        (parse_bp-Yields f 0 (depth + 1) ts (omega arith))
        (λ r fits.
          bind-Yields (Shorter (length r.1)) _ _ _ (expect_rbracket-Yields r.1) (λ u shorter.
            bind-Yields (FitSteps (length u.1) depth) _ _ _
              (parse_steps-Yields f depth u.1 (omega (arith, fits.0, shorter)) d)
              (λ out rest.
                ok-Yields _ _
                  (omega (arith, fits.0, shorter, rest.0), omega (arith, fits.1, rest.1)))))
  parse_steps-Yields (suc f) depth ts h d = ok-Yields _ _ (omega arith, omega arith)

finish-Yields : (r : Expr × Tokens) → Yields (λ e. e ≡ r.0) (finish r)
finish-Yields (e, []) = ok-Yields _ e refl
finish-Yields (e, t ∷ ts) = err-Yields _ _ refl

-- On any tokens, the parser ends: with a tree for which its calls nest no deeper than the bound of 32
-- levels, or with an error of the resolution category.
pub parse_tokens-Yields : (ts : Tokens) → Yields (λ e. nesting e ≤ expr_depth_max) (parse_tokens ts)
unfolding parse_tokens
parse_tokens-Yields ts =
    bind-Yields (Fits (length ts) 1) _ _ _
      (parse_bp-Yields (2 * length ts + 2) 0 1 ts (omega arith))
      (λ r fits.
        weaken-Yields _ _ _ (λ e is. omega (arith, fits.1, ap nesting is)) (finish-Yields r))
