-- ===== src/Interpolate/Parser/Brackets.antt =====
-- The depth guard also bounds what no tree shows: how deep the brackets of an expression nest.
use tmx.Base.{
  ℕ, zero, suc, ◌+◌, ◌≤◌, max, ◌≡◌, refl, ap, Option, none, some, [], ◌∷◌, arith, tail, Text,
  Option-cases, inl, inr,
}
use tmx.Limits.{expr_depth_max}
use tmx.Json.{Value}
use tmx.Error.{Result, ok, err, panic, RunError, ◌>>=◌}
use tmx.Interpolate.{
  BinOp, Expr, literal, path, binary, Steps, Tokens, lparen, rparen, lbracket, rbracket, dot, bang,
  eq_eq_eq, bang_eq_eq, amp_amp, pipe_pipe, ident, number, str,
}
use tmx.Interpolate.Outcome.{Yields}
use tmx.Interpolate.Parser.{
  check_depth, expect_rparen, expect_rbracket, expect_field, loop_op, right_bp, keyword, parse_bp,
  parse_primary, infix_loop, parse_steps, finish, parse_tokens,
}
use tmx.Interpolate.Parser.Bounds.{nesting, parse_tokens-Yields}

abbrev pub outer : ℕ → ℕ
outer zero = zero
outer (suc l) = l

-- The deepest level of brackets in the tokens, from a level on.
unfoldable pub peak : ℕ → Tokens → ℕ
peak l [] = l
peak l (lparen ∷ ts) = max l (peak (suc l) ts)
peak l (lbracket ∷ ts) = max l (peak (suc l) ts)
peak l (rparen ∷ ts) = max l (peak (outer l) ts)
peak l (rbracket ∷ ts) = max l (peak (outer l) ts)
peak l (t ∷ ts) = max l (peak l ts)

-- A value satisfies the predicate.
unfoldable Gives : {A : Type 0} → (A → Type 0) → Result A → Type 0
Gives P (ok a) = P a
Gives P (err e) = Unit
Gives P panic = Unit

ok-Gives : {A : Type 0} (P : A → Type 0) (a : A) → P a → Gives P (ok a)
unfolding Gives
ok-Gives P a h = h

err-Gives : {A : Type 0} (P : A → Type 0) (e : RunError) → Gives P (err e)
unfolding Gives
err-Gives P e = tt

panic-Gives : {A : Type 0} (P : A → Type 0) → Gives P panic
unfolding Gives
panic-Gives P = tt

bind-Gives :
    {A B : Type 0} (P : A → Type 0) (Q : B → Type 0) (m : Result A) (f : A → Result B)
    → Gives P m
    → ((a : A) → P a → Gives Q (f a))
    → Gives Q (m >>= f)
unfolding Gives
bind-Gives P Q (ok a) f h k = k a h
bind-Gives P Q (err e) f h k = tt
bind-Gives P Q panic f h k = tt

weaken-Gives :
    {A : Type 0} (P Q : A → Type 0) (m : Result A) → ((a : A) → P a → Q a) → Gives P m → Gives Q m
unfolding Gives
weaken-Gives P Q (ok a) k h = k a h
weaken-Gives P Q (err e) k h = tt
weaken-Gives P Q panic k h = tt

check_depth-Gives : (depth : ℕ) → Gives (λ _. depth ≤ expr_depth_max) (check_depth depth)
unfolding check_depth Gives
check_depth-Gives depth = ground arith

-- Between two points of the tokens no bracket is deeper than the bound, from any level up to the depth.
abbrev Within : {A : Type 0} → ℕ → Tokens → A × Tokens → Type 0
Within depth ts r = (l : ℕ) → l ≤ depth → peak l ts ≤ max expr_depth_max (peak l r.1)

abbrev Deep : {A : Type 0} → ℕ → Tokens → A × Tokens → Type 0
Deep depth ts r = (depth ≤ expr_depth_max) × Within depth ts r

expect_rparen-Gives :
    (ts : Tokens)
    → Gives (λ r. (l : ℕ) → peak (suc l) ts ≤ max (suc l) (peak l r.1)) (expect_rparen ts)
unfolding expect_rparen Gives peak
expect_rparen-Gives (rparen ∷ ts) = λ l. omega arith
expect_rparen-Gives _ = tt

expect_rbracket-Gives :
    (ts : Tokens)
    → Gives (λ r. (l : ℕ) → peak (suc l) ts ≤ max (suc l) (peak l r.1)) (expect_rbracket ts)
unfolding expect_rbracket Gives peak
expect_rbracket-Gives (rbracket ∷ ts) = λ l. omega arith
expect_rbracket-Gives _ = tt

-- Tokens that no bracket opens or closes with are passed over.
abbrev Passes : {A : Type 0} → Tokens → A × Tokens → Type 0
Passes ts r = (l : ℕ) → peak l ts ≤ max l (peak l r.1)

peak-low : (l : ℕ) (ts : Tokens) → l ≤ peak l ts
unfolding peak
peak-low l [] = omega arith
peak-low l (lparen ∷ ts) = omega arith
peak-low l (lbracket ∷ ts) = omega arith
peak-low l (rparen ∷ ts) = omega arith
peak-low l (rbracket ∷ ts) = omega arith
peak-low l (_ ∷ ts) = omega arith

expect_field-Gives : (ts : Tokens) → Gives (Passes ts) (expect_field ts)
unfolding expect_field Gives peak
expect_field-Gives (ident name ∷ ts) = λ l. omega arith
expect_field-Gives _ = tt

loop_op-Passes :
    (bp : ℕ) (ts : Tokens) (op : BinOp) (l : ℕ)
    → loop_op bp ts ≡ some op
    → peak l ts ≤ max l (peak l (tail ts))
unfolding loop_op peak
loop_op-Passes bp [] op l h = absurd cc
loop_op-Passes bp (eq_eq_eq ∷ ts) op l h = omega arith
loop_op-Passes bp (bang_eq_eq ∷ ts) op l h = omega arith
loop_op-Passes bp (amp_amp ∷ ts) op l h = omega arith
loop_op-Passes bp (pipe_pipe ∷ ts) op l h = omega arith
loop_op-Passes bp (_ ∷ ts) op l h = absurd cc

name-Gives :
    (depth : ℕ) (name : Text) (ts : Tokens) (k : Option Value) (steps : Result (Steps × Tokens))
    → depth ≤ expr_depth_max
    → Gives (Within depth ts) steps
    → Gives (Within depth (ident name ∷ ts)) (elim k as (λ _. Result (Expr × Tokens)) [
      | some v ↦ ok (literal v, ts)
      | none ↦ steps >>= λ r. ok (path name r.0, r.1)
    ])
unfolding peak
name-Gives depth name ts (some v) steps d fits = unfold Gives in (λ l low. omega arith)
name-Gives depth name ts none steps d fits =
    bind-Gives (Within depth ts) _ _ _ fits
      (λ r fit. unfold Gives in (λ l low. omega (arith, fit l low)))

mutual
  unfolding parse_bp peak

  parse_bp-Gives : (f bp depth : ℕ) (ts : Tokens) → Gives (Deep depth ts) (parse_bp f bp depth ts)
  parse_bp-Gives zero bp depth ts = panic-Gives _
  parse_bp-Gives (suc f) bp depth ts =
      bind-Gives (λ _. depth ≤ expr_depth_max) _ _ _ (check_depth-Gives depth)
        (λ _ shallow.
          bind-Gives (Within depth ts) _ _ _ (parse_primary-Gives f depth ts shallow) (λ r lhs.
            weaken-Gives (Within depth r.1) _ _
              (λ out more. (shallow, λ l low. omega (arith, lhs l low, more l low)))
              (infix_loop-Gives f bp depth r.0 r.1 shallow)))

  parse_primary-Gives :
      (f depth : ℕ) (ts : Tokens)
      → depth ≤ expr_depth_max
      → Gives (Within depth ts) (parse_primary f depth ts)
  parse_primary-Gives zero depth ts d = panic-Gives _
  parse_primary-Gives (suc f) depth (bang ∷ ts) d =
      bind-Gives (Deep (depth + 1) ts) _ _ _ (parse_bp-Gives f 7 (depth + 1) ts)
        (λ r fits. ok-Gives _ _ (λ l low. omega (arith, fits.1 l (omega (arith, low)), low, d)))
  parse_primary-Gives (suc f) depth (lparen ∷ ts) d =
      bind-Gives (Deep (depth + 1) ts) _ _ _ (parse_bp-Gives f 0 (depth + 1) ts) (λ r fits.
        bind-Gives _ _ _ _ (expect_rparen-Gives r.1) (λ u closes.
          ok-Gives _ _ (λ l low.
            omega (arith, fits.0, fits.1 (suc l) (omega (arith, low)), closes l, low, d))))
  parse_primary-Gives (suc f) depth (number n ∷ ts) d = ok-Gives _ _ (λ l low. omega arith)
  parse_primary-Gives (suc f) depth (str s ∷ ts) d = ok-Gives _ _ (λ l low. omega arith)
  parse_primary-Gives (suc f) depth (ident name ∷ ts) d =
      name-Gives depth name ts (keyword name) (parse_steps f depth ts) d
        (parse_steps-Gives f depth ts d)
  parse_primary-Gives (suc f) depth (rparen ∷ ts) d = err-Gives _ _
  parse_primary-Gives (suc f) depth (lbracket ∷ ts) d = err-Gives _ _
  parse_primary-Gives (suc f) depth (rbracket ∷ ts) d = err-Gives _ _
  parse_primary-Gives (suc f) depth (dot ∷ ts) d = err-Gives _ _
  parse_primary-Gives (suc f) depth (eq_eq_eq ∷ ts) d = err-Gives _ _
  parse_primary-Gives (suc f) depth (bang_eq_eq ∷ ts) d = err-Gives _ _
  parse_primary-Gives (suc f) depth (amp_amp ∷ ts) d = err-Gives _ _
  parse_primary-Gives (suc f) depth (pipe_pipe ∷ ts) d = err-Gives _ _
  parse_primary-Gives (suc f) depth [] d = err-Gives _ _

  infix_loop-Gives :
      (f bp depth : ℕ) (lhs : Expr) (ts : Tokens)
      → depth ≤ expr_depth_max
      → Gives (Within depth ts) (infix_loop f bp depth lhs ts)
  infix_loop-Gives zero bp depth lhs ts d = panic-Gives _
  infix_loop-Gives (suc f) bp depth lhs ts d = elim (Option-cases (loop_op bp ts)) [
    | inl e ↦ rw (e, infix_loop) (ok-Gives _ _ (λ l low. omega arith))
    | inr (op, e) ↦
        rw (e, infix_loop)
          (bind-Gives (Deep (depth + 1) (tail ts)) _ _ _
            (parse_bp-Gives f (right_bp op) (depth + 1) (tail ts))
            (λ r rhs.
              weaken-Gives (Within depth r.1) _ _
                (λ out more l low. omega (
                  arith,
                  loop_op-Passes bp ts op l e,
                  rhs.1 l (omega (arith, low)),
                  more l low,
                  low,
                  d,
                ))
                (infix_loop-Gives f bp depth (binary op lhs r.0) r.1 d)))
  ]

  parse_steps-Gives :
      (f depth : ℕ) (ts : Tokens)
      → depth ≤ expr_depth_max
      → Gives (Within depth ts) (parse_steps f depth ts)
  parse_steps-Gives zero depth ts d = panic-Gives _
  parse_steps-Gives (suc f) depth (dot ∷ ts) d =
      bind-Gives _ _ _ _ (expect_field-Gives ts) (λ r passes.
        bind-Gives (Within depth r.1) _ _ _ (parse_steps-Gives f depth r.1 d)
          (λ out fits. ok-Gives _ _ (λ l low. omega (arith, fits l low, passes l, low, d))))
  parse_steps-Gives (suc f) depth (lbracket ∷ ts) d =
      bind-Gives (Deep (depth + 1) ts) _ _ _ (parse_bp-Gives f 0 (depth + 1) ts) (λ r fits.
        bind-Gives _ _ _ _ (expect_rbracket-Gives r.1) (λ u closes.
          bind-Gives (Within depth u.1) _ _ _ (parse_steps-Gives f depth u.1 d) (λ out rest.
            ok-Gives _ _ (λ l low.
              omega (
                arith,
                fits.0,
                fits.1 (suc l) (omega (arith, low)),
                closes l,
                rest l low,
                low,
                d,
              )))))
  parse_steps-Gives (suc f) depth ts d = ok-Gives _ _ (λ l low. omega arith)

closed : (r : Expr × Tokens) → Gives (λ e. r.1 ≡ []) (finish r)
closed (e, []) = ok-Gives _ e refl
closed (e, t ∷ ts) = err-Gives _ _

brackets : (ts : Tokens) → Gives (λ e. peak 1 ts ≤ expr_depth_max) (parse_tokens ts)
unfolding parse_tokens peak
brackets ts = bind-Gives (Deep 1 ts) _ _ _ (parse_bp-Gives _ 0 1 ts) (λ r fits.
    weaken-Gives _ _ _ (λ e done. omega (arith, fits.0, fits.1 1 (omega arith), ap (peak 1) done))
      (closed r))

both :
    {A : Type 0} (P Q : A → Type 0) (r : Result A)
    → Yields P r
    → Gives Q r
    → Yields (λ a. P a × Q a) r
unfolding Yields Gives
both P Q (ok a) h k = (h, k)
both P Q (err e) h k = h
both P Q panic h k = h

-- On any tokens, the parser ends: with a tree for which its calls nest no deeper than the bound of 32
-- levels, and then no bracket of the tokens, round or square, is nested deeper than that either, the
-- whole being the first level; or with an error of the resolution category.
pub parse_tokens-bounded :
    (ts : Tokens)
    → Yields (λ e. (nesting e ≤ expr_depth_max) × (peak 1 ts ≤ expr_depth_max)) (parse_tokens ts)
parse_tokens-bounded ts = both _ _ (parse_tokens ts) (parse_tokens-Yields ts) (brackets ts)
