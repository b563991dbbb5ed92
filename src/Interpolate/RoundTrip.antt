-- ===== src/Interpolate/RoundTrip.antt =====
-- The parser reads back what the printer writes.
use tmx.Base.{
  ℕ, zero, suc, ◌+◌, ◌*◌, ◌≤◌, ◌≡◌, refl, Bool, true, false, ◌&&◌, Option, none, some, [], ◌∷◌,
  arith, Text, length,
}
use tmx.Limits.{expr_depth_max}
use tmx.Json.{Value, null, boolean, string, array, object}
use tmx.Error.{ok}
use tmx.Interpolate.{
  BinOp, strict_eq, strict_ne, and, or, Expr, literal, path, negation, binary, Steps, no_steps,
  field, index, Tokens, lparen, rparen, lbracket, rbracket, dot, bang, ident,
}
use tmx.Interpolate.Parser.{
  check_depth, expect_rparen, expect_rbracket, expect_field, loop_op, right_bp, keyword, parse_bp,
  parse_primary, infix_loop, parse_steps, parse_tokens,
}
use tmx.Interpolate.Printer.{
  op_token, scalar_token, is_scalar, is_none, emit, emit_steps, printable, printable_steps, room,
  room_steps, cost, cost_steps, cost-le,
}

-- The tokens at which an expression ends.
abbrev stops : Tokens → Bool
stops [] = true
stops (rparen ∷ ts) = true
stops (rbracket ∷ ts) = true
stops _ = false

loop_op-stops : (bp : ℕ) (ts : Tokens) → stops ts ≡ true → loop_op bp ts ≡ none
unfolding loop_op
loop_op-stops bp [] h = refl
loop_op-stops bp (rparen ∷ ts) h = refl
loop_op-stops bp (rbracket ∷ ts) h = refl
loop_op-stops bp _ h = absurd cc

check_depth-ok : (d : ℕ) → d ≤ expr_depth_max → check_depth d ≡ ok tt
unfolding check_depth
check_depth-ok d h = ground arith

infix_loop-stops :
    (f bp d : ℕ) (e : Expr) (ts : Tokens)
    → 1 ≤ f
    → stops ts ≡ true
    → infix_loop f bp d e ts ≡ ok (e, ts)
unfolding infix_loop
infix_loop-stops zero bp d e ts h s = absurd (omega arith)
infix_loop-stops (suc f) bp d e ts h s = rw (loop_op-stops bp ts s, infix_loop) refl

-- A primary expression, where the next token ends the expression.
whole :
    (f bp d : ℕ) (e : Expr) (ts rest : Tokens)
    → d ≤ expr_depth_max
    → 1 ≤ f
    → stops rest ≡ true
    → parse_primary f d ts ≡ ok (e, rest)
    → parse_bp (suc f) bp d ts ≡ ok (e, rest)
unfolding parse_bp
whole f bp d e ts rest shallow h s is =
    rw (check_depth-ok d shallow, is) (infix_loop-stops f bp d e rest h s)

-- A tree in parentheses.
parse_parens :
    (f bp d : ℕ) (e : Expr) (inner rest : Tokens)
    → d ≤ expr_depth_max
    → stops rest ≡ true
    → parse_bp f 0 (d + 1) inner ≡ ok (e, rparen ∷ rest)
    → parse_bp (suc (suc f)) bp d (lparen ∷ inner) ≡ ok (e, rest)
unfolding expect_rparen parse_primary
parse_parens f bp d e inner rest shallow s is =
    whole (suc f) bp d e (lparen ∷ inner) rest shallow (omega arith) s (rw is refl)

pred : (f : ℕ) → 1 ≤ f → (g : ℕ) × (f ≡ suc g)
pred zero h = absurd (omega arith)
pred (suc g) h = (g, refl)

scalar_parse :
    (g d : ℕ) (v : Value) (rest : Tokens)
    → is_scalar v ≡ true
    → parse_primary (suc g) d (scalar_token v ∷ rest) ≡ ok (literal v, rest)
unfolding parse_primary
scalar_parse g d null rest h = refl
scalar_parse g d (boolean true) rest h = refl
scalar_parse g d (boolean false) rest h = refl
scalar_parse g d (Value.number n) rest h = refl
scalar_parse g d (string s) rest h = refl
scalar_parse g d (array vs) rest h = absurd cc
scalar_parse g d (object fs) rest h = absurd cc

is_none-true : {A : Type 0} (x : Option A) → is_none x ≡ true → x ≡ none
is_none-true none h = refl
is_none-true (some a) h = absurd cc

-- A path, from its steps.
path_parse :
    (g d : ℕ) (root : Text) (steps : Steps) (ts rest : Tokens)
    → keyword root ≡ none
    → parse_steps g d ts ≡ ok (steps, rest)
    → parse_primary (suc g) d (ident root ∷ ts) ≡ ok (path root steps, rest)
unfolding parse_primary
path_parse g d root steps ts rest name is = rw (name, is, parse_primary) refl

-- The operators that the loop takes up at the lowest binding power.
loop_op-emitted : (op : BinOp) (ts : Tokens) → loop_op 0 (op_token op ∷ ts) ≡ some op
unfolding loop_op
loop_op-emitted strict_eq ts = refl
loop_op-emitted strict_ne ts = refl
loop_op-emitted and ts = refl
loop_op-emitted or ts = refl

-- A tree in parentheses, as the operand of an operator.
parens_primary :
    (f d : ℕ) (e : Expr) (inner rest : Tokens)
    → parse_bp f 0 (d + 1) inner ≡ ok (e, rparen ∷ rest)
    → parse_primary (suc f) d (lparen ∷ inner) ≡ ok (e, rest)
unfolding expect_rparen parse_primary
parens_primary f d e inner rest is = rw is refl

-- An operator between two trees.
infix_parse :
    (g d : ℕ) (op : BinOp) (l r : Expr) (ts rest : Tokens)
    → 1 ≤ g
    → stops rest ≡ true
    → parse_bp g (right_bp op) (d + 1) ts ≡ ok (r, rest)
    → infix_loop (suc g) 0 d l (op_token op ∷ ts) ≡ ok (binary op l r, rest)
unfolding infix_loop
infix_parse g d op l r ts rest h s is =
    rw (loop_op-emitted op ts, is, infix_loop) (infix_loop-stops g 0 d (binary op l r) rest h s)

binary_parse :
    (f d : ℕ) (op : BinOp) (l r : Expr) (ts us rest : Tokens)
    → d ≤ expr_depth_max
    → parse_primary f d ts ≡ ok (l, us)
    → infix_loop f 0 d l us ≡ ok (binary op l r, rest)
    → parse_bp (suc f) 0 d ts ≡ ok (binary op l r, rest)
unfolding parse_bp
binary_parse f d op l r ts us rest shallow first then_rest =
    rw (check_depth-ok d shallow, first) then_rest

negation_parse :
    (g d : ℕ) (e : Expr) (ts rest : Tokens)
    → parse_bp g 7 (d + 1) ts ≡ ok (e, rest)
    → parse_primary (suc g) d (bang ∷ ts) ≡ ok (negation e, rest)
unfolding parse_primary
negation_parse g d e ts rest is = rw is refl

parse_steps-end :
    (g d : ℕ) (rest : Tokens) → stops rest ≡ true → parse_steps (suc g) d rest ≡ ok (no_steps, rest)
unfolding parse_steps
parse_steps-end g d [] h = refl
parse_steps-end g d (rparen ∷ ts) h = refl
parse_steps-end g d (rbracket ∷ ts) h = refl
parse_steps-end g d _ h = absurd cc

parse_steps-field :
    (g d : ℕ) (name : Text) (steps : Steps) (ts rest : Tokens)
    → parse_steps g d ts ≡ ok (steps, rest)
    → parse_steps (suc g) d (dot ∷ ident name ∷ ts) ≡ ok (field name steps, rest)
unfolding parse_steps expect_field
parse_steps-field g d name steps ts rest is = rw is refl

parse_steps-index :
    (g d : ℕ) (e : Expr) (steps : Steps) (inner ts rest : Tokens)
    → parse_bp g 0 (d + 1) inner ≡ ok (e, rbracket ∷ ts)
    → parse_steps g d ts ≡ ok (steps, rest)
    → parse_steps (suc g) d (lbracket ∷ inner) ≡ ok (index e steps, rest)
unfolding parse_steps expect_rbracket
parse_steps-index g d e steps inner ts rest key is = rw key (rw is refl)

&&-left : (a b : Bool) → a && b ≡ true → a ≡ true
&&-left a b h = ground arith

&&-right : (a b : Bool) → a && b ≡ true → b ≡ true
&&-right a b h = ground arith

cost-pos : (e : Expr) → 2 ≤ cost e
unfolding cost
cost-pos (literal v) = omega arith
cost-pos (path root steps) = omega arith
cost-pos (negation e) = omega arith
cost-pos (binary op l r) = omega arith

cost_steps-pos : (steps : Steps) → 1 ≤ cost_steps steps
unfolding cost
cost_steps-pos no_steps = omega arith
cost_steps-pos (field name steps) = omega arith
cost_steps-pos (index e steps) = omega arith

mutual
  unfolding emit printable room cost

  parse_bp-emit :
      (f d : ℕ) (e : Expr) (rest : Tokens)
      → printable e ≡ true
      → d + room e ≤ suc expr_depth_max
      → cost e ≤ f
      → stops rest ≡ true
      → parse_bp f 0 d (emit e rest) ≡ ok (e, rest)
  parse_bp-emit zero d e rest p n c s = absurd (omega (arith, cost-pos e))
  parse_bp-emit (suc zero) d e rest p n c s = absurd (omega (arith, cost-pos e))
  parse_bp-emit (suc (suc g)) d (literal v) rest p n c s =
      whole (suc g) 0 d (literal v) (scalar_token v ∷ rest) rest (omega arith) (omega arith) s
        (scalar_parse g d v rest p)
  parse_bp-emit (suc (suc g)) d (path root steps) rest p n c s =
      whole (suc g) 0 d (path root steps) (ident root ∷ emit_steps steps rest) rest (omega arith)
        (omega arith) s
        (path_parse g d root steps (emit_steps steps rest) rest
          (is_none-true (keyword root) (&&-left (is_none (keyword root)) (printable_steps steps) p))
          (parse_steps-emit g d steps rest
            (&&-right (is_none (keyword root)) (printable_steps steps) p) (omega arith)
            (omega arith) s))
  parse_bp-emit (suc (suc zero)) d (negation e) rest p n c s = absurd (omega arith)
  parse_bp-emit (suc (suc (suc zero))) d (negation e) rest p n c s = absurd (omega arith)
  parse_bp-emit (suc (suc (suc (suc g)))) d (negation e) rest p n c s =
      whole (suc (suc (suc g))) 0 d (negation e) (emit (negation e) rest) rest (omega arith)
        (omega arith) s
        (negation_parse (suc (suc g)) d e (lparen ∷ emit e (rparen ∷ rest)) rest (
          parse_parens g 7 (d + 1) e (emit e (rparen ∷ rest)) rest (omega arith) s
            (parse_bp-emit g (d + 1 + 1) e (rparen ∷ rest) p (omega arith) (omega arith) refl)))
  parse_bp-emit (suc (suc zero)) d (binary op l r) rest p n c s = absurd (omega arith)
  parse_bp-emit (suc (suc (suc zero))) d (binary op l r) rest p n c s = absurd (omega arith)
  parse_bp-emit (suc (suc (suc (suc g)))) d (binary op l r) rest p n c s =
      let right = emit r (rparen ∷ rest) in
      let after = op_token op ∷ lparen ∷ right in
      binary_parse (suc (suc (suc g))) d op l r (lparen ∷ emit l (rparen ∷ after)) after rest
        (omega arith)
        (parens_primary (suc (suc g)) d l (emit l (rparen ∷ after)) after (
          parse_bp-emit (suc (suc g)) (d + 1) l (rparen ∷ after)
            (&&-left (printable l) (printable r) p) (omega arith) (omega arith) refl))
        (infix_parse (suc (suc g)) d op l r (lparen ∷ right) rest (omega arith) s (
          parse_parens g (right_bp op) (d + 1) r right rest (omega arith) s (
            parse_bp-emit g (d + 1 + 1) r (rparen ∷ rest) (&&-right (printable l) (printable r) p)
              (omega arith) (omega arith) refl)))

  parse_steps-emit :
      (f d : ℕ) (steps : Steps) (rest : Tokens)
      → printable_steps steps ≡ true
      → d + room_steps steps ≤ suc expr_depth_max
      → cost_steps steps ≤ f
      → stops rest ≡ true
      → parse_steps f d (emit_steps steps rest) ≡ ok (steps, rest)
  parse_steps-emit zero d steps rest p n c s = absurd (omega (arith, cost_steps-pos steps))
  parse_steps-emit (suc g) d no_steps rest p n c s = parse_steps-end g d rest s
  parse_steps-emit (suc g) d (field name steps) rest p n c s =
      parse_steps-field g d name steps (emit_steps steps rest) rest
        (parse_steps-emit g d steps rest p n (omega arith) s)
  parse_steps-emit (suc g) d (index e steps) rest p n c s =
      parse_steps-index g d e steps (emit e (rbracket ∷ emit_steps steps rest))
        (emit_steps steps rest) rest
        (parse_bp-emit g (d + 1) e (rbracket ∷ emit_steps steps rest)
          (&&-left (printable e) (printable_steps steps) p) (omega arith) (omega arith) refl)
        (parse_steps-emit g d steps rest (&&-right (printable e) (printable_steps steps) p)
          (omega arith) (omega arith) s)

-- The parser reads the printed tokens of a tree back as that tree, where the tree's literals are
-- scalars, no namespace in it is spelled like a literal, and the parentheses stay within the depth bound.
pub parse_tokens-emit :
    (e : Expr) → printable e ≡ true → room e ≤ expr_depth_max → parse_tokens (emit e []) ≡ ok e
unfolding parse_tokens
parse_tokens-emit e p n =
    let fuel = 2 * length (emit e []) + 2 in
    rw (parse_bp-emit fuel 1 e [] p (omega (arith, n)) (omega (arith, cost-le e [])) refl) refl
