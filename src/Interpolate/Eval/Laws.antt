-- ===== src/Interpolate/Eval/Laws.antt =====
-- The evaluator ends as documented, and reads no secret that an expression does not ask for.
use tmx.Base.{
  ℕ, length, ltb, ◌≡◌, refl, Bool, true, false, not, ◌&&◌, Option, none, some, arith, Text, bytes,
  text_eq,
}
use mathlib.Core.Path.{ap₂}
use tmx.Limits.{expr_len_max_bytes}
use tmx.Json.{Value, null, boolean, number, string, array, object}
use tmx.Error.{Result, ok, err, panic, ◌>>=◌}
use tmx.Interpolate.{
  BinOp, strict_eq, strict_ne, and, or, Expr, literal, path, negation, binary, Steps, no_steps,
  field, index, Numbers, Scope,
}
use tmx.Interpolate.Outcome.{
  Yields, Any, ok-Yields, err-Yields, bind-Yields, weaken-Yields, if-Yields, found-Yields,
  reject_if-Yields, Yields-of,
}
use tmx.Interpolate.Lexer.Bounds.{tokenize-Yields}
use tmx.Interpolate.Parser.{parse}
use tmx.Interpolate.Parser.Bounds.{parse_tokens-Yields}
use tmx.Interpolate.Eval.{
  access_key, access_index, is_truthy, binary_value, access, base_of, position_of, eval,
  apply_steps, evaluate,
}

access_key-Yields :
    (v : Value) (key root : Text) (first : Bool) → Yields Any (access_key v key root first)
unfolding access_key
access_key-Yields (object fs) key root true = found-Yields _ _ _
access_key-Yields (object fs) key root false = found-Yields _ _ _
access_key-Yields _ key root first = err-Yields _ _ refl

access_index-Yields : (v : Value) (i : ℕ) (root : Text) → Yields Any (access_index v i root)
unfolding access_index
access_index-Yields (array vs) i root = found-Yields _ _ _
access_index-Yields _ i root = err-Yields _ _ refl

-- The expression, and every index in it, has another root than `secrets`.
unfoldable mutual
  pub reads_no_secret : Expr → Bool
  reads_no_secret (literal v) = true
  reads_no_secret (path root steps) =
      not (text_eq root (bytes "secrets")) && steps_read_no_secret steps
  reads_no_secret (negation e) = reads_no_secret e
  reads_no_secret (binary op l r) = reads_no_secret l && reads_no_secret r

  pub steps_read_no_secret : Steps → Bool
  steps_read_no_secret no_steps = true
  steps_read_no_secret (field name steps) = steps_read_no_secret steps
  steps_read_no_secret (index e steps) = reads_no_secret e && steps_read_no_secret steps

bind_congr :
    {A B : Type 0} (m n : Result A) (f g : A → Result B)
    → m ≡ n
    → ((a : A) → f a ≡ g a)
    → (m >>= f) ≡ (n >>= g)
bind_congr (ok a) n f g e h = rw (← e) (h a)
bind_congr (err x) n f g e h = rw (← e) refl
bind_congr panic n f g e h = rw (← e) refl

module _ {F : Type 0} (numbers : Numbers F) where
  access-Yields :
      (v key : Value) (root : Text) (first : Bool) → Yields Any (access numbers v key root first)
  access-Yields v (string s) root first = access_key-Yields v s root first
  access-Yields v (number n) root first =
      bind-Yields Any _ _ _ (found-Yields _ _ _) (λ i _. access_index-Yields v i root)
  access-Yields v null root first = err-Yields _ _ refl
  access-Yields v (boolean b) root first = err-Yields _ _ refl
  access-Yields v (array vs) root first = err-Yields _ _ refl
  access-Yields v (object fs) root first = err-Yields _ _ refl

  base_of-Yields : (root : Text) (scope : Scope) → Yields Any (base_of numbers root scope)
  unfolding base_of
  base_of-Yields root scope =
      Yields-of (base_of numbers root scope) (λ e. ground arith) (λ e is. ground arith)

  binary_value-Yields :
      (op : BinOp) (l r : Result Value)
      → Yields Any l
      → Yields Any r
      → Yields Any (binary_value numbers op l r)
  binary_value-Yields and l r h k =
      bind-Yields Any _ _ _ h
        (λ v _. if-Yields Any (is_truthy numbers v) r (ok v) k (ok-Yields Any v tt))
  binary_value-Yields or l r h k =
      bind-Yields Any _ _ _ h
        (λ v _. if-Yields Any (is_truthy numbers v) (ok v) r (ok-Yields Any v tt) k)
  binary_value-Yields strict_eq l r h k =
      bind-Yields Any _ _ _ h (λ v _. bind-Yields Any _ _ _ k (λ w _. ok-Yields Any _ tt))
  binary_value-Yields strict_ne l r h k =
      bind-Yields Any _ _ _ h (λ v _. bind-Yields Any _ _ _ k (λ w _. ok-Yields Any _ tt))

  positioned-Yields :
      (o : Option ℕ) (walk : Result Value)
      → Yields Any walk
      → Yields Any
          (elim o as (λ _. Result Value) [ some i ↦ ok (number (numbers.of_u64 i)) | none ↦ walk ])
  positioned-Yields none walk h = h
  positioned-Yields (some i) walk h = ok-Yields Any _ tt

  mutual
    unfolding eval

    eval-Yields : (e : Expr) (scope : Scope) → Yields Any (eval numbers e scope)
    eval-Yields (literal v) scope = ok-Yields Any v tt
    eval-Yields (negation e) scope =
        bind-Yields Any _ _ _ (eval-Yields e scope) (λ v _. ok-Yields Any _ tt)
    eval-Yields (binary op l r) scope =
        binary_value-Yields op _ _ (eval-Yields l scope) (eval-Yields r scope)
    eval-Yields (path root steps) scope =
        bind-Yields Any _ _ _ (base_of-Yields root scope) (λ base _.
          positioned-Yields (position_of numbers root steps scope base) _
            (apply_steps-Yields steps root (text_eq root (bytes "secrets")) scope base))

    apply_steps-Yields :
        (steps : Steps) (root : Text) (first : Bool) (scope : Scope) (v : Value)
        → Yields Any (apply_steps numbers steps root first scope v)
    apply_steps-Yields no_steps root first scope v = ok-Yields Any v tt
    apply_steps-Yields (field name steps) root first scope v =
        bind-Yields Any _ _ _ (access_key-Yields v name root first)
          (λ next _. apply_steps-Yields steps root false scope next)
    apply_steps-Yields (index e steps) root first scope v =
        bind-Yields Any _ _ _ (eval-Yields e scope) (λ key _.
          bind-Yields Any _ _ _ (access-Yields v key root first)
            (λ next _. apply_steps-Yields steps root false scope next))

  base_of-same :
      (root : Text) (scope : Scope) (hidden : Value)
      → text_eq root (bytes "secrets") ≡ false
      → base_of numbers root (record scope { secrets = hidden }) ≡ base_of numbers root scope
  unfolding base_of
  base_of-same root scope hidden h = ground (arith, h)

  position_same :
      (o : Option ℕ) (walk other : Result Value)
      → walk ≡ other
      → (elim o as (λ _. Result Value) [ some i ↦ ok (number (numbers.of_u64 i)) | none ↦ walk ])
        ≡ (elim o as (λ _. Result Value) [ some i ↦ ok (number (numbers.of_u64 i)) | none ↦ other ])
  position_same none walk other e = e
  position_same (some i) walk other e = refl

  mutual
    unfolding eval reads_no_secret

    eval-same :
        (e : Expr) (scope : Scope) (hidden : Value)
        → reads_no_secret e ≡ true
        → eval numbers e (record scope { secrets = hidden }) ≡ eval numbers e scope
    eval-same (literal v) scope hidden h = refl
    eval-same (negation e) scope hidden h =
        bind_congr _ _ _ _ (eval-same e scope hidden h) (λ v. refl)
    eval-same (binary op l r) scope hidden h =
        ap₂ (binary_value numbers op) (eval-same l scope hidden (ground (arith, h)))
          (eval-same r scope hidden (ground (arith, h)))
    eval-same (path root steps) scope hidden h =
        bind_congr _ _ _ _ (base_of-same root scope hidden (ground (arith, h))) (λ base.
          position_same (position_of numbers root steps scope base) _ _ (
            apply_steps-same steps root (text_eq root (bytes "secrets")) scope base hidden
              (ground (arith, h))))

    apply_steps-same :
        (steps : Steps) (root : Text) (first : Bool) (scope : Scope) (v hidden : Value)
        → steps_read_no_secret steps ≡ true
        → apply_steps numbers steps root first (record scope { secrets = hidden }) v
          ≡ apply_steps numbers steps root first scope v
    apply_steps-same no_steps root first scope v hidden h = refl
    apply_steps-same (field name steps) root first scope v hidden h =
        bind_congr _ _ _ _ refl (λ next. apply_steps-same steps root false scope next hidden h)
    apply_steps-same (index e steps) root first scope v hidden h =
        bind_congr _ _ _ _ (eval-same e scope hidden (ground (arith, h))) (λ key.
          bind_congr _ _ _ _ refl
            (λ next. apply_steps-same steps root false scope next hidden (ground (arith, h))))

  -- On any text and in any scope, the evaluation of an expression ends: with a value, or with an error of
  -- the resolution category, and never with a panic.
  pub evaluate-Yields :
      (expression : Text) (scope : Scope) → Yields Any (evaluate numbers expression scope)
  unfolding evaluate parse
  evaluate-Yields expression scope =
      bind-Yields Any _ _ _
        (bind-Yields (λ _. ltb expr_len_max_bytes (length expression) ≡ false) _ _ _
          (reject_if-Yields _ _ _)
          (λ _ _.
            bind-Yields Any _ _ _ (tokenize-Yields numbers expression)
              (λ ts _. weaken-Yields _ _ _ (λ e _. tt) (parse_tokens-Yields ts))))
        (λ ast _. eval-Yields ast scope)

  -- An expression that names no secret has the same result whatever the secrets of its scope are.
  pub evaluate-blind :
      (expression : Text) (scope : Scope) (hidden : Value) (ast : Expr)
      → parse numbers expression ≡ ok ast
      → reads_no_secret ast ≡ true
      → evaluate numbers expression (record scope { secrets = hidden })
        ≡ evaluate numbers expression scope
  unfolding evaluate
  evaluate-blind expression scope hidden ast parsed blind =
      rw parsed (eval-same ast scope hidden blind)
