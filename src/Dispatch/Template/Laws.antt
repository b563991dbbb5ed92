-- ===== src/Dispatch/Template/Laws.antt =====
-- The interpolation ends, and leaves alone what holds no expression.
use tmx.Base.{
  ℕ, zero, suc, ◌+◌, ◌≤◌, ◌<◌, ◌≡◌, refl, subst, Bool, true, false, not, Option, none, some, [],
  ◌∷◌, arith, Text, length, Option-cases, inl, inr, if◌then◌else◌,
}
use tmx.Str.{starts_with, contains}
use tmx.Json.{
  Value, Items, Fields, null, boolean, number, string, array, object, no_items, item, no_fields,
  field,
}
use tmx.Interpolate.{Numbers, Scope}
use tmx.Interpolate.Eval.Laws.{evaluate-Yields}
use tmx.Interpolate.Outcome.{Yields, Any, ok-Yields, err-Yields, bind-Yields, if-Yields}
use tmx.Dispatch.Template.{
  Rendering, interp_open, interp_close, drop, split_once, lone_expression, splice, lone_or_spliced,
  interp_template, interp_value, interp_items, interp_fields,
}

length-drop : (n : ℕ) (s : Text) → length (drop n s) ≤ length s
length-drop zero s = omega arith
length-drop (suc n) [] = omega arith
length-drop (suc n) (c ∷ s) = omega (arith, length-drop n s)

-- What stands after an occurrence is shorter than the text.
abbrev Shrinks : ℕ → Option (Text × Text) → Type 0
Shrinks n none = Unit
Shrinks n (some r) = length r.1 < n

if-Shrinks :
    (n : ℕ) (b : Bool) (x y : Option (Text × Text))
    → Shrinks n x
    → Shrinks n y
    → Shrinks n (if b then x else y)
if-Shrinks n true x y h k = h
if-Shrinks n false x y h k = k

later-Shrinks :
    (n c : ℕ) (o : Option (Text × Text))
    → Shrinks n o
    → Shrinks
        (suc n)
        (elim o as (λ _. Option (Text × Text)) [ none ↦ none | some r ↦ some (c ∷ r.0, r.1) ])
later-Shrinks n c none h = tt
later-Shrinks n c (some r) h = omega (arith, h)

split_once-Shrinks : (q : ℕ) (p s : Text) → Shrinks (length s) (split_once (q ∷ p) s)
unfolding split_once starts_with
split_once-Shrinks q p [] = tt
split_once-Shrinks q p (c ∷ s) =
    if-Shrinks (suc (length s)) (starts_with (q ∷ p) (c ∷ s)) _ _
      (omega (arith, length-drop (length p) s))
      (later-Shrinks (length s) c (split_once (q ∷ p) s) (split_once-Shrinks q p s))

shrunk :
    (n : ℕ) (o : Option (Text × Text)) (r : Text × Text) → o ≡ some r → Shrinks n o → length r.1 < n
shrunk n o r e h = subst (Shrinks n) e h

after_open :
    (s : Text) (r : Text × Text) → split_once interp_open s ≡ some r → length r.1 < length s
after_open s r e = shrunk (length s) (split_once interp_open s) r e (split_once-Shrinks _ _ s)

after_close :
    (s : Text) (r : Text × Text) → split_once interp_close s ≡ some r → length r.1 < length s
after_close s r e = shrunk (length s) (split_once interp_close s) r e (split_once-Shrinks _ _ s)

module _ {F : Type 0} (numbers : Numbers F) (rendering : Rendering) where
  splice-Yields :
      (fuel : ℕ) (template out rest : Text) (scope : Scope)
      → length rest < fuel
      → Yields Any (splice numbers rendering fuel template out rest scope)
  unfolding splice
  splice-Yields zero template out rest scope h = absurd (omega arith)
  splice-Yields (suc fuel) template out rest scope h =
      elim (Option-cases (split_once interp_open rest)) [
        | inl e ↦ rw (e, splice) (ok-Yields Any _ tt)
        | inr (r, e) ↦ elim (Option-cases (split_once interp_close r.1)) [
          | inl f ↦ rw (e, f, splice) (err-Yields Any _ refl)
          | inr (t, f) ↦
              rw (e, f, splice)
                (bind-Yields Any _ _ _ (evaluate-Yields numbers (rendering.trim t.0) scope) (λ v _.
                  splice-Yields fuel template _ t.1 scope
                    (omega (arith, h, after_open rest r e, after_close r.1 t f))))
        ]
      ]

  lone_or_spliced-Yields :
      (o : Option Text) (s : Text) (scope : Scope)
      → Yields Any (lone_or_spliced numbers rendering o s scope)
  lone_or_spliced-Yields (some inner) s scope = evaluate-Yields numbers (rendering.trim inner) scope
  lone_or_spliced-Yields none s scope =
      bind-Yields Any _ _ _ (splice-Yields (length s + 1) s [] s scope (omega arith))
        (λ out _. ok-Yields Any _ tt)

  pub interp_template-Yields :
      (s : Text) (scope : Scope) → Yields Any (interp_template numbers rendering s scope)
  unfolding interp_template
  interp_template-Yields s scope =
      if-Yields Any (not (contains interp_open s)) _ _ (ok-Yields Any _ tt)
        (lone_or_spliced-Yields (lone_expression (rendering.trim s)) s scope)

  mutual
    unfolding interp_value

    -- The interpolation of a document ends: with a document, or with an error of the resolution category.
    pub interp_value-Yields :
        (v : Value) (scope : Scope) → Yields Any (interp_value numbers rendering v scope)
    interp_value-Yields (string s) scope = interp_template-Yields s scope
    interp_value-Yields (array vs) scope =
        bind-Yields Any _ _ _ (interp_items-Yields vs scope) (λ out _. ok-Yields Any _ tt)
    interp_value-Yields (object fs) scope =
        bind-Yields Any _ _ _ (interp_fields-Yields fs scope no_fields)
          (λ out _. ok-Yields Any _ tt)
    interp_value-Yields null scope = ok-Yields Any _ tt
    interp_value-Yields (boolean b) scope = ok-Yields Any _ tt
    interp_value-Yields (number n) scope = ok-Yields Any _ tt

    interp_items-Yields :
        (vs : Items) (scope : Scope) → Yields Any (interp_items numbers rendering vs scope)
    interp_items-Yields no_items scope = ok-Yields Any _ tt
    interp_items-Yields (item v vs) scope =
        bind-Yields Any _ _ _ (interp_value-Yields v scope) (λ w _.
          bind-Yields Any _ _ _ (interp_items-Yields vs scope) (λ rest _. ok-Yields Any _ tt))

    interp_fields-Yields :
        (fs : Fields) (scope : Scope) (out : Fields)
        → Yields Any (interp_fields numbers rendering fs scope out)
    interp_fields-Yields no_fields scope out = ok-Yields Any _ tt
    interp_fields-Yields (field k v fs) scope out =
        bind-Yields Any _ _ _ (interp_value-Yields v scope) (λ w _. interp_fields-Yields fs scope _)
