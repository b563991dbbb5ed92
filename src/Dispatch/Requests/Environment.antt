-- ===== src/Dispatch/Requests/Environment.antt =====
-- The environment of a process and the headers of a request: what `build_env` and
-- `build_fetch_request` give.
use tmx.Base.{
  ℕ, ◌≡◌, ◌∙◌, refl, sym, ap, subst, true, false, Option, none, some, [], ◌∷◌, arith, Text, text_eq,
  text_eq_iff, Bool-cases, Option-cases, inl, inr,
}
use tmx.IndexMap.{IndexMap, find, has_key, put, unique, find-put, has_key-find}
use tmx.Error.{Result, ok, err, panic, ◌>>=◌}
use tmx.Flow.{EnvMap}
use tmx.Interpolate.{Numbers, Scope}
use tmx.Dispatch.Template.{Rendering, interp_to_string}
use tmx.Dispatch.Requests.{or_else, interp_opt, insert_all, build_env}

-- What a success of `m >>= f` comes from.
pub inverse-bind :
    {A B : Type 0} (m : Result A) (f : A → Result B) (b : B)
    → (m >>= f) ≡ ok b
    → (a : A) × (m ≡ ok a) × (f a ≡ ok b)
inverse-bind (ok a) f b h = (a, refl, h)
inverse-bind (err e) f b h = absurd cc
inverse-bind panic f b h = absurd cc

pub ok_injective : {A : Type 0} {a b : A} → ok a ≡ ok b → a ≡ b
ok_injective h = cc

find-miss :
    {V : Type 0} (j k : Text) (v : V) (m : IndexMap V)
    → find k ((j, v) ∷ m) ≡ none
    → (text_eq j k ≡ false) × (find k m ≡ none)
find-miss j k v m h = ground (arith, h)

unique-rest :
    {V : Type 0} (j : Text) (w : V) (m : IndexMap V) → unique ((j, w) ∷ m) ≡ true → unique m ≡ true
unique-rest j w m u = ground (arith, u)

found_later :
    {V : Type 0} (j k : Text) (w v : V) (m : IndexMap V)
    → text_eq j k ≡ false
    → find k ((j, w) ∷ m) ≡ some v
    → find k m ≡ some v
found_later j k w v m other e = ground (arith, other, e)

not_later :
    {V : Type 0} (j k : Text) (w : V) (m : IndexMap V)
    → unique ((j, w) ∷ m) ≡ true
    → text_eq j k ≡ true
    → find k m ≡ none
not_later j k w m u same =
    has_key-find k m
      (subst (λ x. has_key x m ≡ false) ((text_eq_iff j k).0 same) (ground (arith, u)))

-- An overlay's entry, and the base's where it has none.
abbrev pub overlaid : {V : Type 0} → Option V → Option V → Option V
overlaid none base = base
overlaid (some v) base = some v

module _ {F : Type 0} (numbers : Numbers F) (rendering : Rendering) (parse_u64 : Text → Option ℕ)
    (scope : Scope) where
  insert_all-other :
      (k : Text) (es : EnvMap) (out result : IndexMap Text)
      → find k es ≡ none
      → insert_all numbers rendering parse_u64 es scope out ≡ ok result
      → find k result ≡ find k out
  unfolding insert_all
  insert_all-other k [] out result n h = ap (find k) (sym (ok_injective h))
  insert_all-other k ((j, v) ∷ es) out result n h =
      let miss = find-miss j k v es n in
      let (t, _, h') = inverse-bind (interp_to_string numbers rendering v scope) _ result h in
      insert_all-other k es (put j t out) result miss.1 h' ∙ find-put k j t out ∙ rw (miss.0) refl

  put_found :
      (k j t w : Text) (es : EnvMap) (out result : IndexMap Text)
      → unique ((j, w) ∷ es) ≡ true
      → text_eq j k ≡ true
      → insert_all numbers rendering parse_u64 es scope (put j t out) ≡ ok result
      → find k result ≡ some t
  put_found k j t w es out result u same h =
      insert_all-other k es (put j t out) result (not_later j k w es u same) h
      ∙ find-put k j t out
      ∙ rw same refl

  insert_all-own :
      (k v : Text) (es : EnvMap) (out result : IndexMap Text)
      → unique es ≡ true
      → find k es ≡ some v
      → insert_all numbers rendering parse_u64 es scope out ≡ ok result
      → interp_opt numbers rendering parse_u64 (find k es) scope ≡ ok (find k result)
  unfolding insert_all
  insert_all-own k v [] out result u e h = absurd cc
  insert_all-own k v ((j, w) ∷ es) out result u e h =
      let (t, p, h') = inverse-bind (interp_to_string numbers rendering w scope) _ result h in
      elim (Bool-cases (text_eq j k)) [
        | inl same ↦ rw same (rw p (ap ok (sym (put_found k j t w es out result u same h'))))
        | inr other ↦ rw other (
            insert_all-own k v es (put j t out) result (unique-rest j w es u)
              (found_later j k w v es other e) h')
      ]

  pub insert_all-first :
      (k : Text) (es : EnvMap) (result : IndexMap Text)
      → unique es ≡ true
      → insert_all numbers rendering parse_u64 es scope [] ≡ ok result
      → interp_opt numbers rendering parse_u64 (find k es) scope ≡ ok (find k result)
  insert_all-first k es result u h = elim (Option-cases (find k es)) [
    | inl n ↦ rw n (ap ok (sym (insert_all-other k es [] result n h)))
    | inr (v, e) ↦ insert_all-own k v es [] result u e h
  ]

  insert_all-over :
      (k : Text) (es : EnvMap) (base result : IndexMap Text) (beneath : Option Text)
      → unique es ≡ true
      → interp_opt numbers rendering parse_u64 beneath scope ≡ ok (find k base)
      → insert_all numbers rendering parse_u64 es scope base ≡ ok result
      → interp_opt numbers rendering parse_u64 (overlaid (find k es) beneath) scope
        ≡ ok (find k result)
  insert_all-over k es base result beneath u b h = elim (Option-cases (find k es)) [
    | inl n ↦ rw n (b ∙ ap ok (sym (insert_all-other k es base result n h)))
    | inr (v, e) ↦ rw e (
        subst (λ o. interp_opt numbers rendering parse_u64 o scope ≡ ok (find k result)) e
          (insert_all-own k v es base result u e h))
  ]

  -- A variable of the process is what its template gives: the task's own where the task has one, and
  -- the context's otherwise. A variable that neither has is not there. No map has a key twice.
  pub find-build_env :
      (ctx_env : EnvMap) (task_env : Option EnvMap) (out : IndexMap Text)
      → unique ctx_env ≡ true
      → unique (or_else [] task_env) ≡ true
      → build_env numbers rendering parse_u64 ctx_env task_env scope ≡ ok out
      → (k : Text)
      → interp_opt numbers rendering parse_u64
          (overlaid (find k (or_else [] task_env)) (find k ctx_env))
          scope
        ≡ ok (find k out)
  unfolding build_env
  find-build_env ctx_env task_env out u w h k =
      let (base, b, h') =
        inverse-bind (insert_all numbers rendering parse_u64 ctx_env scope []) _ out h in
      insert_all-over k (or_else [] task_env) base out (find k ctx_env) w
        (insert_all-first k ctx_env base u b) h'
