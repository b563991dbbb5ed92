-- ===== src/Runner/Secrets/Provision.antt =====
-- What `resolve_secrets` provides: the secrets that a task requests, each known to the masker.
use tmx.Base.{
  ◌≡◌, refl, ◌∙◌, sym, subst, ap, true, Bool, some, List, [], ◌∷◌, ◌++◌, arith, Text, is_empty,
  text_eq, text_eq_iff, text_eq_refl, All, all, Bool-cases, inl, inr,
}
use tmx.Json.{Fields, no_fields, string, object, get, insert, get-insert}
use tmx.IndexMap.{IndexMap, find}
use tmx.Error.{Result, ok, err, panic, reject_if, ok_or}
use tmx.Mask.{Masker, register, has, is_registered}
use tmx.Mask.Routing.{assert_ready_lem}
use tmx.Flow.{SecretSource, SecretValue, literal, source, Task}
use tmx.Runner.Context.{or_default}
use tmx.Runner.Session.{Ports, Session, Run, pure, lift, continue, ◌>>=◌}
use tmx.Runner.Hoare.{Holds, Post, Keeps}
use tmx.Runner.Loop.Safety.{IsGuarded}
use tmx.Runner.Secrets.{
  registered, register_secret, answered, secret_value, resolve_names, resolve_secrets,
  resolve_secrets-Keeps, unknown_secret, secret_value_empty,
}

-- A value and the session that goes with it satisfy the predicate, where the call gives a value.
unfoldable pub Ensures : {W A : Type 0} → (A → Session W → Type 0) → Result A × Session W → Type 0
Ensures P (ok a, s) = P a s
Ensures P (err e, s) = Unit
Ensures P (panic, s) = Unit

continue-Ensures :
    {W A B : Type 0} (P : A → Session W → Type 0) (Q : B → Session W → Type 0) (f : A → Run W B)
    (x : Result A × Session W)
    → Ensures P x
    → ((a : A) (s : Session W) → P a s → Ensures Q (f a s))
    → Ensures Q (continue f x)
unfolding Ensures
continue-Ensures P Q f (ok a, s) h k = k a s h
continue-Ensures P Q f (err e, s) h k = tt
continue-Ensures P Q f (panic, s) h k = tt

-- The field of a name is a text that is one of the secrets.
abbrev pub Provided : List Text → Fields → Text → Type 0
Provided secrets fs n = (t : Text) × (get n fs ≡ some (string t)) × (has secrets t ≡ true)

has-snoc : (ss : List Text) (t v : Text) → (has ss t ≡ true) → has (ss ++ v ∷ []) t ≡ true
unfolding has
has-snoc [] t v h = absurd cc
has-snoc (s ∷ ss) t v h = ground (arith, h, has-snoc ss t v)

has-last : (ss : List Text) (v : Text) → has (ss ++ v ∷ []) v ≡ true
unfolding has
has-last [] v = ground (arith, text_eq_refl v)
has-last (s ∷ ss) v = ground (arith, has-last ss v)

Provided-new :
    (ss : List Text) (fs : Fields) (n v : Text) → Provided (ss ++ v ∷ []) (insert n (string v) fs) n
Provided-new ss fs n v = (v, get-insert n n (string v) fs ∙ rw (text_eq_refl n) refl, has-last ss v)

Provided-still :
    (ss : List Text) (fs : Fields) (n r v : Text)
    → Provided ss fs n
    → Provided (ss ++ v ∷ []) (insert r (string v) fs) n
Provided-still ss fs n r v (t, is, there) = elim (Bool-cases (text_eq r n)) [
  | inl same ↦ (v, get-insert n r (string v) fs ∙ rw same refl, has-last ss v)
  | inr other ↦ (t, get-insert n r (string v) fs ∙ rw other is, has-snoc ss t v there)
]

-- Each name is provided, and what was provided is so still.
abbrev Provides : {W : Type 0} → List Text → Fields → List Text → Fields → Session W → Type 0
Provides before fs names out s =
    ((n : Text) → Provided before fs n → Provided s.resolved_secrets out n)
    × All (Provided s.resolved_secrets out) names

weaken-Ensures :
    {W A : Type 0} (P Q : A → Session W → Type 0) (x : Result A × Session W)
    → Ensures P x
    → ((a : A) (s : Session W) → P a s → Q a s)
    → Ensures Q x
unfolding Ensures
weaken-Ensures P Q (ok a, s) h k = k a s h
weaken-Ensures P Q (err e, s) h k = tt
weaken-Ensures P Q (panic, s) h k = tt

next :
    {W : Type 0} (before : List Text) (fs : Fields) (r v : Text) (names : List Text) (s : Session W)
    → s.resolved_secrets ≡ before ++ v ∷ []
    → (x : Result Fields × Session W)
    → Ensures (Provides s.resolved_secrets (insert r (string v) fs) names) x
    → Ensures (Provides before fs (r ∷ names)) x
next before fs r v names s e x h =
    let move = λ (n : Text). subst (λ ss. Provided ss (insert r (string v) fs) n) (sym e) in
    weaken-Ensures _ _ x h (λ out t (still, there). (
      (λ n p. still n (move n (Provided-still before fs n r v p))),
      (still r (move r (Provided-new before fs r v)), there),
    ))

and-Ensures :
    {W A : Type 0} (P : A → Session W → Type 0) (I : Session W → Type 0) (x : Result A × Session W)
    → Ensures P x
    → I x.1
    → Ensures (λ a s. P a s × I s) x
unfolding Ensures
and-Ensures P I (ok a, s) h i = (h, i)
and-Ensures P I (err e, s) h i = tt
and-Ensures P I (panic, s) h i = tt

all-has :
    (p : Text → Bool) (ss : List Text) (t : Text) → all p ss ≡ true → has ss t ≡ true → p t ≡ true
unfolding has
all-has p [] t h k = absurd cc
all-has p (s ∷ ss) t h k = elim (Bool-cases (text_eq s t)) [
  | inl e ↦ subst (λ x. p x ≡ true) ((text_eq_iff s t).0 e) (ground (arith, h))
  | inr e ↦ all-has p ss t (ground (arith, h)) (ground (arith, k, e))
]

-- A guarded masker holds the secrets.
held :
    {W : Type 0} (s : Session W) (t : Text)
    → IsGuarded s
    → has s.resolved_secrets t ≡ true
    → is_registered s.masker t ≡ true
held s t i k =
    all-has (is_registered s.masker) s.resolved_secrets t
      (ground (arith, i.ready, assert_ready_lem s.masker s.resolved_secrets)) k

-- The name is bound to a secret that the masker holds.
abbrev pub Shown : {W : Type 0} → Fields → Session W → Text → Type 0
Shown fs s n =
    (secret : Text) × (get n fs ≡ some (string secret)) × (is_registered s.masker secret ≡ true)

shown :
    {W : Type 0} (s : Session W) (fs : Fields) (names : List Text)
    → IsGuarded s
    → All (Provided s.resolved_secrets fs) names
    → All (Shown fs s) names
shown s fs [] i h = tt
shown s fs (n ∷ names) i ((t, is, there), h) = ((t, is, held s t i there), shown s fs names i h)

module _ {W : Type 0} (ports : Ports W) where
  same_secrets :
      {A : Type 0} (r : Result A) (w : W) (s : Session W)
      → Ensures (λ _ t. t.resolved_secrets ≡ s.resolved_secrets) (r, record s { world = w })
  unfolding Ensures
  same_secrets (ok a) w s = refl
  same_secrets (err e) w s = tt
  same_secrets panic w s = tt

  secret_value-Ensures :
      (def : SecretValue) (s : Session W)
      → Ensures (λ v t. t.resolved_secrets ≡ s.resolved_secrets) (secret_value ports def s)
  unfolding secret_value answered
  secret_value-Ensures (literal value) s = unfold Ensures pure in refl
  secret_value-Ensures (source from) s =
      same_secrets (ports.resolve_secret from s.world).0 (ports.resolve_secret from s.world).1 s

  registered-Ensures :
      (value : Text) (s : Session W) (m : Result Masker)
      → Ensures
          (λ _ t. t.resolved_secrets ≡ s.resolved_secrets ++ value ∷ [])
          (registered value s m)
  unfolding Ensures
  registered-Ensures value s (ok m) = refl
  registered-Ensures value s (err e) = tt
  registered-Ensures value s panic = tt

  register_secret-Ensures :
      (value : Text) (s : Session W)
      → Ensures
          (λ _ t. t.resolved_secrets ≡ s.resolved_secrets ++ value ∷ [])
          (register_secret value s)
  unfolding register_secret
  register_secret-Ensures value s = registered-Ensures value s (register value s.masker)

  lift-Ensures :
      {A : Type 0} (r : Result A) (s : Session W)
      → Ensures (λ _ t. t.resolved_secrets ≡ s.resolved_secrets) (lift r s)
  unfolding lift Ensures
  lift-Ensures (ok a) s = refl
  lift-Ensures (err e) s = tt
  lift-Ensures panic s = tt

  resolve_names-Ensures :
      (task : Task) (defs : IndexMap SecretValue) (names : List Text) (fs : Fields) (s : Session W)
      → Ensures (Provides s.resolved_secrets fs names) (resolve_names ports task defs names fs s)
  unfolding resolve_names ◌>>=◌
  resolve_names-Ensures task defs [] fs s = unfold Ensures pure in ((λ n h. h), tt)
  resolve_names-Ensures task defs (r ∷ names) fs s =
      continue-Ensures _ _ _ _ (lift-Ensures (ok_or (find r defs) (unknown_secret r task)) s)
        (λ def s₁ e₁. continue-Ensures _ _ _ _ (secret_value-Ensures def s₁) (λ v s₂ e₂.
          continue-Ensures _ _ _ _
            (lift-Ensures (reject_if (is_empty v) (secret_value_empty r task)) s₂)
            (λ _ s₃ e₃. continue-Ensures _ _ _ _ (register_secret-Ensures v s₃) (λ _ s₄ e₄.
              next s.resolved_secrets fs r v names s₄ (e₄ ∙ ap (λ ss. ss ++ v ∷ []) (e₃ ∙ e₂ ∙ e₁))
                _ (resolve_names-Ensures task defs names (insert r (string v) fs) s₄)))))

  resolve_secrets-Ensures :
      (task : Task) (defs : IndexMap SecretValue) (s : Session W)
      → Ensures
          (λ v t.
            (fs : Fields) × (v ≡ object fs)
            × All (Provided t.resolved_secrets fs) (or_default [] task.secrets))
          (resolve_secrets ports task defs s)
  unfolding resolve_secrets ◌>>=◌
  resolve_secrets-Ensures task defs s =
      continue-Ensures _ _ _ _
        (resolve_names-Ensures task defs (or_default [] task.secrets) no_fields s)
        (λ fs t (still, there). unfold Ensures pure in (fs, refl, there))

  guarded :
      (task : Task) (defs : IndexMap SecretValue) (s : Session W)
      → ((source : SecretSource) (w : W) → Holds (λ _. Unit) (ports.resolve_secret source w).0)
      → IsGuarded s
      → IsGuarded (resolve_secrets ports task defs s).1
        × Holds (λ _. Unit) (resolve_secrets ports task defs s).0
  unfolding Keeps Post
  guarded task defs s honest i = resolve_secrets-Keeps ports honest task defs s i

  -- On success, each secret that the task requests is in the value under its name, as a text that the
  -- masker holds from then on. On every path the masker holds each secret that was resolved so far, and no
  -- assertion fails. The resolver of secret sources does not panic.
  pub resolve_secrets_lem :
      (task : Task) (defs : IndexMap SecretValue) (s : Session W)
      → ((source : SecretSource) (w : W) → Holds (λ _. Unit) (ports.resolve_secret source w).0)
      → IsGuarded s
      → Ensures
          (λ v t. (fs : Fields) × (v ≡ object fs) × All (Shown fs t) (or_default [] task.secrets))
          (resolve_secrets ports task defs s)
        × IsGuarded (resolve_secrets ports task defs s).1
        × Holds (λ _. Unit) (resolve_secrets ports task defs s).0
  resolve_secrets_lem task defs s honest i =
      let (kept, safe) = guarded task defs s honest i in
      (
        weaken-Ensures _ _ _ (and-Ensures _ IsGuarded _ (resolve_secrets-Ensures task defs s) kept)
            (λ v t ((fs, is, there), j). (fs, is, shown t fs (or_default [] task.secrets) j there)),
        kept,
        safe,
      )
