-- ===== src/Runner/Secrets.antt =====
-- The secrets of a task (runner.rs): `resolve_secrets`, each secret registered with the masker before
-- anything can show it.
pub mod Provision
use tmx.Base.{
  ℕ, ◌≡◌, sym, ◌∙◌, subst, Bool, true, false, Option, none, some, List, [], ◌∷◌, ◌++◌, arith, Text,
  is_empty, all, ap, ◌==◌, All-append, text_eq_refl,
}
use tmx.Json.{Value, Fields, no_fields, string, object, insert}
use tmx.IndexMap.{IndexMap, find}
use tmx.Error.{
  Result, ok, err, panic, RunError, resolution_error, with_task, format, text, ok_or, reject_if,
}
use tmx.Mask.{Masker, register, add_secret, is_registered, assert_ready}
use tmx.Mask.Registry.{register_lem}
use tmx.Mask.Routing.{all-keeps, assert_ready_lem}
use tmx.Flow.{SecretValue, literal, source, Task}
use tmx.Runner.Names.{name_of}
use tmx.Runner.Context.{or_default}
use tmx.Runner.Session.{Ports, Session, Run, pure, lift, ◌>>=◌}
use tmx.Runner.Hoare.{reject_if_lem, Holds, Post, Keeps, bind-Keeps, pure-Keeps, lift-Keeps}
use tmx.Runner.Loop.Safety.{IsGuarded}

abbrev pub unknown_secret : Text → Task → RunError
unknown_secret requested task =
    with_task
      (resolution_error "unknown_secret"
        (format "task requested secret {requested:?} not defined in context" (text requested ∷ [])))
      (name_of task)

abbrev pub secret_value_empty : Text → Task → RunError
secret_value_empty requested task =
    with_task
      (resolution_error "secret_value_empty" (
        format "task requested secret {requested:?} resolved to an empty value"
          (text requested ∷ [])))
      (name_of task)

module _ {W : Type 0} where
  abbrev pub registered : Text → Session W → Result Masker → Result (Unit {0}) × Session W
  registered value s (ok m) =
      (ok tt, record s { masker = m; resolved_secrets = s.resolved_secrets ++ value ∷ [] })
  registered value s (err e) = (err e, s)
  registered value s panic = (panic, s)

  -- `masker.register` and `resolved_secrets.push`
  unfoldable pub register_secret : Text → Run W (Unit {0})
  register_secret value = λ s. registered value s (register value s.masker)

  unfoldable pub answered : {A : Type 0} → (W → Result A × W) → Run W A
  answered port = λ s. let (r, w) = port s.world in (r, record s { world = w })

  unfoldable pub secret_value : Ports W → SecretValue → Run W Text
  secret_value ports (literal value) = pure value
  secret_value ports (source s) = answered (ports.resolve_secret s)

  unfoldable pub resolve_names :
      Ports W → Task → IndexMap SecretValue → List Text → Fields → Run W Fields
  resolve_names ports task defs [] fs = pure fs
  resolve_names ports task defs (requested ∷ names) fs = do
    def ← lift (ok_or (find requested defs) (unknown_secret requested task))
    value ← secret_value ports def
    _ ← lift (reject_if (is_empty value) (secret_value_empty requested task))
    _ ← register_secret value
    resolve_names ports task defs names (insert requested (string value) fs)

  unfoldable pub resolve_secrets : Ports W → Task → IndexMap SecretValue → Run W Value
  resolve_secrets ports task defs = do
    fs ← resolve_names ports task defs (or_default [] task.secrets) no_fields
    pure (object fs)

pub register_id : (v : Text) (m m' : Masker) → register v m ≡ ok m' → m'.id ≡ m.id
unfolding register add_secret
register_id v m m' e = ground arith

all_snoc :
    (p : Text → Bool) (xs : List Text) (x : Text)
    → all p xs ≡ true
    → p x ≡ true
    → all p (xs ++ x ∷ []) ≡ true
all_snoc p [] x h k = ground (arith, k)
all_snoc p (y ∷ ys) x h k = ground (arith, all_snoc p ys x, k)

module _ {W : Type 0} (ports : Ports W)
    (honest : (s : _) (w : W) → Holds (λ _. Unit) (ports.resolve_secret s w).0) where
  abbrev Guarded : Session W → Type 0
  Guarded = IsGuarded

  registered-Post :
      (value : Text) (s : Session W) (m : Masker)
      → Guarded s
      → (m.id == 0) ≡ false
      → is_empty value ≡ false
      → assert_ready m (s.resolved_secrets ++ value ∷ []) ≡ ok tt
      → Post Guarded (λ _. Unit) (registered value s (ok m))
  unfolding Post Holds
  registered-Post value s m i own full ready = (
    record {
      own = own;
      ready = ready;
      full = All-append (λ t. is_empty t ≡ false) s.resolved_secrets _ i.full (full, tt);
      sealed = i.sealed;
    },
    tt,
  )

  register_secret-Keeps :
      (value : Text) → is_empty value ≡ false → Keeps Guarded (λ _. Unit) (register_secret value)
  unfolding Keeps register_secret
  register_secret-Keeps value full = λ s i.
      let (m, is, has) = register_lem value s.masker in
      let known : all (is_registered s.masker) s.resolved_secrets ≡ true =
        ground (arith, i.ready, assert_ready_lem s.masker s.resolved_secrets) in
      let kept = all-keeps s.masker m s.resolved_secrets (λ t h. ground (arith, has t, h)) known in
      let new : is_registered m value ≡ true =
        ground (arith, has value, full, text_eq_refl value) in
      let both = all_snoc (is_registered m) s.resolved_secrets value kept new in
      let ready : assert_ready m (s.resolved_secrets ++ value ∷ []) ≡ ok tt =
        ground (arith, assert_ready_lem m (s.resolved_secrets ++ value ∷ []), both) in
      subst (λ r. Post Guarded (λ _. Unit) (registered value s r)) (sym is)
        (registered-Post value s m i (ap (λ n. n == 0) (register_id value s.masker m is) ∙ i.own)
          full ready)

  answered-Keeps :
      {A : Type 0} (port : W → Result A × W)
      → ((w : W) → Holds (λ _. Unit) (port w).0)
      → Keeps Guarded (λ _. Unit) (answered port)
  unfolding Keeps Post answered
  answered-Keeps port h =
      λ s i. (record { own = i.own; ready = i.ready; full = i.full; sealed = i.sealed }, h s.world)

  secret_value-Keeps : (def : SecretValue) → Keeps Guarded (λ _. Unit) (secret_value ports def)
  unfolding secret_value
  secret_value-Keeps (literal value) = pure-Keeps Guarded _ value tt
  secret_value-Keeps (source s) = answered-Keeps (ports.resolve_secret s) (honest s)

  ok_or_lem : {A : Type 0} (o : Option A) (e : RunError) → Holds (λ _. Unit) (ok_or o e)
  unfolding Holds
  ok_or_lem none e = tt
  ok_or_lem (some a) e = tt

  resolve_names-Keeps :
      (task : Task) (defs : IndexMap SecretValue) (names : List Text) (fs : Fields)
      → Keeps Guarded (λ _. Unit) (resolve_names ports task defs names fs)
  unfolding resolve_names
  resolve_names-Keeps task defs [] fs = pure-Keeps Guarded _ fs tt
  resolve_names-Keeps task defs (requested ∷ names) fs =
      bind-Keeps Guarded (λ _. Unit) _ _ _
        (lift-Keeps Guarded _ _ (ok_or_lem (find requested defs) (unknown_secret requested task)))
        (λ def _.
          bind-Keeps Guarded (λ _. Unit) _ _ _ (secret_value-Keeps def)
            (λ value _.
              bind-Keeps Guarded (λ _. is_empty value ≡ false) _ _ _
                (lift-Keeps Guarded _ _
                  (reject_if_lem (is_empty value) (secret_value_empty requested task)))
                (λ _ full.
                  bind-Keeps Guarded (λ _. Unit) _ _ _ (register_secret-Keeps value full)
                    (λ _ _.
                      resolve_names-Keeps task defs names (insert requested (string value) fs)))))

  pub resolve_secrets-Keeps :
      (task : Task) (defs : IndexMap SecretValue)
      → Keeps IsGuarded (λ _. Unit) (resolve_secrets ports task defs)
  unfolding resolve_secrets
  resolve_secrets-Keeps task defs =
      bind-Keeps Guarded (λ _. Unit) _ _ _
        (resolve_names-Keeps task defs (or_default [] task.secrets) no_fields)
        (λ fs _. pure-Keeps Guarded _ (object fs) tt)
