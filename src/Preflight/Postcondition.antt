-- ===== src/Preflight/Postcondition.antt =====
-- What a flow is like once preflight has let it through.
use tmx.Base.{◌≡◌, refl, ap, subst, Bool, true, false, ◌&&◌, Option, none, some, arith, Text}
use tmx.Error.{Result, ok, err, panic}
use tmx.Flow.{Ref, inline, reference, Flow, Environment, Context, Hooks, Hook, ResolvedFlow}
use tmx.Resolve.{resolve, inlined, desugar_tasks}
use tmx.Runner.Names.{validate_task_names, validate_task_names_lem, well_named}
use tmx.Preflight.Capabilities.{AvailableCapabilities, has}
use tmx.Preflight.Coverage.{flow_covered, check_capabilities_lem}
use tmx.Preflight.Limits.{check_structure_and_limits}
use tmx.Preflight.Bounds.{is_bounded, check_structure_and_limits_lem}
use tmx.Preflight.Assembly.{Sources, Loading, Load, ◌>>=◌, pure, lift, go_on}
use tmx.Preflight.References.{
  resolve_hook_body, resolve_optional_hook, chase_bootstrap, resolve_hooks, chase_hooks,
  resolve_references,
}
use tmx.Preflight.Orchestration.{PreflightTarget, Preflighted, check_resolved, preflight}

abbrev body_is_inline : Option Hook → Bool
body_is_inline (some (Hook.reference target)) = false
body_is_inline (some (Hook.use_ref target inputs)) = false
body_is_inline _ = true

abbrev hooks_are_inline : Option Hooks → Bool
hooks_are_inline none = true
hooks_are_inline (some h) =
    body_is_inline h.create
    && body_is_inline h.change
    && body_is_inline h.destroy
    && body_is_inline h.error

abbrev context_is_inline : Option Context → Bool
context_is_inline none = true
context_is_inline (some c) = hooks_are_inline c.hooks

abbrev environment_is_inline : Option Environment → Bool
environment_is_inline none = true
environment_is_inline (some e) = body_is_inline e.bootstrap

-- No hook and no bootstrap of the flow is a reference.
unfoldable pub is_inline : ResolvedFlow → Bool
is_inline flow = environment_is_inline flow.environment && context_is_inline flow.context

-- A reference in place of an inline body is refused later, by `resolve`.
abbrev ref_context : Option (Ref Context) → Bool
ref_context (some (inline c)) = hooks_are_inline c.hooks
ref_context _ = true

abbrev ref_environment : Option (Ref Environment) → Bool
ref_environment (some (inline e)) = body_is_inline e.bootstrap
ref_environment _ = true

abbrev Chased : Flow → Type 0
Chased flow = (ref_environment flow.environment ≡ true) × (ref_context flow.context ≡ true)

unfoldable Good : {A : Type 0} → (A → Type 0) → Result A → Type 0
Good P (ok a) = P a
Good P (err e) = Unit
Good P panic = Unit

Good-any : {A : Type 0} (r : Result A) → Good (λ _. Unit) r
unfolding Good
Good-any (ok a) = tt
Good-any (err e) = tt
Good-any panic = tt

-- What the call gives satisfies P.
unfoldable Gives : {W A : Type 0} → (A → Type 0) → Load W A → Type 0
Gives {W} P m = (s : Loading W) → Good P (m s).0

pure-Gives : (W : Type 0) {A : Type 0} (P : A → Type 0) (a : A) → P a → Gives P (pure {W = W} a)
unfolding Gives pure Good
pure-Gives W P a h s = h

lift-Gives :
    (W : Type 0) {A : Type 0} (P : A → Type 0) (r : Result A) → Good P r → Gives P (lift {W = W} r)
unfolding Gives lift Good
lift-Gives W P r h s = h

module _ {W : Type 0} where
  Good-go_on :
      {A B : Type 0} (Q : A → Type 0) (P : B → Type 0) (f : A → Load W B) (r : Result A × Loading W)
      → Good Q r.0
      → ((a : A) → Q a → Gives P (f a))
      → Good P (go_on f r).0
  unfolding Gives Good
  Good-go_on Q P f (ok a, s) h k = k a h s
  Good-go_on Q P f (err e, s) h k = tt
  Good-go_on Q P f (panic, s) h k = tt

  bind-Gives :
      {A B : Type 0} (Q : A → Type 0) (P : B → Type 0) (m : Load W A) (f : A → Load W B)
      → Gives Q m
      → ((a : A) → Q a → Gives P (f a))
      → Gives P (m >>= f)
  unfolding Gives ◌>>=◌
  bind-Gives Q P m f h k s = Good-go_on Q P f (m s) (h s) k

  any-Gives : {A : Type 0} (m : Load W A) → Gives (λ _. Unit) m
  unfolding Gives
  any-Gives m s = Good-any (m s).0

  then-Gives :
      {A B : Type 0} (P : B → Type 0) (m : Load W A) (f : A → Load W B)
      → ((a : A) → Gives P (f a))
      → Gives P (m >>= f)
  then-Gives P m f k = bind-Gives (λ _. Unit) P m f (any-Gives m) (λ a _. k a)

ok-Good : {A : Type 0} (P : A → Type 0) (a : A) → P a → Good P (ok a)
unfolding Good
ok-Good P a h = h

report-Gives :
    {W A : Type 0} (P : A → Type 0) (f : Loading W → A)
    → ((s : Loading W) → P (f s))
    → Gives P (λ (s : Loading W). (ok (f s), s))
unfolding Gives Good
report-Gives P f h s = h s

Good-self : {A : Type 0} (r : Result A) → Good (λ a. r ≡ ok a) r
unfolding Good
Good-self (ok a) = refl
Good-self (err e) = tt
Good-self panic = tt

module _ {W : Type 0} (sources : Sources W) where
  hook-Gives :
      (h : Option Hook) → Gives (λ b. body_is_inline b ≡ true) (resolve_optional_hook sources h)
  unfolding resolve_optional_hook resolve_hook_body
  hook-Gives none = pure-Gives _ _ _ refl
  hook-Gives (some (Hook.tasks ts)) =
      bind-Gives (λ b. body_is_inline (some b) ≡ true) _ _ _ (pure-Gives _ _ _ refl)
        (λ b h. pure-Gives _ _ _ h)
  hook-Gives (some (Hook.reference target)) =
      bind-Gives (λ b. body_is_inline (some b) ≡ true) _ _ _
        (then-Gives _ _ _ (λ ts. pure-Gives _ _ _ refl)) (λ b h. pure-Gives _ _ _ h)
  hook-Gives (some (Hook.use_ref target inputs)) =
      bind-Gives (λ b. body_is_inline (some b) ≡ true) _ _ _
        (then-Gives _ _ _ (λ ts. pure-Gives _ _ _ refl)) (λ b h. pure-Gives _ _ _ h)

  hooks-Gives :
      (h : Option Hooks) → Gives (λ b. hooks_are_inline b ≡ true) (resolve_hooks sources h)
  unfolding resolve_hooks
  hooks-Gives none = pure-Gives _ _ _ refl
  hooks-Gives (some h) = bind-Gives _ _ _ _ (hook-Gives h.create) (λ a is_a.
      bind-Gives _ _ _ _ (hook-Gives h.change) (λ b is_b.
        bind-Gives _ _ _ _ (hook-Gives h.destroy) (λ c is_c.
          bind-Gives _ _ _ _ (hook-Gives h.error)
            (λ d is_d. pure-Gives _ _ _ (ground (arith, is_a, is_b, is_c, is_d))))))

  context-Gives :
      (c : Option (Ref Context)) → Gives (λ b. ref_context b ≡ true) (chase_hooks sources c)
  unfolding chase_hooks
  context-Gives none = pure-Gives _ _ _ refl
  context-Gives (some (reference target)) = pure-Gives _ _ _ refl
  context-Gives (some (inline c)) =
      bind-Gives _ _ _ _ (hooks-Gives c.hooks) (λ h is. pure-Gives _ _ _ is)

  environment-Gives :
      (e : Option (Ref Environment))
      → Gives (λ b. ref_environment b ≡ true) (chase_bootstrap sources e)
  unfolding chase_bootstrap
  environment-Gives none = pure-Gives _ _ _ refl
  environment-Gives (some (reference target)) = pure-Gives _ _ _ refl
  environment-Gives (some (inline e)) =
      bind-Gives _ _ _ _ (hook-Gives e.bootstrap) (λ h is. pure-Gives _ _ _ is)

  references-Gives : (flow : Flow) → Gives Chased (resolve_references sources flow)
  unfolding resolve_references
  references-Gives flow = then-Gives _ _ _ (λ e. then-Gives _ _ _ (λ c.
      bind-Gives _ _ _ _ (environment-Gives e) (λ e' is_e.
        bind-Gives _ _ _ _ (context-Gives c) (λ c' is_c. pure-Gives _ _ _ (is_e, is_c)))))

Good-bind :
    {A B : Type 0} (Q : A → Type 0) (P : B → Type 0) (r : Result A) (f : A → Result B)
    → Good Q r
    → ((a : A) → Q a → Good P (f a))
    → Good P (tmx.Error.◌>>=◌ r f)
unfolding Good
Good-bind Q P (ok a) f h k = k a h
Good-bind Q P (err e) f h k = tt
Good-bind Q P panic f h k = tt

environment-Good :
    (message : Text) (e : Option (Ref Environment))
    → ref_environment e ≡ true
    → Good (λ o. environment_is_inline o ≡ true) (inlined message e)
unfolding Good
environment-Good message none h = refl
environment-Good message (some (inline e)) h = h
environment-Good message (some (reference target)) h = tt

context-Good :
    (message : Text) (c : Option (Ref Context))
    → ref_context c ≡ true
    → Good (λ o. context_is_inline o ≡ true) (inlined message c)
unfolding Good
context-Good message none h = refl
context-Good message (some (inline c)) h = h
context-Good message (some (reference target)) h = tt

&&-intro : (a b : Bool) → a ≡ true → b ≡ true → a && b ≡ true
&&-intro a b h k = ground (arith, h, k)

resolve-Good : (flow : Flow) → Chased flow → Good (λ r. is_inline r ≡ true) (resolve flow)
unfolding resolve is_inline
resolve-Good flow h = Good-bind _ _ _ _ (environment-Good _ flow.environment h.0) (λ e is_e.
    Good-bind _ _ _ _ (context-Good _ flow.context h.1) (λ c is_c.
      Good-bind _ _ _ _ (Good-any (desugar_tasks flow.tasks))
        (λ ts _. ok-Good _ _ (&&-intro (environment_is_inline e) (context_is_inline c) is_e is_c))))

-- What a flow that passed is like.
abbrev Passed : AvailableCapabilities → Preflighted → Type 0
Passed available p =
    (is_bounded p.flow ≡ true)
    × (flow_covered (has available) p.flow ≡ true)
    × (is_inline p.flow ≡ true)

bounded_of :
    (flow : ResolvedFlow) → check_structure_and_limits flow ≡ ok tt → is_bounded flow ≡ true
bounded_of flow h = ground (arith, (check_structure_and_limits_lem flow).1, h)

resolved-Gives :
    {W : Type 0} (sources : Sources W) (flow : ResolvedFlow) (available : AvailableCapabilities)
    → is_inline flow ≡ true
    → Gives (Passed available) (check_resolved sources flow available)
unfolding check_resolved
resolved-Gives sources flow available is =
    bind-Gives _ _ _ _ (lift-Gives _ _ _ (Good-self _)) (λ u bounded.
      bind-Gives _ _ _ _ (lift-Gives _ _ _ (Good-self _)) (λ v covered.
        report-Gives (Passed available) _
          (λ s. (bounded_of flow bounded, (check_capabilities_lem flow available).0 covered, is))))

preflight-Gives :
    {W : Type 0} (sources : Sources W) (target : PreflightTarget)
    (available : AvailableCapabilities)
    → Gives (Passed available) (preflight sources target available)
unfolding preflight
preflight-Gives sources target available = then-Gives _ _ _ (λ artifacts. then-Gives _ _ _ (λ _.
    then-Gives _ _ _ (λ _. then-Gives _ _ _ (λ _. then-Gives _ _ _ (λ flow.
      bind-Gives _ _ _ _ (references-Gives sources flow) (λ chased is.
        bind-Gives _ _ _ _ (lift-Gives _ _ _ (resolve-Good chased is))
          (λ resolved inline_. resolved-Gives sources resolved available inline_)))))))

good_at : {A : Type 0} (P : A → Type 0) (r : Result A) (a : A) → r ≡ ok a → Good P r → P a
unfolding Good
good_at P r a e h = subst (Good P) e h

named_of : (flow : ResolvedFlow) → is_bounded flow ≡ true → well_named flow.tasks ≡ true
unfolding is_bounded
named_of flow h = ground (arith, h)

-- A flow that preflight lets through is within the limits; every adapter is wired that its tasks, the
-- tasks in its maps and evals, the scorers, the hooks, the bootstrap, the structured secrets of its
-- context and its provider need, where a flow task and the context of a task count as needing
-- nothing; no hook and no bootstrap of it is left a reference; and the runner's own check of the names
-- passes.
pub preflight_lem :
    {W : Type 0} (sources : Sources W) (target : PreflightTarget)
    (available : AvailableCapabilities) (s s' : Loading W) (p : Preflighted)
    → preflight sources target available s ≡ (ok p, s')
    → (is_bounded p.flow ≡ true)
      × (flow_covered (has available) p.flow ≡ true)
      × (is_inline p.flow ≡ true)
      × (validate_task_names p.flow ≡ ok tt)
preflight_lem sources target available s s' p h =
    let r = preflight sources target available s in
    let (bounded, covered, is) =
      good_at (Passed available) _ p (ap (λ x. x.0) h)
        (unfold Gives in preflight-Gives sources target available s) in
    (bounded, covered, is, ((validate_task_names_lem p.flow).0).1 (named_of p.flow bounded))
