-- ===== src/Runner/Recursion/Parts.antt =====
-- What the recursions rely on, and their parts: the dispatch, and a call under another masker.
use tmx.Base.{
  ℕ, ◌≤◌, ◌<◌, ◌≡◌, ◌≢◌, sym, ◌∙◌, ap, subst, true, false, List, [], ◌∷◌, arith, Text, All, length,
  is_empty, ltb, leb, ◌==◌, Bool-cases, inl, inr,
}
use tmx.Limits.{flow_depth_max, fanout_width_max, concurrency_max}
use tmx.Json.{Value}
use tmx.Error.{Result, ok, err, panic, RunError, assert}
use tmx.Model.{Event}
use tmx.Mask.{Masked, Masker, new, no_secrets, redact_value, assert_ready}
use tmx.Mask.Registry.{register_lem}
use tmx.Dispatch.Requests.Environment.{ok_injective}
use tmx.Mask.Routing.{register_all, register_all-ready}
use tmx.Flow.{EnvMap, SecretSource, FlowWith, EvalWith, TaskWith, Subject, ResolvedFlow}
use tmx.Interpolate.{Scope}
use tmx.Resolve.{resolve}
use tmx.Runner.Session.{Ports, Session, Run, pure, ask, continue, ◌>>=◌}
use tmx.Runner.Hoare.{
  Holds, Post, Keeps, bind-Keeps, pure-Keeps, lift-Keeps, ask-Keeps, weaken-Keeps,
}
use tmx.Runner.Loop.{RunConfig, StepOutcome}
use tmx.Runner.Loop.Safety.{IsGuarded}
use tmx.Runner.Lifecycle.Laws.{IsOutputKey}
use tmx.Runner.Secrets.{answered, register_id}
use tmx.Runner.Step.{leaf, map, eval}
use tmx.Runner.Step.Laws.{Allowed}
use tmx.Fanout.Safety.{NotPanic}
use tmx.Runner.Recursion.{
  Engine, restored, under, redacted, seeded_masker, dispatch_flow, dispatch_with,
}

-- The output keys that a resolved flow gives are not empty.
abbrev pub GivesKeys : ResolvedFlow → Type 0
GivesKeys f = All (λ t. IsOutputKey t.output) f.tasks

-- What is relied on: no call of a port panics, a loaded flow gives no empty output key, the counter of
-- the maskers does not come round to 0, and the
-- scheduler, the guard and `run_eval` keep what their callbacks keep and do not panic.
pub record IsReliable {W O F : Type 0} (engine : Engine W O F) (ports : Ports W) : Type 0 where
  pub emit : (e : Masked Event) (w : W) → (ports.emit e w).0 ≢ panic
  pub resolve_secret : (s : SecretSource) (w : W) → Holds (λ _. Unit) (ports.resolve_secret s w).0
  pub next_masker_id : (w : W) → ((ports.next_masker_id w).0 == 0) ≡ false
  pub call_adapter :
      (t : TaskWith) (n : Text) (s : Scope) (env : EnvMap) (w : W)
      → Holds (λ _. Unit) (engine.call_adapter t n s env w).0
  pub load_flow :
      (path : Text) (w : W) → Holds (λ f. Holds GivesKeys (resolve f)) (engine.load_flow path w).0
  pub validate_produces : (v w : Value) → engine.validate_produces v w ≢ panic
  pub scheduler :
      (n budget : ℕ) (run : ℕ → Run W Value)
      → n ≤ fanout_width_max
      → 1 ≤ budget
      → budget ≤ concurrency_max
      → ((i : ℕ) → i < n → Keeps IsGuarded (λ _. Unit) (run i))
      → Keeps IsGuarded (λ rs. (length rs ≡ n) × All NotPanic rs) (engine.scheduler n budget run)
  pub guard :
      (m : Run W StepOutcome)
      → Keeps IsGuarded (λ _. Unit) m
      → Keeps IsGuarded (λ _. Unit) (engine.guard m)
  pub run_eval :
      (ew : EvalWith) (s : Subject) (n : Text) (scope : Scope) (cap depth : ℕ)
      (run : ℕ → Value → ℕ → Run W Value)
      → depth ≤ flow_depth_max
      → ((i : ℕ) (v : Value) (d : ℕ) → Keeps IsGuarded (λ _. Unit) (run i v d))
      → Keeps IsGuarded (λ _. Unit) (engine.run_eval ew s n scope cap depth run)

register_all-id : (ss : List Text) (m m' : Masker) → register_all ss m ≡ ok m' → m'.id ≡ m.id
unfolding register_all
register_all-id [] m m' h = ap Masker.id (sym (ok_injective h))
register_all-id (s ∷ ss) m m' h =
    let (m₁, e, _) = register_lem s m in
    register_all-id ss m₁ m' (subst (λ r. (tmx.Error.◌>>=◌ r (register_all ss)) ≡ ok m') e h)
    ∙ register_id s m m₁ e

-- A masker that is new and seeded is ready for the secrets that it is seeded with.
seeded_lem :
    (id : ℕ) (ss : List Text)
    → (id == 0) ≡ false
    → All (λ s. is_empty s ≡ false) ss
    → Holds
        (λ m. ((m.id == 0) ≡ false) × (assert_ready m ss ≡ ok tt))
        (tmx.Error.◌>>=◌ (new id).0 (register_all ss))
unfolding new no_secrets Holds
seeded_lem id ss idle full =
    let start : Masker = record { substring = []; exact = []; id = id } in
    let (m, done, kept, ready) = register_all-ready ss start full in
    rw idle (rw done (ap (λ n. n == 0) (register_all-id ss start m done) ∙ idle, ready))

shallower :
    (depth : ℕ)
    → leb flow_depth_max depth ≡ false
    → (depth < flow_depth_max) × (ltb depth flow_depth_max ≡ true)
shallower depth h = ground (arith, h)

module _ {W O F : Type 0} (engine : Engine W O F) (config : RunConfig) (ports : Ports W)
    (run_id : Text) (reliable : IsReliable engine ports) where
  abbrev Guarded : Session W → Type 0
  Guarded = IsGuarded

  pub asks : {A : Type 0} (port : W → A × W) → Keeps Guarded (λ _. Unit) (ask port)
  asks port =
      ask-Keeps Guarded port
        (λ s w i. record { own = i.own; ready = i.ready; full = i.full; sealed = i.sealed })

  restored-Post :
      {A : Type 0} (s : Session W) (x : Result A × Session W)
      → Guarded s
      → Post Guarded (λ _. Unit) x
      → Post Guarded (λ _. Unit) (restored s x)
  unfolding Post
  restored-Post s (r, t) i (j, h) =
      (record { own = i.own; ready = i.ready; full = i.full; sealed = j.sealed }, h)

  under_lem :
      {A : Type 0} (m : Masker) (call : Run W A) (s : Session W)
      → (m.id == 0) ≡ false
      → assert_ready m s.resolved_secrets ≡ ok tt
      → Keeps Guarded (λ _. Unit) call
      → Guarded s
      → Post Guarded (λ _. Unit) (under m call s)
  unfolding under Keeps
  under_lem m call s idle ready h i = restored-Post s (call (record s { masker = m })) i (
      h (record s { masker = m })
        (record { own = idle; ready = ready; full = i.full; sealed = i.sealed }))

  continue-under :
      {A : Type 0} (call : Run W A) (x : Result Masker) (s : Session W)
      → Guarded s
      → Keeps Guarded (λ _. Unit) call
      → Holds (λ m. ((m.id == 0) ≡ false) × (assert_ready m s.resolved_secrets ≡ ok tt)) x
      → Post Guarded (λ _. Unit) (continue (λ m. under m call) (x, s))
  unfolding Holds
  continue-under call (ok m) s i h (idle, ready) = under_lem m call s idle ready h i
  continue-under call (err e) s i h k = unfold Post Holds in (i, tt)
  continue-under call panic s i h k = absurd k

  -- A call under a new masker that is seeded with the resolved secrets.
  pub seeded_call-Keeps :
      {A : Type 0} (id : ℕ) (call : Run W A)
      → (id == 0) ≡ false
      → Keeps Guarded (λ _. Unit) call
      → Keeps Guarded (λ _. Unit) (seeded_masker id >>= λ m. under m call)
  unfolding Keeps ◌>>=◌ seeded_masker
  seeded_call-Keeps id call idle h =
      λ s i. continue-under call _ s i h (seeded_lem id s.resolved_secrets idle i.full)

  pub drawn : Keeps Guarded (λ id. (id == 0) ≡ false) (ask ports.next_masker_id)
  unfolding Keeps Post Holds ask
  drawn = λ s i. (
    record { own = i.own; ready = i.ready; full = i.full; sealed = i.sealed },
    reliable.next_masker_id s.world,
  )

  pub answers :
      {A : Type 0} (P : A → Type 0) (port : W → Result A × W)
      → ((w : W) → Holds P (port w).0)
      → Keeps Guarded P (answered port)
  unfolding Keeps Post answered
  answers P port h =
      λ s i. (record { own = i.own; ready = i.ready; full = i.full; sealed = i.sealed }, h s.world)

  pub redacted-Keeps : (v : Value) → Keeps Guarded (λ _. Unit) (redacted v)
  unfolding Keeps Post redacted redact_value Holds
  redacted-Keeps v = λ s i. (i, rw i.own tt)

  pub dispatch_flow-Holds :
      (fw : FlowWith) (name : Text) (depth : ℕ)
      → Holds
          (λ d. (depth < flow_depth_max) × Allowed depth d)
          (dispatch_flow engine config ports run_id fw name depth)
  unfolding Holds
  dispatch_flow-Holds fw name depth = elim (Bool-cases (leb flow_depth_max depth)) [
    | inl e ↦ rw e tt
    | inr e ↦ let (shallow, test) = shallower depth e in rw e (rw test (shallow, shallow))
  ]

  pub call_adapter-Keeps :
      (t : TaskWith) (n : Text) (s : Scope) (env : EnvMap)
      → Keeps Guarded (λ _. Unit) (answered (engine.call_adapter t n s env))
  call_adapter-Keeps t n s env = answers (λ _. Unit) _ (reliable.call_adapter t n s env)

  leaf-Keeps :
      (t : TaskWith) (n : Text) (s : Scope) (env : EnvMap) (depth : ℕ)
      → Keeps Guarded
          (Allowed depth)
          (answered (engine.call_adapter t n s env) >>= λ o. pure (leaf o))
  leaf-Keeps t n s env depth =
      bind-Keeps Guarded (λ _. Unit) (Allowed depth) _ _ (call_adapter-Keeps t n s env)
        (λ o _. pure-Keeps Guarded (Allowed depth) (leaf o) tt)

  pub dispatch_with-Keeps :
      (t : TaskWith) (n : Text) (s : Scope) (env : EnvMap) (depth : ℕ)
      → Keeps Guarded (Allowed depth) (dispatch_with engine config ports run_id t n s env depth)
  unfolding dispatch_with
  dispatch_with-Keeps (TaskWith.map mw t) n s env depth = pure-Keeps Guarded _ (map (mw, t)) tt
  dispatch_with-Keeps (TaskWith.eval ew t) n s env depth = pure-Keeps Guarded _ (eval (ew, t)) tt
  dispatch_with-Keeps (TaskWith.flow fw) n s env depth =
      weaken-Keeps Guarded _ (Allowed depth) _ (λ _ h. h.1)
        (lift-Keeps Guarded _ _ (dispatch_flow-Holds fw n depth))
  dispatch_with-Keeps (TaskWith.exec w) n s env depth = leaf-Keeps (TaskWith.exec w) n s env depth
  dispatch_with-Keeps (TaskWith.run w) n s env depth = leaf-Keeps (TaskWith.run w) n s env depth
  dispatch_with-Keeps (TaskWith.fetch w) n s env depth = leaf-Keeps (TaskWith.fetch w) n s env depth
  dispatch_with-Keeps (TaskWith.file w) n s env depth = leaf-Keeps (TaskWith.file w) n s env depth
  dispatch_with-Keeps (TaskWith.store w) n s env depth = leaf-Keeps (TaskWith.store w) n s env depth
  dispatch_with-Keeps (TaskWith.chat_completion w) n s env depth =
      leaf-Keeps (TaskWith.chat_completion w) n s env depth
  dispatch_with-Keeps (TaskWith.assert w) n s env depth =
      leaf-Keeps (TaskWith.assert w) n s env depth
