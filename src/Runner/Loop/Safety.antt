-- ===== src/Runner/Loop/Safety.antt =====
-- The parts of the task loop: none of their assertions fails, and each task leaves one result.
use tmx.Base.{
  ◌≡◌, refl, sym, subst, ◌≢◌, Bool, true, false, not, ◌||◌, Option, none, some, List, [], ◌∷◌, ◌++◌,
  arith, Text, bytes, is_empty, All, All-append, ◌==◌,
}
use tmx.Json.{Value, no_fields, field, object, is_object, object_of}
use tmx.Error.{Result, ok, err, panic, RunError, Message, plain}
use tmx.Model.{TaskStatus, TaskResult, Event, task_finish, task_error}
use tmx.Mask.{
  Masked, Masker, assert_ready, redact_event, redact_fields, redact_output, redact_error,
  redact_value, redact_line, into_owned, scrub_str, scrub_value,
}
use tmx.Merge.{StateBuilder, Serializer, merge, commit}
use tmx.Merge.Depth.{check_merge_depth_lem}
use tmx.Cancel.{CancelReason, cancel_reason_of}
use tmx.Flow.{Task}
use tmx.Runner.Session.{
  Ports, Emission, Session, Run, pure, hand_over, sealed_event, emit_event, continue, ◌>>=◌,
}
use tmx.Runner.Hoare.{no_panic_lem, Holds, Post, Keeps, bind-Keeps, pure-Keeps}
use tmx.Runner.Loop.{
  RunConfig, StepOutcome, skipped, produced, Stop, go, failure, cancelled, Progress, Current,
  record_slot, fail_task, same_value, previous_value, after_merge, after_error, after_step, push,
  task_result, note_change, or_false,
}

-- The event is the redaction of an event, by a masker that holds every secret which the call that
-- handed it over had resolved by then.
pub record IsSealed (e : Emission) : Type 0 where
  pub masker : Masker
  pub render : Message → Text
  pub original : Event
  pub ready : assert_ready masker e.known ≡ ok tt
  pub redacted : redact_event render masker original ≡ ok e.event

-- The masker has an identity and holds every resolved secret, none of which is empty, and all that went
-- to the sink was sealed.
pub record IsGuarded {W : Type 0} (s : Session W) : Type 0 where
  pub own : (s.masker.id == 0) ≡ false
  pub ready : assert_ready s.masker s.resolved_secrets ≡ ok tt
  pub full : All (λ t. is_empty t ≡ false) s.resolved_secrets
  pub sealed : All IsSealed s.emitted

-- What the task has left: an object as the state, and one more result, of the task's name, whose status
-- is error where the loop stops.
abbrev pub Marks : Stop → TaskResult → Type 0
Marks go r = Unit
Marks _ r = r.status ≡ TaskStatus.error

unfoldable pub OneMore : List TaskResult → Text → Stop × Progress → Type 0
OneMore results name (stop, q) =
    (is_object q.builder.state ≡ true)
    × (r : TaskResult) × (q.results ≡ results ++ r ∷ [])
    × (r.name ≡ name)
    × Marks stop r

pub merge-is_object :
    (json : Serializer) (b : StateBuilder) (key : Text) (output : Value) (task : Text)
    → is_object b.state ≡ true
    → is_object (merge json b key output task).1.state ≡ true
unfolding merge commit
merge-is_object json b key output task h =
    let (fs, is) = object_of b.state h in ground (arith, is, check_merge_depth_lem output key task)

pub merge_safe :
    (json : Serializer) (b : StateBuilder) (key : Text) (output : Value) (task : Text)
    → is_empty key ≡ false
    → is_object b.state ≡ true
    → (merge json b key output task).0 ≢ panic
unfolding merge commit
merge_safe json b key output task k h =
    let (fs, is) = object_of b.state h in ground (arith, is, check_merge_depth_lem output key task)

pub redact_event-seals :
    (render : Message → Text) (m : Masker) (event : Event)
    → (m.id == 0) ≡ false
    → (sealed : Masked Event) × (redact_event render m event ≡ ok sealed) × (sealed.origin ≡ m.id)
unfolding redact_event redact_fields redact_output redact_error redact_value redact_line
redact_event-seals render m (task_finish name status ms none) h =
    (record { value = task_finish name status ms none; origin = m.id }, ground (arith, h), refl)
redact_event-seals render m (task_finish name status ms (some v)) h = (
  record {
    value = task_finish name status ms (some (into_owned v (scrub_value m v)));
    origin = m.id;
  },
  ground (arith, h),
  refl,
)
redact_event-seals render m (task_error name e) h =
    let line = into_owned (render e.message) (scrub_str m (render e.message)) in
    (
      record { value = task_error name (record e { message = plain line }); origin = m.id },
      ground (arith, h),
      refl,
    )
redact_event-seals render m other h =
    (record { value = other; origin = m.id }, ground (arith, h), refl)

module _ {W : Type 0} (ports : Ports W)
    (quiet : (e : Masked Event) (w : W) → (ports.emit e w).0 ≢ panic) where
  abbrev Guarded : Session W → Type 0
  Guarded = IsGuarded

  abbrev Any : {A : Type 0} → A → Type 0
  Any a = Unit

  sealed_event_lem :
      (event : Event) (s : Session W)
      → IsGuarded s
      → (e : Masked Event) × (redact_event ports.render s.masker event ≡ ok e)
        × (sealed_event ports event s ≡ (ok e, s))
  unfolding sealed_event
  sealed_event_lem event s i =
      let (e, is, own) = redact_event-seals ports.render s.masker event i.own in
      (e, is, ground (arith, i.ready, is))

  handed_over :
      (event : Event) (s : Session W) (e : Masked Event)
      → IsGuarded s
      → redact_event ports.render s.masker event ≡ ok e
      → Post Guarded (λ _. Unit) (hand_over ports e s)
  unfolding Post hand_over
  handed_over event s e i is = (
    record {
      own = i.own;
      ready = i.ready;
      full = i.full;
      sealed = All-append IsSealed s.emitted _ i.sealed (
        record {
          masker = s.masker;
          render = ports.render;
          original = event;
          ready = i.ready;
          redacted = is;
        },
        tt,
      );
    },
    no_panic_lem (ports.emit e s.world).0 (quiet e s.world),
  )

  -- An event reaches the sink sealed by the masker, and the masker's assertion holds.
  pub emit_event-Keeps : (event : Event) → Keeps Guarded (λ _. Unit) (emit_event ports event)
  unfolding emit_event Keeps ◌>>=◌
  emit_event-Keeps event = λ s i.
      let (e, is, sealed) = sealed_event_lem event s i in
      subst (λ x. Post Guarded (λ _. Unit) (continue (hand_over ports) x)) (sym sealed)
        (handed_over event s e i is)

  -- What follows an event keeps the invariant with it.
  then-Keeps :
      {B : Type 0} (Q : B → Type 0) (event : Event) (m : Run W B)
      → Keeps Guarded Q m
      → Keeps Guarded Q (emit_event ports event >>= λ _. m)
  then-Keeps Q event m h =
      bind-Keeps Guarded (λ _. Unit) Q (emit_event ports event) (λ _. m) (emit_event-Keeps event)
        (λ _ _. h)

  -- The end of a round that leaves the result `r`.
  ends-Keeps :
      (stop : Stop) (r : TaskResult) (p : Progress)
      → is_object p.builder.state ≡ true
      → Marks stop r
      → Keeps Guarded (OneMore p.results r.name) (pure (stop, push r p))
  ends-Keeps stop r p obj m =
      let q : OneMore p.results r.name (stop, push r p) =
        unfold OneMore in (obj, r, refl, refl, m) in
      pure-Keeps Guarded (OneMore p.results r.name) (stop, push r p) q

  record_slot-Keeps :
      (c : Current) (e : RunError) (slot : Value) (x : Result (Unit {0}) × StateBuilder)
      (p : Progress)
      → x.0 ≢ panic
      → is_object x.1.state ≡ true
      → Keeps Guarded (OneMore p.results c.name) (record_slot ports c e slot x p)
  unfolding record_slot
  record_slot-Keeps c e slot (ok _, b) p safe obj =
      ends-Keeps go (task_result c TaskStatus.error (some slot) (some e)) (record p { builder = b })
        obj tt
  record_slot-Keeps c e slot (err f, b) p safe obj =
      ends-Keeps (failure f) (task_result c TaskStatus.error none (some e))
        (record p { builder = b }) obj refl
  record_slot-Keeps c e slot (panic, b) p safe obj = absurd (safe refl)

  fail_task-Keeps :
      (c : Current) (continue_on_error : Bool) (e : RunError) (p : Progress)
      → is_empty c.key ≡ false
      → is_object p.builder.state ≡ true
      → Keeps Guarded (OneMore p.results c.name) (fail_task ports c continue_on_error e p)
  unfolding fail_task
  fail_task-Keeps c true e p k obj =
      let slot = object (field (bytes "error") (ports.to_value e) no_fields) in
      then-Keeps _ _ _ (
        record_slot-Keeps c e slot (merge ports.json p.builder c.key slot c.name) p
          (merge_safe ports.json p.builder c.key slot c.name k obj)
          (merge-is_object ports.json p.builder c.key slot c.name obj))
  fail_task-Keeps c false e p k obj =
      then-Keeps _ _ _
        (ends-Keeps (failure e) (task_result c TaskStatus.error none (some e)) p obj refl)

  module _ (config : RunConfig) (change_hook : Run W (Unit {0}))
      (hook_safe : Keeps Guarded (λ _. Unit) change_hook) where
    after_merge-Keeps :
        (c : Current) (output : Value) (did_change : Bool) (x : Result (Unit {0}) × StateBuilder)
        (p : Progress)
        → is_empty c.key ≡ false
        → x.0 ≢ panic
        → is_object x.1.state ≡ true
        → Keeps Guarded
            (OneMore p.results c.name)
            (after_merge ports config change_hook c output did_change x p)
    unfolding after_merge
    after_merge-Keeps c output true (ok _, b) p k safe obj = then-Keeps _ _ _ (
        bind-Keeps Guarded (λ _. Unit) _ _ _ hook_safe
          (λ _ _.
            ends-Keeps go (task_result c TaskStatus.ok (some output) none)
              (note_change ports true c.name (record p { builder = b })) obj tt))
    after_merge-Keeps c output false (ok _, b) p k safe obj = then-Keeps _ _ _ (
        bind-Keeps Guarded (λ _. Unit) _ _ _ (pure-Keeps Guarded _ tt tt)
          (λ _ _.
            ends-Keeps go (task_result c TaskStatus.ok (some output) none)
              (record p { builder = b }) obj tt))
    after_merge-Keeps c output did_change (err f, b) p k safe obj =
        fail_task-Keeps c false f (record p { builder = b }) k obj
    after_merge-Keeps c output did_change (panic, b) p k safe obj = absurd (safe refl)

    after_error-Keeps :
        (c : Current) (continue_on_error : Bool) (e : RunError) (reason : Option CancelReason)
        (p : Progress)
        → is_empty c.key ≡ false
        → is_object p.builder.state ≡ true
        → Keeps Guarded
            (OneMore p.results c.name)
            (after_error ports config change_hook c continue_on_error e reason p)
    unfolding after_error
    after_error-Keeps c continue_on_error e (some reason) p k obj =
        then-Keeps _ _ _
          (ends-Keeps (cancelled reason) (task_result c TaskStatus.error none (some e)) p obj refl)
    after_error-Keeps c continue_on_error e none p k obj =
        fail_task-Keeps c continue_on_error e p k obj

    pub after_step-Keeps :
        (c : Current) (task : Task) (outcome : Result StepOutcome) (p : Progress)
        → is_empty c.key ≡ false
        → is_object p.builder.state ≡ true
        → Holds (λ _. Unit) outcome
        → Keeps Guarded
            (OneMore p.results c.name)
            (after_step ports config change_hook c task outcome p)
    unfolding after_step Holds
    after_step-Keeps c task (ok skipped) p k obj h =
        then-Keeps _ _ _ (ends-Keeps go (task_result c TaskStatus.skipped none none) p obj tt)
    after_step-Keeps c task (ok (produced output)) p k obj h =
        let changed = not (same_value ports (previous_value ports c.key p.builder.state) output) in
        after_merge-Keeps c output changed (merge ports.json p.builder c.key output c.name) p k
          (merge_safe ports.json p.builder c.key output c.name k obj)
          (merge-is_object ports.json p.builder c.key output c.name obj)
    after_step-Keeps c task (err e) p k obj h =
        after_error-Keeps c (or_false task.continue_on_error || config.continue_on_error) e
          (cancel_reason_of e) p k obj
    after_step-Keeps c task panic p k obj h = absurd h
