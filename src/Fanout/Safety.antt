-- ===== src/Fanout/Safety.antt =====
-- A fan-out keeps what its parts keep, and gives one slot for each item.
use tmx.Base.{
  ℕ, zero, suc, ◌≤◌, ◌<◌, ◌≡◌, ◌≢◌, refl, ◌∙◌, ap, Bool, true, false, Option, none, some, List, [],
  ◌∷◌, arith, Text, All, length, get_elem?, ltb, leb, ==_iff, Bool-cases, inl, inr,
}
use tmx.Limits.{fanout_width_max, concurrency_max, flow_depth_max}
use tmx.Json.{Value, array, items_of, as_array}
use tmx.Error.{Result, ok, err, panic, RunError, assert, reject_if, ok_or}
use tmx.Flow.{MapWith, InnerTask, inner, TaskWith}
use tmx.Interpolate.{Numbers, Scope}
use tmx.Interpolate.Outcome.{Yields, Any}
use tmx.Dispatch.Template.{Rendering, interp_value}
use tmx.Dispatch.Template.Laws.{interp_value-Yields}
use tmx.Runner.Session.{Session, Run}
use tmx.Runner.Hoare.{
  Holds, Post, Keeps, bind-Keeps, pure-Keeps, lift-Keeps, weaken-Keeps, assert-Keeps, reject_if_lem,
}
use tmx.Fanout.Map.{
  Scheduler, or_one, or_false, effective_budget, inner_depth, bind_item, collect, job, fan_out,
  run_map,
}

abbrev pub NotPanic : Result Value → Type 0
NotPanic r = r ≢ panic

get_elem?-some :
    (items : List Value) (i : ℕ) → i < length items → (v : Value) × (get_elem? items i ≡ some v)
get_elem?-some [] i h = absurd (omega arith)
get_elem?-some (v ∷ items) zero h = (v, refl)
get_elem?-some (v ∷ items) (suc i) h = get_elem?-some items i (omega arith)

self-Holds : {A : Type 0} (r : Result A) → r ≢ panic → Holds (λ a. r ≡ ok a) r
unfolding Holds
self-Holds (ok a) h = refl
self-Holds (err e) h = tt
self-Holds panic h = h refl

ok_or-Holds : {A : Type 0} (o : Option A) (e : RunError) → Holds (λ a. o ≡ some a) (ok_or o e)
unfolding Holds
ok_or-Holds none e = tt
ok_or-Holds (some a) e = refl

pub Yields-NotPanic : (r : Result Value) → Yields Any r → r ≢ panic
unfolding Yields
Yields-NotPanic (ok a) h e = absurd cc
Yields-NotPanic (err x) h e = absurd cc
Yields-NotPanic panic h e = h

below : (depth : ℕ) → leb flow_depth_max depth ≡ false → depth < flow_depth_max
below depth h = ground (arith, h)

inner_depth-Holds :
    (name : Text) (task : InnerTask) (depth : ℕ)
    → depth ≤ flow_depth_max
    → Holds (λ d. d ≤ flow_depth_max) (inner_depth name task depth)
unfolding inner_depth
inner_depth-Holds name (inner fields (TaskWith.flow w)) depth h =
    elim (Bool-cases (leb flow_depth_max depth)) [
      | inl e ↦ rw e (unfold Holds in tt)
      | inr e ↦ rw e (unfold Holds in omega (arith, below depth e))
    ]
inner_depth-Holds name (inner fields w) depth h = unfold Holds in h

-- An array with a slot for each of so many items.
abbrev pub Slots : ℕ → Value → Type 0
Slots n v = (out : List Value) × (v ≡ array (items_of out)) × (length out ≡ n)

-- What a fan-out gives: a slot for each item of the collection that it resolved.
abbrev pub Mapped : {F : Type 0} → Numbers F → Rendering → MapWith → Scope → Value → Type 0
Mapped numbers rendering mw scope v =
    (resolved : Value) × (items : List Value) × (interp_value numbers rendering mw.items scope
      ≡ ok resolved)
    × (as_array resolved ≡ some items)
    × Slots (length items) v

module _ {F : Type 0} (numbers : Numbers F) (to_value : RunError → Value) where
  bind-Holds :
      {A B : Type 0} (P : A → Type 0) (Q : B → Type 0) (r : Result A) (f : A → Result B)
      → Holds P r
      → ((a : A) → P a → Holds Q (f a))
      → Holds Q (tmx.Error.◌>>=◌ r f)
  unfolding Holds
  bind-Holds P Q (ok a) f h k = k a h
  bind-Holds P Q (err e) f h k = tt
  bind-Holds P Q panic f h k = absurd h

  -- What is collected has a slot for each result.
  collect-Holds :
      (go_on : Bool) (results : List (Result Value))
      → All NotPanic results
      → Holds (λ out. length out ≡ length results) (collect numbers to_value go_on results)
  unfolding collect
  collect-Holds go_on [] h = unfold Holds in refl
  collect-Holds go_on (ok v ∷ results) h =
      bind-Holds _ _ _ _ (collect-Holds go_on results h.1) (λ out is. unfold Holds in ap suc is)
  collect-Holds true (err e ∷ results) h =
      bind-Holds _ _ _ _ (collect-Holds true results h.1) (λ out is. unfold Holds in ap suc is)
  collect-Holds false (err e ∷ results) h = unfold Holds in tt
  collect-Holds go_on (panic ∷ results) h = absurd (h.0 refl)

  module _ {W : Type 0} (rendering : Rendering) (scheduler : Scheduler W)
      (run_item : ℕ → Value → ℕ → Run W Value) (I : Session W → Type 0)
      (scheduled : (n budget : ℕ) (run : ℕ → Run W Value)
        → n ≤ fanout_width_max
        → 1 ≤ budget
        → budget ≤ concurrency_max
        → ((i : ℕ) → i < n → Keeps I (λ _. Unit) (run i))
        → Keeps I (λ rs. (length rs ≡ n) × All NotPanic rs) (scheduler n budget run))
      (item_run : (i : ℕ) (element : Value) (d : ℕ)
        → d ≤ flow_depth_max
        → Keeps I (λ _. Unit) (run_item i element d)) where
    job-Keeps :
        (items : List Value) (d i : ℕ)
        → d ≤ flow_depth_max
        → i < length items
        → Keeps I (λ _. Unit) (job numbers to_value rendering scheduler run_item items d i)
    job-Keeps items d i shallow h =
        let (v, is) = get_elem?-some items i h in
        rw (is, job) (item_run i (bind_item numbers v i) d shallow)

    fan_out-Keeps :
        (mw : MapWith) (items : List Value) (budget d : ℕ)
        → length items ≤ fanout_width_max
        → 1 ≤ budget
        → budget ≤ concurrency_max
        → d ≤ flow_depth_max
        → Keeps I
            (Slots (length items))
            (fan_out numbers to_value rendering scheduler run_item mw items budget d)
    unfolding fan_out
    fan_out-Keeps mw items budget d narrow low high shallow =
        bind-Keeps I _ _ _ _
          (scheduled (length items) budget _ narrow low high (λ i h. job-Keeps items d i shallow h))
          (λ results is.
            bind-Keeps I (λ _. Unit) _ _ _ (assert-Keeps I _ ((==_iff _ _).1 is.0))
              (λ _ _.
                bind-Keeps I _ _ _ _
                  (lift-Keeps I _ _ (collect-Holds (or_false mw.continue_on_error) results is.1))
                  (λ out len.
                    bind-Keeps I (λ _. Unit) _ _ _ (assert-Keeps I _ ((==_iff _ _).1 (len ∙ is.0)))
                      (λ _ _. pure-Keeps I _ _ (out, refl, len ∙ is.0)))))

    leb-true : (a b : ℕ) → a ≤ b → leb a b ≡ true
    leb-true a b h = ground (arith, h)

    within : (a b : ℕ) → ltb a b ≡ false → b ≤ a
    within a b h = ground (arith, h)

    budget-low : (requested ceiling : ℕ) → 1 ≤ effective_budget requested ceiling
    unfolding effective_budget
    budget-low requested ceiling = omega arith

    budget-high : (requested ceiling : ℕ) → effective_budget requested ceiling ≤ concurrency_max
    unfolding effective_budget
    budget-high requested ceiling = omega arith

    pub run_map-Keeps :
        (mw : MapWith) (task : InnerTask) (name : Text) (scope : Scope) (ceiling depth : ℕ)
        → depth ≤ flow_depth_max
        → Keeps I
            (Mapped numbers rendering mw scope)
            (run_map numbers to_value rendering scheduler run_item mw task name scope ceiling depth)
    unfolding run_map
    run_map-Keeps mw task name scope ceiling depth shallow =
        let budget = effective_budget (or_one mw.concurrency) ceiling in
        bind-Keeps I _ _ _ _
          (lift-Keeps I _ _ (
            self-Holds _
              (Yields-NotPanic _ (interp_value-Yields numbers rendering mw.items scope))))
          (λ resolved is.
            bind-Keeps I _ _ _ _ (lift-Keeps I _ _ (ok_or-Holds (as_array resolved) _))
              (λ items found.
                bind-Keeps I _ _ _ _ (lift-Keeps I _ _ (reject_if_lem _ _)) (λ _ narrow.
                  bind-Keeps I (λ _. Unit) _ _ _
                    (assert-Keeps I _
                      (leb-true _ _ (within fanout_width_max (length items) narrow)))
                    (λ _ _. bind-Keeps I _ _ _ _ (lift-Keeps I _ _ (reject_if_lem _ _)) (λ _ _.
                      bind-Keeps I (λ _. Unit) _ _ _
                        (assert-Keeps I _
                          (leb-true _ _ (budget-low (or_one mw.concurrency) ceiling)))
                        (λ _ _.
                          bind-Keeps I (λ _. Unit) _ _ _
                            (assert-Keeps I _
                              (leb-true _ _ (budget-high (or_one mw.concurrency) ceiling)))
                            (λ _ _.
                              bind-Keeps I _ _ _ _
                                (lift-Keeps I _ _ (inner_depth-Holds name task depth shallow))
                                (λ d low.
                                  weaken-Keeps I (Slots (length items)) _ _
                                    (λ v slots. (resolved, items, is, found, slots))
                                    (fan_out-Keeps mw items budget d
                                      (within fanout_width_max (length items) narrow)
                                      (budget-low (or_one mw.concurrency) ceiling)
                                      (budget-high (or_one mw.concurrency) ceiling) low)))))))))

    -- A fan-out keeps what the scheduler and its items keep, and none of its assertions fails. Where it
    -- gives a value, that is an array with one slot for each item of the resolved collection. The
    -- scheduler gives one result for each job, within the limits and without a panic, and the recursion
    -- depth is within its bound.
    pub run_map_lem :
        (mw : MapWith) (task : InnerTask) (name : Text) (scope : Scope) (ceiling depth : ℕ)
        (s : Session W)
        → depth ≤ flow_depth_max
        → I s
        → I
            (run_map numbers to_value rendering scheduler run_item mw task name scope ceiling depth
              s).1
          × Holds
              (Mapped numbers rendering mw scope)
              (run_map numbers to_value rendering scheduler run_item mw task name scope ceiling
                depth s).0
    unfolding Keeps Post
    run_map_lem mw task name scope ceiling depth s shallow i =
        run_map-Keeps mw task name scope ceiling depth shallow s i
