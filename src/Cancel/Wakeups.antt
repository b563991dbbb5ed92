-- ===== src/Cancel/Wakeups.antt =====
-- A guarded future is never left asleep across a hard cancellation.
use tmx.Base.{
  ℕ, ◌≡◌, refl, Bool, true, ◌||◌, none, List, [], ◌∷◌, ◌++◌, arith, any, ◌==◌, ==_refl,
  Option-cases, inl, inr,
}
use tmx.Error.{Result, err}
use tmx.Cancel.{
  CancelReason, to_error, Shared, hard_cancel, register, Op, requests, hard_cancels, registers,
  apply, apply_all, Poll, ready, pending, recheck, poll_guard,
}
use tmx.Cancel.Laws.{apply_all-Follows}

abbrev pub parked : ℕ → List ℕ → Bool
parked waker ws = any (λ w. w == waker) ws

any-append : (p : ℕ → Bool) (xs ys : List ℕ) → any p (xs ++ ys) ≡ (any p xs || any p ys)
any-append p [] ys = refl
any-append p (x ∷ xs) ys = ground (arith, any-append p xs ys)

-- A registration parks the waker, unless hard cancellation has fired.
register-parked :
    (waker : ℕ) (s : Shared) → s.hard ≡ none → parked waker (register waker s).0.wakers ≡ true
unfolding register
register-parked waker s h =
    ground (arith, any-append (λ w. w == waker) s.wakers (waker ∷ []), ==_refl waker)

register-calm : (waker : ℕ) (s : Shared) → (register waker s).0.hard ≡ none → s.hard ≡ none
unfolding register
register-calm waker s h = ground arith

apply-parked :
    (waker : ℕ) (op : Op) (s : Shared)
    → (apply op s).0.hard ≡ none
    → parked waker s.wakers ≡ true
    → parked waker (apply op s).0.wakers ≡ true
unfolding apply
apply-parked waker (requests r) s h p = p
apply-parked waker (hard_cancels r) s h p = ground arith
apply-parked waker (registers w) s h p =
    ground (arith, any-append (λ v. v == waker) s.wakers (w ∷ []))

-- Where a sequence of operations ends without hard cancellation, it has not fired on the way.
hard_before : (ops : List Op) (s : Shared) → (apply_all ops s).0.hard ≡ none → s.hard ≡ none
hard_before ops s h = elim (Option-cases s.hard) [
  | inl calm ↦ calm
  | inr (r, fired) ↦ cc ((apply_all-Follows ops s).hard r fired)
]

apply_all-parked :
    (waker : ℕ) (ops : List Op) (s : Shared)
    → (apply_all ops s).0.hard ≡ none
    → parked waker s.wakers ≡ true
    → parked waker (apply_all ops s).0.wakers ≡ true
unfolding apply_all
apply_all-parked waker [] s h p = p
apply_all-parked waker (op ∷ ops) s h p =
    apply_all-parked waker ops (apply op s).0 h
      (apply-parked waker op s (hard_before ops (apply op s).0 h) p)

-- A poll that returns pending leaves the token without hard cancellation and with the waker parked,
-- whatever other holders do between its checks.
pub poll_guard-parked {ℓ} :
    {A : Type ℓ} (waker : ℕ) (step : Poll (Result A)) (during after : List Op) (s : Shared)
    → (poll_guard waker step during after s).0 ≡ pending
    → ((poll_guard waker step during after s).1.hard ≡ none)
      × (parked waker (poll_guard waker step during after s).1.wakers ≡ true)
unfolding poll_guard recheck
poll_guard-parked waker (ready value) during after s h = ground arith
poll_guard-parked waker pending during after s h =
    let s₁ = (apply_all during s).0 in
    let s₂ = (register waker s₁).0 in
    let calm : (apply_all after s₂).0.hard ≡ none = ground arith in
    let before : s₁.hard ≡ none = register-calm waker s₁ (hard_before after s₂ calm) in
    let kept = apply_all-parked waker after s₂ calm (register-parked waker s₁ before) in
    (ground (arith, calm), ground (arith, kept))

-- Then the first hard cancellation wakes the waker, and a poll after it gives the error of its
-- reason.
pub hard_cancel-wakes {ℓ} :
    {A : Type ℓ} (waker : ℕ) (step : Poll (Result A)) (during after later : List Op) (s : Shared)
    (reason : CancelReason)
    → s.hard ≡ none
    → parked waker s.wakers ≡ true
    → (parked waker (hard_cancel reason s).1 ≡ true)
      × ((poll_guard waker step during after (apply_all later (hard_cancel reason s).0).0).0
          ≡ ready (err (to_error reason)))
unfolding hard_cancel poll_guard
hard_cancel-wakes waker step during after later s reason calm p = (
  p,
  ground (arith, (apply_all-Follows later (hard_cancel reason s).0).hard reason (ground arith)),
)
