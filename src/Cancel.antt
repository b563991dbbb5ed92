-- ===== src/Cancel.antt =====
-- Cancellation (crates/tmx-core/src/cancel.rs): the shared token with its soft and hard phase, the
-- wakers that are parked on it, and the poll of a guarded future.
--
-- Each operation holds the lock for as long as it reads or writes, so a run of a program with
-- several threads is a sequence of these operations on one `Shared` value. A waker is a number, and
-- `will_wake` is its equality.
pub mod Laws
pub mod Wakeups
mod Examples
use tmx.Base.{
  ℕ, Bool, true, false, Option, none, some, List, [], ◌∷◌, ◌++◌, bytes, String, any, ◌==◌,
  if◌then◌else◌,
}
use tmx.Model.{RunStatus}
use tmx.Error.{
  ErrorCategory, Result, ok, err, panic, RunError, new_error, plain, run_failure, validation,
  resolution, environment,
}

pub data CancelReason : Type 0 where
  timeout interrupt : CancelReason

unfoldable pub as_str : CancelReason → String
as_str timeout = "timeout"
as_str interrupt = "interrupt"

unfoldable pub to_status : CancelReason → RunStatus
to_status timeout = RunStatus.timed_out
to_status interrupt = RunStatus.cancelled

unfoldable pub to_error : CancelReason → RunError
to_error timeout =
    new_error ErrorCategory.timeout "timeout"
      (plain (bytes "the run exceeded its --timeout budget and was cancelled"))
to_error interrupt =
    new_error ErrorCategory.interrupt "interrupt"
      (plain (bytes "the run was interrupted (SIGINT) and cancelled"))

-- `cancel_reason_of` of crates/tmx-core/src/runner.rs
unfoldable pub reason_of_category : ErrorCategory → Option CancelReason
reason_of_category ErrorCategory.timeout = some timeout
reason_of_category ErrorCategory.interrupt = some interrupt
reason_of_category _ = none

unfoldable pub cancel_reason_of : RunError → Option CancelReason
unfolding reason_of_category
cancel_reason_of e = reason_of_category e.category

pub record Shared : Type 0 where
  pub requested : Option CancelReason
  pub hard : Option CancelReason
  pub wakers : List ℕ

-- `CancelToken::new`
abbrev pub new : Shared
new = record { requested = none; hard = none; wakers = [] }

abbrev pub first_wins : Option CancelReason → CancelReason → Option CancelReason
first_wins none r = some r
first_wins (some old) r = some old

unfoldable pub request : CancelReason → Shared → Shared
request reason s = record s { requested = first_wins s.requested reason }

-- The new state, and the wakers that are woken after the lock is released.
unfoldable pub hard_cancel : CancelReason → Shared → Shared × List ℕ
hard_cancel reason s = (
  record {
    requested = first_wins s.requested reason;
    hard = first_wins s.hard reason;
    wakers = [];
  },
  s.wakers,
)

-- `requested_reason` and `hard_reason` read a field. `register` parks a waker, or wakes it at once.
unfoldable pub register : ℕ → Shared → Shared × List ℕ
register waker s = elim s.hard [
  | some r ↦ (s, waker ∷ [])
  | none ↦
      if any (λ parked. parked == waker) s.wakers
      then (s, [])
      else (record s { wakers = s.wakers ++ waker ∷ [] }, [])
]

pub data Poll {ℓ} (A : Type ℓ) : Type ℓ where
  ready : A → Poll A
  pending : Poll A

-- One operation of some holder of the token, with the wakers that it wakes.
pub data Op : Type 0 where
  requests : CancelReason → Op
  hard_cancels : CancelReason → Op
  registers : ℕ → Op

unfoldable pub apply : Op → Shared → Shared × List ℕ
unfolding request hard_cancel register
apply (requests reason) s = (request reason s, [])
apply (hard_cancels reason) s = hard_cancel reason s
apply (registers waker) s = register waker s

-- A sequence of operations, in the order in which they take the lock.
unfoldable pub apply_all : List Op → Shared → Shared × List ℕ
unfolding apply
apply_all [] s = (s, [])
apply_all (op ∷ ops) s =
    let (s', woken) = apply op s in let (t, later) = apply_all ops s' in (t, woken ++ later)

-- The second check of `hard_reason`.
unfoldable pub recheck {ℓ} : {A : Type ℓ} → Shared → Poll (Result A)
unfolding to_error
recheck s = elim s.hard [ some reason ↦ ready (err (to_error reason)) | none ↦ pending ]

-- `Guard::poll` among other threads: the first check, the poll of the work (`step` is what it gives),
-- the registration and the second check. `during` are the operations of others between the first
-- check and the registration, and `after` those between it and the second check. The result, and
-- the state that it leaves.
unfoldable pub poll_guard {ℓ} :
    {A : Type ℓ} → ℕ → Poll (Result A) → List Op → List Op → Shared → Poll (Result A) × Shared
unfolding register to_error recheck apply_all
poll_guard waker step during after s = elim s.hard [
  | some reason ↦ (ready (err (to_error reason)), s)
  | none ↦
      let s₁ = (apply_all during s).0 in
      let s₂ = (apply_all after (register waker s₁).0).0 in
      elim step [ ready value ↦ (ready value, s₁) | pending ↦ (recheck s₂, s₂) ]
]
