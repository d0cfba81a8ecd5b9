-- ===== src/Lifecycle/Replies.antt =====
-- crates/application/src/lifecycle_operation.rs: every reply of a lifecycle operation rests on what
-- was written down before it.
pub mod Kinds
use compose_nest.Common.{
  ℕ, ◌≡◌, refl, inl, inr, String, not, ◌&&◌, ◌||◌, List, [], ◌∷◌, Result, ok, err, perform, attempt,
  ◌>>=◌, after_perform, after_block, after_pure, after_raise, Bool-cases, map_err,
}
use compose_nest.Instance.{RuntimeStatus}
use compose_nest.Instance.Operation.{OperationKind, OperationStatus}
use compose_nest.Journal.{StoreConflict, RequestReceipt}
use compose_nest.Lifecycle.{
  LifecycleObservation, LifecycleEffectError, LifecycleOperationError, Stage, Call, set_status,
  complete, Outside, is_absent, is_stopped, is_unknown, Run, mark, fail, failure_status,
  failure_error, suggest_start, or_fail, check, step,
}
use compose_nest.Lifecycle.Locked.{
  finish, start_container, run_start, confirm_stopped, run_stop, run_restart, dispatch, run_locked,
}

pub map_err-ok :
    (r : Result (Unit {0}) StoreConflict)
    → map_err LifecycleOperationError.store r ≡ ok tt
    → r ≡ ok tt
map_err-ok (ok a) e = refl
map_err-ok (err c) e = cc

module _ (outside : Outside) (receipt : RequestReceipt) where
  -- The last call set the operation to this status, and the journal took it.
  abbrev pub IsMarked : OperationStatus → List Call → Type 0
  IsMarked status (set_status operation s phase ∷ h) =
      (operation ≡ receipt.operation_id)
      × (s ≡ status)
      × (outside.set_status operation s phase (set_status operation s phase ∷ h) ≡ ok tt)
  IsMarked status _ = ⊥

  -- The last call completed the operation with this container, and the state took it.
  abbrev pub IsCompleted : String → List Call → Type 0
  IsCompleted id (complete operation container status ∷ h) =
      (operation ≡ receipt.operation_id)
      × (container ≡ id)
      × (outside.complete operation container status (complete operation container status ∷ h)
          ≡ ok tt)
  IsCompleted id _ = ⊥

  -- What a reply says of the history.
  abbrev pub IsHonest : Result String LifecycleOperationError × List Call → Type 0
  IsHonest (ok id, h) = IsCompleted id h
  IsHonest (err LifecycleOperationError.rejected, h) = IsMarked OperationStatus.failed h
  IsHonest (err LifecycleOperationError.start_suggested, h) = IsMarked OperationStatus.failed h
  IsHonest (err LifecycleOperationError.outcome_unknown, h) =
      IsMarked OperationStatus.outcome_unknown h
  IsHonest (err (LifecycleOperationError.store c), h) = Unit
  IsHonest (err (LifecycleOperationError.runner e), h) = ⊥

  pub refused_store :
      {A : Type 0} (r : Result A StoreConflict) (e : LifecycleOperationError) (h : List Call)
      → map_err LifecycleOperationError.store r ≡ err e
      → IsHonest (err e, h)
  refused_store (ok a) e h x = cc
  refused_store (err c) e h x =
      let same : LifecycleOperationError.store c ≡ e = cc in rw (← same) tt

  pub never :
      {A : Type 0} (a : A) (e : LifecycleOperationError) (h : List Call)
      → ok a ≡ err e
      → IsHonest (err e, h)
  never a e h x = cc

  failed-IsHonest :
      (phase : String) (e : LifecycleEffectError) (h : List Call)
      → outside.set_status receipt.operation_id
          (failure_status e)
          phase
          (set_status receipt.operation_id (failure_status e) phase ∷ h)
        ≡ ok tt
      → IsHonest
          (err (failure_error e), set_status receipt.operation_id (failure_status e) phase ∷ h)
  unfolding failure_status failure_error
  failed-IsHonest phase LifecycleEffectError.rejected h x = (refl, refl, x)
  failed-IsHonest phase LifecycleEffectError.outcome_unknown h x = (refl, refl, x)

  after_fail :
      {A : Type 0} (phase : String) (e : LifecycleEffectError) (k : A → Run String) (h : List Call)
      → IsHonest ((fail outside receipt phase e >>= k) h)
  unfolding fail mark
  after_fail phase e k h = after_block IsHonest _ _ _ h (
      after_perform IsHonest _ _ _ h (λ x p. refused_store _ x _ p)
        λ _ p. after_raise IsHonest _ k _ (failed-IsHonest phase e h (map_err-ok _ p)))

  pub fail-IsHonest :
      (phase : String) (e : LifecycleEffectError) (h : List Call)
      → IsHonest (fail outside receipt phase e h)
  unfolding fail mark
  fail-IsHonest phase e h =
      after_perform IsHonest _ _ _ h (λ x p. refused_store _ x _ p)
        λ _ p. failed-IsHonest phase e h (map_err-ok _ p)

  pub after_or_fail :
      {A : Type 0} (phase : String) (r : Result A LifecycleEffectError) (k : A → Run String)
      (h : List Call)
      → ((a : A) → IsHonest (k a h))
      → IsHonest ((or_fail outside receipt phase r >>= k) h)
  unfolding or_fail
  after_or_fail phase (ok a) k h next = after_pure IsHonest a k h (next a)
  after_or_fail phase (err e) k h next = after_fail phase e k h

  pub after_check :
      {A : Type 0} (phase : String) (c : Call) (answer : List Call → Result A LifecycleEffectError)
      (k : A → Run String) (h : List Call)
      → ((a : A) → IsHonest (k a (c ∷ h)))
      → IsHonest ((check outside receipt phase c answer >>= k) h)
  unfolding check attempt perform ◌>>=◌
  after_check phase c answer k h = after_or_fail phase (answer (c ∷ h)) k (c ∷ h)

  pub after_step :
      {A : Type 0} (sequence : ℕ) (stage : Stage) (id : String)
      (work : List Call → Result A LifecycleEffectError) (k : A → Run String) (h : List Call)
      → ((a : A) (h' : List Call) → IsHonest (k a h'))
      → IsHonest ((step outside receipt sequence stage id work >>= k) h)
  unfolding step mark
  after_step sequence stage id work k h next = after_block IsHonest _ _ _ h (
      after_perform IsHonest _ _ _ h (λ x p. refused_store _ x _ p)
        λ _ p. after_block IsHonest _ _ _ _ (
          after_perform IsHonest _ _ _ _ (λ x p. refused_store _ x _ p)
            λ _ p. after_block IsHonest _ _ _ _ (
              after_perform IsHonest _ _ _ _ (λ x p. never _ x _ p)
                λ result p. after_block IsHonest _ _ _ _ (
                  after_perform IsHonest _ _ _ _ (λ x p. refused_store _ x _ p)
                    λ _ p. after_or_fail _ result k _ λ a. next a _))))

  pub finish-IsHonest :
      (id : String) (status : RuntimeStatus) (h : List Call)
      → IsHonest (finish outside receipt id status h)
  unfolding finish
  finish-IsHonest id status h =
      after_perform IsHonest _ _ _ h (λ x p. refused_store _ x _ p)
        λ _ p. (refl, refl, map_err-ok _ p)
