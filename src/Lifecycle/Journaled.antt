-- ===== src/Lifecycle/Journaled.antt =====
-- crates/application/src/lifecycle_operation.rs: what every call of a lifecycle operation rests on.
pub mod Kinds
use compose_nest.Common.{
  ℕ, ◌≡◌, refl, ap, inl, inr, String, Bool, true, false, not, ◌&&◌, ◌||◌, List, [], ◌∷◌, Result, ok,
  err, arith, perform, attempt, ◌>>=◌, after_perform, after_block, after_pure, after_raise,
  Bool-cases,
}
use compose_nest.Instance.{RuntimeStatus}
use compose_nest.Instance.Operation.{OperationKind, OperationStatus}
use compose_nest.Journal.{RequestReceipt, StepIntent}
use compose_nest.Lifecycle.{
  LifecycleObservation, LifecycleEffectError, LifecycleOperationError, Stage, stage_command, Call,
  set_status, record_step, observe, effect, wait_ready, complete, Outside, is_absent, is_stopped,
  is_unknown, Run, mark, fail, suggest_start, or_fail, check, step, stage_phase, stage_expected,
}
use compose_nest.Lifecycle.Locked.{
  finish, start_container, run_start, confirm_stopped, run_stop, run_restart, dispatch, run_locked,
}

-- The effects that an operation of each kind may have.
abbrev pub permitted : OperationKind → Stage → Bool
permitted OperationKind.start Stage.recreate = true
permitted OperationKind.start Stage.start = true
permitted OperationKind.stop Stage.stop = true
permitted OperationKind.restart Stage.restart = true
permitted _ _ = false

module _ (outside : Outside) (receipt : RequestReceipt) where
  -- The last calls record the intent of the effect and mark the operation as executing.
  abbrev pub IsRecorded : Stage → String → List Call → Type 0
  IsRecorded stage id (set_status operation status phase ∷ record_step intent ∷ h) =
      (operation ≡ receipt.operation_id)
      × (status ≡ OperationStatus.executing)
      × (intent.operation_id ≡ receipt.operation_id)
      × (intent.command_kind ≡ stage_command stage)
      × (intent.resource_id ≡ id)
  IsRecorded stage id _ = ⊥

  -- The final state was just confirmed: readiness for Start and Restart, an observation of the
  -- stopped or absent container for Stop.
  abbrev pub IsConfirmed : OperationKind → String → RuntimeStatus → List Call → Type 0
  IsConfirmed OperationKind.stop id status (observe container ∷ h) =
      (container ≡ id)
      × ((outside.observe id (observe container ∷ h)).status ≡ status)
      × ((is_stopped status || is_absent status) ≡ true)
  IsConfirmed OperationKind.stop id status _ = ⊥
  IsConfirmed kind id status (wait_ready container ∷ h) =
      (container ≡ id)
      × (outside.wait_ready id (wait_ready container ∷ h) ≡ ok tt)
      × (status ≡ RuntimeStatus.ready)
  IsConfirmed kind id status _ = ⊥

  abbrev pub Rests : OperationKind → Call → List Call → Type 0
  Rests kind (effect stage id) h = (permitted kind stage ≡ true) × IsRecorded stage id h
  Rests kind (complete operation id status) h =
      (operation ≡ receipt.operation_id) × IsConfirmed kind id status h
  Rests kind _ h = Unit

  -- Every call of a history rests on the calls before it.
  abbrev pub AllRest : OperationKind → List Call → Type 0
  AllRest kind [] = Unit
  AllRest kind (c ∷ h) = Rests kind c h × AllRest kind h

  module _ (kind : OperationKind) where
    abbrev pub Q : {A : Type 0} → Result A LifecycleOperationError × List Call → Type 0
    Q r = AllRest kind r.1

    pub after_fail :
        {A B : Type 0} (phase : String) (e : LifecycleEffectError) (k : A → Run B) (h : List Call)
        → AllRest kind h
        → Q ((fail outside receipt phase e >>= k) h)
    unfolding fail
    after_fail phase e k h r =
        after_block Q _ _ _ h
          (after_perform Q _ _ _ h (λ x p. (tt, r)) λ _ p. after_raise Q _ k _ (tt, r))

    pub fail-AllRest :
        (phase : String) (e : LifecycleEffectError) (h : List Call)
        → AllRest kind h
        → Q {A = String} (fail outside receipt phase e h)
    unfolding fail
    fail-AllRest phase e h r = after_perform Q _ _ _ h (λ x p. (tt, r)) λ _ p. (tt, r)

    pub after_or_fail :
        {A B : Type 0} (phase : String) (r : Result A LifecycleEffectError) (k : A → Run B)
        (h : List Call)
        → AllRest kind h
        → ((a : A) → r ≡ ok a → Q (k a h))
        → Q ((or_fail outside receipt phase r >>= k) h)
    unfolding or_fail
    after_or_fail phase (ok a) k h x next = after_pure Q a k h (next a refl)
    after_or_fail phase (err e) k h x next = after_fail phase e k h x

    pub after_check :
        {A B : Type 0} (phase : String) (c : Call)
        (answer : List Call → Result A LifecycleEffectError) (k : A → Run B) (h : List Call)
        → AllRest kind (c ∷ h)
        → ((a : A) → answer (c ∷ h) ≡ ok a → Q (k a (c ∷ h)))
        → Q ((check outside receipt phase c answer >>= k) h)
    unfolding check attempt perform ◌>>=◌
    after_check phase c answer k h = after_or_fail phase (answer (c ∷ h)) k (c ∷ h)

    -- After a journaled step the history is some justified one.
    pub after_step :
        {A B : Type 0} (sequence : ℕ) (stage : Stage) (id : String)
        (work : List Call → Result A LifecycleEffectError) (k : A → Run B) (h : List Call)
        → permitted kind stage ≡ true
        → AllRest kind h
        → ((a : A) (h' : List Call) → AllRest kind h' → Q (k a h'))
        → Q ((step outside receipt sequence stage id work >>= k) h)
    unfolding step mark
    after_step sequence stage id work k h allowed r next = after_block Q _ _ _ h (
        after_perform Q _ _ _ h (λ x p. (tt, r))
          λ _ p. after_block Q _ _ _ _ (
            after_perform Q _ _ _ _ (λ x p. (tt, (tt, r)))
              λ _ p. after_block Q _ _ _ _ (
                after_perform Q _ _ _ _ (λ x p. done)
                  λ result p. after_block Q _ _ _ _ (
                    after_perform Q _ _ _ _ (λ x p. (tt, done))
                      λ _ p.
                        after_or_fail (stage_phase stage) result k _ (tt, done)
                          λ a p. next a _ (tt, done)))))
      where
        intent : StepIntent
        intent = record {
          operation_id = receipt.operation_id;
          sequence = sequence;
          attempt = 1;
          command_kind = stage_command stage;
          resource_id = id;
          expected_result = stage_expected stage;
        }

        done : AllRest kind (
            effect stage id
            ∷ set_status receipt.operation_id OperationStatus.executing (stage_phase stage)
            ∷ record_step intent
            ∷ h)
        done = ((allowed, (refl, refl, refl, refl, refl)), (tt, (tt, r)))

    pub finish-AllRest :
        (id : String) (status : RuntimeStatus) (h : List Call)
        → IsConfirmed kind id status h
        → AllRest kind h
        → Q (finish outside receipt id status h)
    unfolding finish
    finish-AllRest id status h confirmed r =
        after_perform Q _ _ _ h (λ x p. ((refl, confirmed), r)) λ _ p. ((refl, confirmed), r)
