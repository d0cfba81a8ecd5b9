-- ===== src/Lifecycle.antt =====
-- crates/application/src/lifecycle_operation.rs: Start, Stop and Restart of a confirmed instance.
-- The saved state, the journal and the Docker stages answer from outside.
pub mod Locked
pub mod Heeding
pub mod Journaled
pub mod Replies
use compose_nest.Common.{
  ℕ, suc, ◌+◌, String, Bool, true, false, not, ◌&&◌, ◌||◌, List, [], ◌∷◌, Result, ok, err, map_err,
  Exec, perform, pure, raise, attempt, ◌>>=◌, ◌>>◌, if◌then◌else◌,
}
use compose_nest.Instance.{RuntimeStatus}
use compose_nest.Instance.Operation.{OperationKind, OperationStatus}
use compose_nest.Journal.{
  StoreConflict, invalid_input, RequestReceipt, StepCommand, ExpectedResult, StepIntent,
  StepOutcome,
}
use compose_nest.Runner.{RunnerError, Active, run_exclusive}

pub record LifecycleSnapshot : Type 0 where
  pub container_id : String
  pub spec_revision : ℕ

pub record LifecycleObservation : Type 0 where
  pub status : RuntimeStatus
  pub owned : Bool
  pub configuration_matches : Bool

pub data LifecycleEffectError : Type 0 where
  rejected outcome_unknown : LifecycleEffectError

pub data LifecycleOperationError : Type 0 where
  runner : RunnerError → LifecycleOperationError
  store : StoreConflict → LifecycleOperationError
  start_suggested rejected outcome_unknown : LifecycleOperationError

pub data Stage : Type 0 where
  recreate start stop restart : Stage

unfoldable pub stage_command : Stage → StepCommand
stage_command Stage.recreate = StepCommand.compose_create
stage_command Stage.start = StepCommand.compose_start
stage_command Stage.stop = StepCommand.compose_stop
stage_command Stage.restart = StepCommand.compose_restart

unfoldable pub stage_expected : Stage → ExpectedResult
stage_expected Stage.recreate = ExpectedResult.container_created
stage_expected Stage.start = ExpectedResult.container_running
stage_expected Stage.stop = ExpectedResult.container_stopped
stage_expected Stage.restart = ExpectedResult.container_running

unfoldable pub stage_phase : Stage → String
stage_phase Stage.recreate = "recreate"
stage_phase Stage.start = "start"
stage_phase Stage.stop = "stop"
stage_phase Stage.restart = "restart"

pub data Call : Type 0 where
  snapshot : RequestReceipt → OperationKind → Call
  set_status : String → OperationStatus → String → Call
  record_step : StepIntent → Call
  finish_step : String → ℕ → StepOutcome → Call
  observe : String → Call
  verify_storage verify_artifact : Call
  -- The four changes of the runtime, each with the ID that it is about.
  effect : Stage → String → Call
  wait_ready : String → Call
  complete : String → String → RuntimeStatus → Call

-- `LifecycleState`, `OperationJournal` and `LifecycleStages`, as far as this module uses them. The
-- effect answers with a container ID: `recreate` with the new one, the others have none to give.
pub record Outside : Type 0 where
  pub snapshot : RequestReceipt → OperationKind → List Call → Result LifecycleSnapshot StoreConflict
  pub set_status : String → OperationStatus → String → List Call → Result (Unit {0}) StoreConflict
  pub record_step : StepIntent → List Call → Result (Unit {0}) StoreConflict
  pub finish_step : String → ℕ → StepOutcome → List Call → Result (Unit {0}) StoreConflict
  pub observe : String → List Call → LifecycleObservation
  pub verify_storage : List Call → Result (Unit {0}) LifecycleEffectError
  pub verify_artifact : List Call → Result (Unit {0}) LifecycleEffectError
  pub recreate : List Call → Result String LifecycleEffectError
  pub change : Stage → String → List Call → Result (Unit {0}) LifecycleEffectError
  pub wait_ready : String → List Call → Result (Unit {0}) LifecycleEffectError
  pub complete : String → String → RuntimeStatus → List Call → Result (Unit {0}) StoreConflict

abbrev pub is_absent : RuntimeStatus → Bool
is_absent RuntimeStatus.absent = true
is_absent _ = false

abbrev pub is_stopped : RuntimeStatus → Bool
is_stopped RuntimeStatus.stopped = true
is_stopped _ = false

abbrev pub is_unknown : RuntimeStatus → Bool
is_unknown (RuntimeStatus.unknown _) = true
is_unknown _ = false

unfoldable pub require_matching : LifecycleObservation → Result (Unit {0}) LifecycleEffectError
require_matching observation =
    if observation.owned
      && observation.configuration_matches
      && not (is_unknown observation.status || is_absent observation.status)
    then ok tt
    else err LifecycleEffectError.rejected

-- The outcome that `step` records for the result of its work.
unfoldable pub outcome_of {ℓ} : {T : Type ℓ} → Result T LifecycleEffectError → StepOutcome
outcome_of (ok _) = StepOutcome.succeeded
outcome_of (err LifecycleEffectError.rejected) = StepOutcome.failed
outcome_of (err LifecycleEffectError.outcome_unknown) = StepOutcome.unknown

unfoldable pub failure_status : LifecycleEffectError → OperationStatus
failure_status LifecycleEffectError.rejected = OperationStatus.failed
failure_status LifecycleEffectError.outcome_unknown = OperationStatus.outcome_unknown

unfoldable pub failure_error : LifecycleEffectError → LifecycleOperationError
failure_error LifecycleEffectError.rejected = LifecycleOperationError.rejected
failure_error LifecycleEffectError.outcome_unknown = LifecycleOperationError.outcome_unknown

abbrev pub Run : Type 0 → Type 0
Run = Exec Call LifecycleOperationError

module _ (outside : Outside) where
  -- `set_status` with its `map_err`.
  unfoldable pub mark : String → OperationStatus → String → Run (Unit {0})
  mark operation_id status phase =
      perform (set_status operation_id status phase)
        λ h. map_err store (outside.set_status operation_id status phase h)

  unfoldable pub fail : {A : Type 0} → RequestReceipt → String → LifecycleEffectError → Run A
  unfolding mark
  fail receipt phase error = do
    mark receipt.operation_id (failure_status error) phase
    raise (failure_error error)

  unfoldable pub suggest_start : {A : Type 0} → RequestReceipt → Run A
  unfolding mark
  suggest_start receipt = do
    mark receipt.operation_id OperationStatus.failed "start_required"
    raise start_suggested

  -- `.map_err(|error| self.fail(receipt, phase, error))?`
  unfoldable pub or_fail :
      {A : Type 0} → RequestReceipt → String → Result A LifecycleEffectError → Run A
  or_fail receipt phase (ok a) = pure a
  or_fail receipt phase (err error) = fail receipt phase error

  -- A call of a stage that fails in that way.
  unfoldable pub check :
      {A : Type 0}
      → RequestReceipt
      → String
      → Call
      → (List Call → Result A LifecycleEffectError)
      → Run A
  check receipt phase call answer =
      attempt (perform call answer) λ result. or_fail receipt phase result

  unfoldable pub step :
      {T : Type 0}
      → RequestReceipt
      → ℕ
      → Stage
      → String
      → (List Call → Result T LifecycleEffectError)
      → Run T
  step receipt sequence stage resource_id work = do
    let intent : StepIntent = record {
      operation_id = receipt.operation_id;
      sequence = sequence;
      attempt = 1;
      command_kind = stage_command stage;
      resource_id = resource_id;
      expected_result = stage_expected stage;
    }
    perform (record_step intent) λ h. map_err store (outside.record_step intent h)
    mark receipt.operation_id OperationStatus.executing (stage_phase stage)
    result ← perform (effect stage resource_id) λ h. ok (work h)
    perform (finish_step receipt.operation_id sequence (outcome_of result))
        λ h. map_err store (outside.finish_step receipt.operation_id sequence (outcome_of result) h)
    or_fail receipt (stage_phase stage) result
