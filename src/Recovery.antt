-- ===== src/Recovery.antt =====
-- crates/application/src/operation_recovery.rs: conservative reconciliation of interrupted
-- operations. The recovery journal and the probe answer from outside.
pub mod Safety
use compose_nest.Common.{
  ℕ, String, Bool, true, false, not, ◌&&◌, ◌||◌, Option, none, some, List, [], ◌∷◌, Result, Exec,
  ok, perform, pure, raise, ◌>>=◌, any, all, is_some, if◌then◌else◌,
}
use compose_nest.Instance.Operation.{OperationKind, OperationStatus}
use compose_nest.Journal.{StoreConflict, invalid_lifecycle, StepCommand, StepOutcome, StepRecord}

pub record RecoverableOperation : Type 0 where
  pub id : String
  pub instance_id : String
  pub kind : OperationKind
  pub status : OperationStatus
  pub phase : String
  pub attempt : ℕ
  pub steps : List StepRecord

pub record VerifiedAbsence : Type 0 where
  pub operation_id : String
  pub attempt : ℕ

pub data CurrentRuntime : Type 0 where
  ready present stopped absent unknown : CurrentRuntime

pub record RecoveryEvidence : Type 0 where
  pub previous_cli_exited : Bool
  pub target_matches : Bool
  pub artifact_matches : Bool
  pub storage_verified : Bool
  pub docker_verified : Bool
  pub runtime : CurrentRuntime

pub data RecoveryDecision : Type 0 where
  complete retry_allowed hold : RecoveryDecision

pub record RecoveryReport : Type 0 where
  pub operation : RecoverableOperation
  pub current_runtime : CurrentRuntime
  pub decision : RecoveryDecision

abbrev pub is_stop : OperationKind → Bool
is_stop OperationKind.stop = true
is_stop _ = false

abbrev pub is_start : OperationKind → Bool
is_start OperationKind.start = true
is_start _ = false

abbrev pub is_delete : OperationKind → Bool
is_delete OperationKind.delete = true
is_delete _ = false

abbrev pub makes_ready : OperationKind → Bool
makes_ready OperationKind.create = true
makes_ready OperationKind.clone = true
makes_ready OperationKind.start = true
makes_ready OperationKind.restart = true
makes_ready _ = false

abbrev pub is_ready_command : StepCommand → Bool
is_ready_command StepCommand.compose_start = true
is_ready_command StepCommand.compose_restart = true
is_ready_command StepCommand.observe = true
is_ready_command _ = false

abbrev pub is_stop_command : StepCommand → Bool
is_stop_command StepCommand.compose_stop = true
is_stop_command _ = false

abbrev pub is_ready : CurrentRuntime → Bool
is_ready ready = true
is_ready _ = false

abbrev pub is_stopped : CurrentRuntime → Bool
is_stopped stopped = true
is_stopped _ = false

abbrev pub is_absent : CurrentRuntime → Bool
is_absent absent = true
is_absent _ = false

abbrev pub is_failed : OperationStatus → Bool
is_failed OperationStatus.failed = true
is_failed _ = false

abbrev pub is_open_status : OperationStatus → Bool
is_open_status OperationStatus.failed = true
is_open_status OperationStatus.awaiting_decision = true
is_open_status OperationStatus.outcome_unknown = true
is_open_status _ = false

abbrev pub is_empty : List StepRecord → Bool
is_empty [] = true
is_empty (_ ∷ _) = false

abbrev pub is_conclusive : Option StepOutcome → Bool
is_conclusive (some StepOutcome.succeeded) = true
is_conclusive (some StepOutcome.failed) = true
is_conclusive _ = false

unfoldable pub classify_recovery : RecoverableOperation → RecoveryEvidence → RecoveryDecision
classify_recovery operation evidence =
    if not evidence.previous_cli_exited
      || not evidence.target_matches
      || (not (is_stop operation.kind)
          && (not evidence.artifact_matches || not evidence.storage_verified))
    then hold
    else if (makes_ready operation.kind
          && any (λ (step : StepRecord). is_ready_command step.command_kind) operation.steps)
        && evidence.docker_verified
        && is_ready evidence.runtime
    then complete
    else if is_stop operation.kind
        && evidence.docker_verified
        && (is_stopped evidence.runtime || is_absent evidence.runtime)
        && any (λ (step : StepRecord). is_stop_command step.command_kind) operation.steps
    then complete
    else if evidence.docker_verified
        && is_stopped evidence.runtime
        && is_start operation.kind
        && is_failed operation.status
        && not (is_empty operation.steps)
        && all (λ (step : StepRecord). is_some step.outcome) operation.steps
    then retry_allowed
    else hold

-- The calls that leave this module.
pub data Call : Type 0 where
  recoverable : String → Call
  inspect : RecoverableOperation → Call
  retry : String → String → Call
  abandon_verified : VerifiedAbsence → Call

-- `RecoveryJournal` and `RecoveryProbe`, as far as these functions use them.
pub record Outside : Type 0 where
  pub recoverable : String → List Call → Result RecoverableOperation StoreConflict
  pub inspect : RecoverableOperation → List Call → RecoveryEvidence
  pub retry : String → String → List Call → Result ℕ StoreConflict
  pub abandon_verified : VerifiedAbsence → List Call → Result (Unit {0}) StoreConflict

-- The `safe` of `abandon_operation`.
unfoldable pub is_safe : RecoverableOperation → RecoveryEvidence → Bool
is_safe operation evidence =
    is_open_status operation.status
    && evidence.previous_cli_exited
    && evidence.target_matches
    && evidence.artifact_matches
    && evidence.storage_verified
    && evidence.docker_verified
    && is_absent evidence.runtime
    && all (λ (step : StepRecord). is_conclusive step.outcome) operation.steps

module _ (outside : Outside) where
  unfoldable pub resolve_operation : String → Exec Call StoreConflict RecoveryReport
  resolve_operation operation_id = do
    operation ← perform (recoverable operation_id) (outside.recoverable operation_id)
    evidence ← perform (inspect operation) λ h. ok (outside.inspect operation h)
    pure (record {
      operation = operation;
      current_runtime = evidence.runtime;
      decision = classify_recovery operation evidence;
    })

  -- The end of `retry_operation`, by the report's decision.
  unfoldable pub retry_if : RecoveryDecision → String → String → Exec Call StoreConflict ℕ
  retry_if retry_allowed operation_id phase =
      perform (retry operation_id phase) (outside.retry operation_id phase)
  retry_if _ operation_id phase = raise invalid_lifecycle

  unfoldable pub retry_operation : String → Exec Call StoreConflict ℕ
  unfolding resolve_operation retry_if
  retry_operation operation_id = do
    report ← resolve_operation operation_id
    retry_if report.decision operation_id report.operation.phase

  -- The end of `abandon_operation`, after the probe.
  unfoldable pub abandon_inspected :
      RecoverableOperation → RecoveryEvidence → Exec Call StoreConflict (Unit {0})
  abandon_inspected operation evidence =
      if not (is_safe operation evidence)
      then raise invalid_lifecycle
      else perform
          (abandon_verified (record { operation_id = operation.id; attempt = operation.attempt }))
          (outside.abandon_verified
            (record { operation_id = operation.id; attempt = operation.attempt }))

  unfoldable pub abandon_loaded : RecoverableOperation → Exec Call StoreConflict (Unit {0})
  unfolding abandon_inspected
  abandon_loaded operation = if is_delete operation.kind then raise invalid_lifecycle else do
    evidence ← perform (inspect operation) λ h. ok (outside.inspect operation h)
    abandon_inspected operation evidence

  unfoldable pub abandon_operation : String → Exec Call StoreConflict (Unit {0})
  unfolding abandon_loaded
  abandon_operation operation_id = do
    operation ← perform (recoverable operation_id) (outside.recoverable operation_id)
    abandon_loaded operation
