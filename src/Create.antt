-- ===== src/Create.antt =====
-- crates/application/src/create_operation.rs: the creation of a confirmed instance. The saved state
-- (create_state.rs), the journal, the stages and the progress sink answer from outside.
pub mod Heeding
pub mod Ordered
use compose_nest.Common.{
  ℕ, ◌+◌, ◌%◌, ◌^◌, String, Bool, true, false, not, ◌||◌, Option, some, List, [], ◌∷◌, Result, ok,
  err, map_err, str_eq, Exec, perform, pure, raise, ◌>>=◌, ◌>>◌, if◌then◌else◌,
}
use compose_nest.Instance.Operation.{OperationStatus}
use compose_nest.Journal.{
  StoreConflict, invalid_input, RequestReceipt, StepCommand, ExpectedResult, StepIntent,
  StepOutcome,
}
use compose_nest.Runner.{RunnerError, Active, run_exclusive, run_reserved}
use compose_nest.Runner.Step.{OperationEvent, OperationEventKind}

-- The confirmed records, without those that the operation only hands on to the stages: the target,
-- the template's files, the ports and the storage.
pub record ConfirmedCreate : Type 0 where
  pub instance_id : String
  pub scope_id : String
  pub project_name : String
  pub spec_revision : ℕ
  pub selected_version : String
  pub inputs_json : String

pub data CreateEffectError : Type 0 where
  failed outcome_unknown : CreateEffectError

pub data CreateOperationError : Type 0 where
  runner : RunnerError → CreateOperationError
  store : StoreConflict → CreateOperationError
  failed outcome_unknown : CreateOperationError

pub data Stage : Type 0 where
  image artifact config create inspect_created start ready : Stage

unfoldable pub stage_command : Stage → StepCommand
stage_command Stage.image = StepCommand.resolve_image
stage_command Stage.artifact = StepCommand.generate_artifact
stage_command Stage.config = StepCommand.observe
stage_command Stage.create = StepCommand.compose_create
stage_command Stage.inspect_created = StepCommand.observe
stage_command Stage.start = StepCommand.compose_start
stage_command Stage.ready = StepCommand.observe

unfoldable pub stage_expected : Stage → ExpectedResult
stage_expected Stage.image = ExpectedResult.image_resolved
stage_expected Stage.artifact = ExpectedResult.artifact_ready
stage_expected Stage.config = ExpectedResult.state_observed
stage_expected Stage.create = ExpectedResult.container_created
stage_expected Stage.inspect_created = ExpectedResult.state_observed
stage_expected Stage.start = ExpectedResult.container_running
stage_expected Stage.ready = ExpectedResult.state_observed

unfoldable pub stage_phase : Stage → String
stage_phase Stage.image = "image"
stage_phase Stage.artifact = "artifact"
stage_phase Stage.config = "config"
stage_phase Stage.create = "create"
stage_phase Stage.inspect_created = "inspect_created"
stage_phase Stage.start = "start"
stage_phase Stage.ready = "ready"

pub data Call : Type 0 where
  confirmed_create : RequestReceipt → Call
  set_status : String → OperationStatus → String → Call
  record_step : StepIntent → Call
  finish_step : String → ℕ → StepOutcome → Call
  prepare_storage : ConfirmedCreate → String → ℕ → Call
  -- The method of `CreateStages` that a stage calls, with the resource that the stage is about.
  effect : Stage → String → Call
  mark_may_have_initialized : String → Call
  complete_ready : String → String → Call
  send : OperationEvent → Call

-- `CreateStateStore`, `OperationJournal` and `CreateStages`, as far as this module uses them.
pub record Outside : Type 0 where
  pub confirmed_create : RequestReceipt → List Call → Result ConfirmedCreate StoreConflict
  pub set_status : String → OperationStatus → String → List Call → Result (Unit {0}) StoreConflict
  pub record_step : StepIntent → List Call → Result (Unit {0}) StoreConflict
  pub finish_step : String → ℕ → StepOutcome → List Call → Result (Unit {0}) StoreConflict
  pub prepare_storage : ConfirmedCreate → String → ℕ → List Call → Result ℕ CreateEffectError
  pub resolve_image : ConfirmedCreate → List Call → Result (Unit {0}) CreateEffectError
  pub publish_artifact : ConfirmedCreate → List Call → Result (Unit {0}) CreateEffectError
  pub validate_config : List Call → Result (Unit {0}) CreateEffectError
  pub create_stopped : List Call → Result (Unit {0}) CreateEffectError
  pub inspect_created : List Call → Result String CreateEffectError
  pub start : String → List Call → Result (Unit {0}) CreateEffectError
  pub wait_ready : String → List Call → Result (Unit {0}) CreateEffectError
  pub mark_may_have_initialized : String → List Call → Result (Unit {0}) StoreConflict
  pub complete_ready : String → String → List Call → Result (Unit {0}) StoreConflict

-- The outcome that `stage` records for the result of its work.
unfoldable pub outcome_of {ℓ} : {T : Type ℓ} → Result T CreateEffectError → StepOutcome
outcome_of (ok _) = StepOutcome.succeeded
outcome_of (err CreateEffectError.failed) = StepOutcome.failed
outcome_of (err CreateEffectError.outcome_unknown) = StepOutcome.unknown

unfoldable pub failure_status : CreateEffectError → OperationStatus
failure_status CreateEffectError.failed = OperationStatus.failed
failure_status CreateEffectError.outcome_unknown = OperationStatus.outcome_unknown

unfoldable pub failure_error : CreateEffectError → CreateOperationError
failure_error CreateEffectError.failed = CreateOperationError.failed
failure_error CreateEffectError.outcome_unknown = CreateOperationError.outcome_unknown

-- `sequence += 1` on a u64, as a release build computes it.
abbrev pub next : ℕ → ℕ
next sequence = (sequence + 1) % 2 ^ 64

abbrev pub event : RequestReceipt → ℕ → OperationEventKind → OperationEvent
event receipt sequence kind = record {
  operation_id = receipt.operation_id;
  instance_id = some receipt.instance_id;
  revision = receipt.confirmed_revision;
  sequence = sequence;
  kind = kind;
}

abbrev pub intent_for : RequestReceipt → ℕ → Stage → String → StepIntent
intent_for receipt sequence stage resource_id = record {
  operation_id = receipt.operation_id;
  sequence = sequence;
  attempt = 1;
  command_kind = stage_command stage;
  resource_id = resource_id;
  expected_result = stage_expected stage;
}

abbrev pub Run : Type 0 → Type 0
Run = Exec Call CreateOperationError

module _ (outside : Outside) (receipt : RequestReceipt) where
  -- `set_status` with its `?`.
  unfoldable pub mark : OperationStatus → String → Run (Unit {0})
  mark status phase =
      perform (set_status receipt.operation_id status phase)
        λ h. map_err store (outside.set_status receipt.operation_id status phase h)

  -- A notice to the progress sink, which gives nothing back.
  unfoldable pub notify : ℕ → OperationEventKind → Run (Unit {0})
  notify sequence kind = perform (send (event receipt sequence kind)) λ h. ok tt

  unfoldable pub fail : {A : Type 0} → String → ℕ → CreateEffectError → Run A
  unfolding mark notify
  fail phase sequence error = do
    mark (failure_status error) phase
    notify sequence OperationEventKind.failed
    raise (failure_error error)

  -- `.map_err(|error| self.fail(receipt, phase, sequence, error))?`
  unfoldable pub or_fail : {A : Type 0} → String → ℕ → Result A CreateEffectError → Run A
  or_fail phase sequence (ok a) = pure a
  or_fail phase sequence (err error) = fail phase sequence error

  -- The end of `stage`.
  unfoldable pub report : {T : Type 0} → String → ℕ → Result T CreateEffectError → Run T
  report phase sequence (ok value) = do notify sequence OperationEventKind.progress; pure value
  report phase sequence (err error) = fail phase sequence error

  unfoldable pub stage :
      {T : Type 0} → ℕ → Stage → String → (List Call → Result T CreateEffectError) → Run T
  stage sequence s resource_id work = do
    let intent = intent_for receipt sequence s resource_id
    perform (record_step intent) λ h. map_err store (outside.record_step intent h)
    mark OperationStatus.executing (stage_phase s)
    result ← perform (effect s resource_id) λ h. ok (work h)
    perform (finish_step receipt.operation_id sequence (outcome_of result))
        λ h. map_err store (outside.finish_step receipt.operation_id sequence (outcome_of result) h)
    report (stage_phase s) sequence result

  -- The part of `run_locked` from the start of the container on.
  unfoldable pub run_started : ℕ → String → Run String
  run_started sequence container_id = do
    stage sequence Stage.start container_id (outside.start container_id)
    stage (next sequence) Stage.ready container_id (outside.wait_ready container_id)
    perform (complete_ready receipt.operation_id container_id)
        λ h. map_err store (outside.complete_ready receipt.operation_id container_id h)
    notify (next sequence) OperationEventKind.completed
    pure container_id

  -- The part of `run_locked` from the first stage on.
  unfoldable pub run_stages : ConfirmedCreate → ℕ → Run String
  run_stages confirmed n = do
    stage n Stage.image confirmed.instance_id (outside.resolve_image confirmed)
    stage (next n) Stage.artifact confirmed.instance_id (outside.publish_artifact confirmed)
    stage (next (next n)) Stage.config confirmed.instance_id outside.validate_config
    stage (next (next (next n))) Stage.create confirmed.instance_id outside.create_stopped
    container_id ←
        stage (next (next (next (next n)))) Stage.inspect_created confirmed.instance_id
          outside.inspect_created
    perform (mark_may_have_initialized receipt.operation_id)
        λ h. map_err store (outside.mark_may_have_initialized receipt.operation_id h)
    run_started (next (next (next (next (next n))))) container_id

  -- The part of `run_locked` after the test of the confirmed records.
  unfoldable pub run_accepted : ConfirmedCreate → Run String
  run_accepted confirmed = do
    mark OperationStatus.executing "storage"
    prepared ←
        perform (prepare_storage confirmed receipt.operation_id 1)
          λ h. ok (outside.prepare_storage confirmed receipt.operation_id 1 h)
    sequence ← or_fail "storage" 1 prepared
    run_stages confirmed sequence

  abbrev pub differs : ConfirmedCreate → Bool
  differs confirmed =
      not (str_eq confirmed.instance_id receipt.instance_id)
      || not (str_eq confirmed.scope_id receipt.scope_id)

  unfoldable pub run_confirmed : ConfirmedCreate → Run String
  run_confirmed confirmed =
      if differs confirmed then raise (store invalid_input) else run_accepted confirmed

  unfoldable pub run_locked : Run String
  run_locked = do
    confirmed ←
        perform (confirmed_create receipt) λ h. map_err store (outside.confirmed_create receipt h)
    run_confirmed confirmed

  -- `.map_err(CreateOperationError::Runner)?`
  unfoldable pub flatten :
      List Call
      → Result (Result String CreateOperationError × List Call) RunnerError × Active
      → Result String CreateOperationError × Active × List Call
  flatten h (ok (r, h'), active) = (r, active, h')
  flatten h (err e, active) = (err (runner e), active, h)

  -- What other tasks do to the gate meanwhile is the argument `others`.
  unfoldable pub run :
      (Active → Active)
      → Active
      → List Call
      → Result String CreateOperationError × Active × List Call
  unfolding flatten run_exclusive
  run others active h =
      flatten h (run_exclusive receipt.instance_id (λ a. (run_locked h, others a)) active)

  -- `run_reserved`
  unfoldable pub run_with_reservation :
      Bool
      → (Active → Active)
      → Active
      → List Call
      → Result String CreateOperationError × Active × List Call
  unfolding flatten run_reserved
  run_with_reservation same_runner others active h =
      flatten h
        (run_reserved same_runner receipt.instance_id (λ a. (run_locked h, others a)) active)
