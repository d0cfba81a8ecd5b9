-- ===== src/Runner/Step.antt =====
-- crates/application/src/operation_runner.rs: `run_step`, and the events of lib.rs that it sends.
-- The journal, the external action and the progress sink answer from outside: each answer is a
-- function of the history of calls, the newest first.
pub mod Heeding
pub mod Durability
pub mod Protocol
use compose_nest.Common.{
  ℕ, String, Bool, true, false, not, ◌||◌, Option, none, some, List, [], ◌∷◌, Result, ok, err,
  map_err, is_ok, Exec, perform, pure, raise, resume, ◌>>=◌, ◌>>◌, if◌then◌else◌, str_eq,
}
use compose_nest.Instance.Operation.{OperationStatus, executing, succeeded, outcome_unknown}
use compose_nest.Journal.{
  StoreConflict, invalid_input, RequestReceipt, StepIntent, StepOutcome, OperationJournal,
  command_text,
}
use compose_nest.Runner.{RunnerError, prerequisite, store, Active, enter, release, guard}

pub data OperationEventKind : Type 0 where
  accepted progress completed failed : OperationEventKind

pub record OperationEvent : Type 0 where
  pub operation_id : String
  pub instance_id : Option String
  pub revision : ℕ
  pub sequence : ℕ
  pub kind : OperationEventKind

pub data Call : Type 0 where
  validate execute observe : Call
  record_step : StepIntent → Call
  set_status : String → OperationStatus → String → Call
  finish_step : String → ℕ → StepOutcome → Call
  send : OperationEvent → Call

-- `OperationStep`: a fixed external action.
pub record OperationStep : Type 0 where
  pub validate : List Call → Result (Unit {0}) String
  pub execute : List Call → Result (Unit {0}) String
  pub observe : List Call → Result StepOutcome String

-- `match observed`
unfoldable pub judge : Bool → Result StepOutcome String → StepOutcome
judge executed (ok StepOutcome.succeeded) =
    if executed then StepOutcome.succeeded else StepOutcome.unknown
judge executed (ok StepOutcome.failed) = StepOutcome.failed
judge executed (ok StepOutcome.unknown) = StepOutcome.unknown
judge executed (err e) = StepOutcome.unknown

unfoldable pub status_of : StepOutcome → Bool → OperationStatus
status_of StepOutcome.succeeded final_step = if final_step then succeeded else executing
status_of StepOutcome.failed final_step = OperationStatus.failed
status_of StepOutcome.unknown final_step = outcome_unknown

unfoldable pub event_kind : OperationStatus → OperationEventKind
event_kind succeeded = OperationEventKind.completed
event_kind OperationStatus.failed = OperationEventKind.failed
event_kind outcome_unknown = OperationEventKind.failed
event_kind _ = OperationEventKind.progress

unfoldable pub reply : StepOutcome → Result (Unit {0}) RunnerError
reply StepOutcome.succeeded = ok tt
reply StepOutcome.failed = err RunnerError.failed
reply StepOutcome.unknown = err RunnerError.outcome_unknown

unfoldable pub event : StepIntent → RequestReceipt → OperationStatus → OperationEvent
unfolding event_kind
event step receipt status = record {
  operation_id = step.operation_id;
  instance_id = some receipt.instance_id;
  revision = receipt.confirmed_revision;
  sequence = step.sequence;
  kind = event_kind status;
}

module _ (journal : OperationJournal Call) (action : OperationStep) where
  -- The part of `run_step` after the observation.
  unfoldable pub conclude :
      StepIntent → RequestReceipt → Bool → StepOutcome → Exec Call RunnerError (Unit {0})
  unfolding status_of event reply
  conclude step receipt final_step outcome = do
    perform (finish_step step.operation_id step.sequence outcome)
        λ h. map_err store (journal.finish_step step.operation_id step.sequence outcome h)
    perform
        (set_status step.operation_id (status_of outcome final_step)
          (command_text step.command_kind))
        λ h. map_err store (
          journal.set_status step.operation_id (status_of outcome final_step)
            (command_text step.command_kind) h)
    perform (send (event step receipt (status_of outcome final_step))) λ _. ok tt
    λ h. (reply outcome, h)

  -- The part under the guard.
  unfoldable pub run_guarded : StepIntent → RequestReceipt → Bool → Exec Call RunnerError (Unit {0})
  unfolding judge conclude
  run_guarded step receipt final_step = do
    perform validate λ h. map_err prerequisite (action.validate h)
    perform (record_step step) λ h. map_err store (journal.record_step step h)
    perform (set_status step.operation_id executing (command_text step.command_kind)) λ h.
        map_err store
          (journal.set_status step.operation_id executing (command_text step.command_kind) h)
    executed ← perform execute λ h. ok (is_ok (action.execute h))
    observed ← perform observe λ h. ok (action.observe h)
    conclude step receipt final_step (judge executed observed)

  -- Go on behind the gate, and release it on every way out.
  unfoldable pub run_admitted :
      StepIntent
      → RequestReceipt
      → Bool
      → Result (Unit {0}) RunnerError × Active
      → List Call
      → Result (Unit {0}) RunnerError × Active × List Call
  run_admitted step receipt final_step (err e, active) h = (err e, active, h)
  run_admitted step receipt final_step (ok _, active) h =
      let (result, h') = run_guarded step receipt final_step h in
      (result, release (guard receipt.instance_id) active, h')

  unfoldable pub run_step :
      StepIntent
      → RequestReceipt
      → Bool
      → Active
      → List Call
      → Result (Unit {0}) RunnerError × Active × List Call
  unfolding run_admitted
  run_step step receipt final_step active h =
      if not (str_eq receipt.operation_id step.operation_id) || str_eq receipt.instance_id ""
      then (err (store invalid_input), active, h)
      else run_admitted step receipt final_step (enter receipt.instance_id active) h
