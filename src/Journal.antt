-- ===== src/Journal.antt =====
-- crates/application/src/operation_journal.rs (and the conflicts of state_store.rs): the records of
-- accepted requests and effect steps, and the journal as an interface. The journal's answers come
-- from outside: each is a function of the arguments and of the history of calls.
pub mod Stored
use compose_nest.Common.{ℕ, String, Option, List, Result}
use compose_nest.Instance.Operation.{OperationKind, OperationStatus}

pub data StoreConflict : Type 0 where
  duplicate stale_revision missing invalid_lifecycle unresolved_operation : StoreConflict
  invalid_input artifact_modified artifact_unavailable artifact_invalid backend : StoreConflict

pub record OperationIntent : Type 0 where
  pub id : String
  pub instance_id : String
  pub kind : OperationKind
  pub phase : String
  pub expected_revision : ℕ
  pub old_spec_revision : Option ℕ
  pub new_spec_revision : Option ℕ

pub record RequestReceipt : Type 0 where
  pub scope_id : String
  pub request_id : String
  pub plan_id : Option String
  pub confirmed_revision : ℕ
  pub request_hash : String
  pub instance_id : String
  pub operation_id : String

pub data StepCommand : Type 0 where
  generate_artifact resolve_image create_bind create_volume compose_create : StepCommand
  compose_start compose_stop compose_restart remove_container remove_network observe : StepCommand

pub data ExpectedResult : Type 0 where
  artifact_ready image_resolved bind_created volume_created container_created : ExpectedResult
  container_running container_stopped container_absent state_observed : ExpectedResult

pub data StepOutcome : Type 0 where
  succeeded failed unknown : StepOutcome

unfoldable pub command_text : StepCommand → String
command_text generate_artifact = "generate_artifact"
command_text resolve_image = "resolve_image"
command_text create_bind = "create_bind"
command_text create_volume = "create_volume"
command_text compose_create = "compose_create"
command_text compose_start = "compose_start"
command_text compose_stop = "compose_stop"
command_text compose_restart = "compose_restart"
command_text remove_container = "remove_container"
command_text remove_network = "remove_network"
command_text observe = "observe"

unfoldable pub expected_text : ExpectedResult → String
expected_text artifact_ready = "artifact_ready"
expected_text image_resolved = "image_resolved"
expected_text bind_created = "bind_created"
expected_text volume_created = "volume_created"
expected_text container_created = "container_created"
expected_text container_running = "container_running"
expected_text container_stopped = "container_stopped"
expected_text container_absent = "container_absent"
expected_text state_observed = "state_observed"

unfoldable pub outcome_text : StepOutcome → String
outcome_text succeeded = "succeeded"
outcome_text failed = "failed"
outcome_text unknown = "unknown"

pub record StepIntent : Type 0 where
  pub operation_id : String
  pub sequence : ℕ
  pub attempt : ℕ
  pub command_kind : StepCommand
  pub resource_id : String
  pub expected_result : ExpectedResult

pub record StepRecord : Type 0 where
  pub instance_id : String
  pub scope_id : String
  pub sequence : ℕ
  pub attempt : ℕ
  pub command_kind : StepCommand
  pub resource_id : String
  pub expected_result : ExpectedResult
  pub outcome : Option StepOutcome

-- The trait, over a type `C` of calls. A call's effect on the journal is what later answers show.
pub record OperationJournal (C : Type 0) : Type 0 where
  pub accept : OperationIntent → RequestReceipt → List C → Result RequestReceipt StoreConflict
  pub receipt : String → String → List C → Result (Option RequestReceipt) StoreConflict
  pub plan_receipt : String → String → List C → Result (Option RequestReceipt) StoreConflict
  pub record_step : StepIntent → List C → Result (Unit {0}) StoreConflict
  pub steps_for_resource : String → String → List C → Result (List StepRecord) StoreConflict
  pub finish_step : String → ℕ → StepOutcome → List C → Result (Unit {0}) StoreConflict
  pub retry : String → String → List C → Result ℕ StoreConflict
  pub set_status : String → OperationStatus → String → List C → Result (Unit {0}) StoreConflict
