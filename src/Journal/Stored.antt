-- ===== src/Journal/Stored.antt =====
-- crates/adapters/src/operation_journal.rs: how the database spells kinds, statuses, commands and
-- outcomes, and how it reads them back.
pub mod RoundTrip
use compose_nest.Common.{String, Option, none, some, str_eq, if◌then◌else◌}
use compose_nest.Instance.Operation.{
  OperationKind, create, clone, start, stop, restart, rename, edit_port, delete, recover,
  OperationStatus, accepted, executing, failed, awaiting_decision, outcome_unknown, succeeded,
  abandoned,
}
use compose_nest.Journal.{
  StepCommand, generate_artifact, resolve_image, create_bind, create_volume, compose_create,
  compose_start, compose_stop, compose_restart, remove_container, remove_network, observe,
  ExpectedResult, artifact_ready, image_resolved, bind_created, volume_created, container_created,
  container_running, container_stopped, container_absent, state_observed, StepOutcome,
}

unfoldable pub kind_name : OperationKind → String
kind_name create = "create"
kind_name clone = "clone"
kind_name start = "start"
kind_name stop = "stop"
kind_name restart = "restart"
kind_name rename = "rename"
kind_name edit_port = "edit_port"
kind_name delete = "delete"
kind_name recover = "recover"

-- The inverse of `kind_name`.
unfoldable pub operation_kind : String → Option OperationKind
operation_kind s =
    if str_eq s "create"
    then some create
    else if str_eq s "clone"
    then some clone
    else if str_eq s "start"
    then some start
    else if str_eq s "stop"
    then some stop
    else if str_eq s "restart"
    then some restart
    else if str_eq s "rename"
    then some rename
    else if str_eq s "edit_port"
    then some edit_port
    else if str_eq s "delete"
    then some delete
    else if str_eq s "recover"
    then some recover
    else none

unfoldable pub status_name : OperationStatus → String
status_name accepted = "Accepted"
status_name executing = "Executing"
status_name failed = "Failed"
status_name awaiting_decision = "AwaitingDecision"
status_name outcome_unknown = "OutcomeUnknown"
status_name succeeded = "Succeeded"
status_name abandoned = "Abandoned"

-- The inverse of `status_name`.
unfoldable pub operation_status : String → Option OperationStatus
operation_status s =
    if str_eq s "Accepted"
    then some accepted
    else if str_eq s "Executing"
    then some executing
    else if str_eq s "Failed"
    then some failed
    else if str_eq s "AwaitingDecision"
    then some awaiting_decision
    else if str_eq s "OutcomeUnknown"
    then some outcome_unknown
    else if str_eq s "Succeeded"
    then some succeeded
    else if str_eq s "Abandoned"
    then some abandoned
    else none

-- The inverse of `StepCommand::as_str`.
unfoldable pub step_command : String → Option StepCommand
step_command s =
    if str_eq s "generate_artifact"
    then some generate_artifact
    else if str_eq s "resolve_image"
    then some resolve_image
    else if str_eq s "create_bind"
    then some create_bind
    else if str_eq s "create_volume"
    then some create_volume
    else if str_eq s "compose_create"
    then some compose_create
    else if str_eq s "compose_start"
    then some compose_start
    else if str_eq s "compose_stop"
    then some compose_stop
    else if str_eq s "compose_restart"
    then some compose_restart
    else if str_eq s "remove_container"
    then some remove_container
    else if str_eq s "remove_network"
    then some remove_network
    else if str_eq s "observe"
    then some observe
    else none

-- The inverse of `ExpectedResult::as_str`.
unfoldable pub expected_result : String → Option ExpectedResult
expected_result s =
    if str_eq s "artifact_ready"
    then some artifact_ready
    else if str_eq s "image_resolved"
    then some image_resolved
    else if str_eq s "bind_created"
    then some bind_created
    else if str_eq s "volume_created"
    then some volume_created
    else if str_eq s "container_created"
    then some container_created
    else if str_eq s "container_running"
    then some container_running
    else if str_eq s "container_stopped"
    then some container_stopped
    else if str_eq s "container_absent"
    then some container_absent
    else if str_eq s "state_observed"
    then some state_observed
    else none

-- A missing outcome is read as one not yet recorded.
unfoldable pub step_outcome : Option String → Option (Option StepOutcome)
step_outcome none = some none
step_outcome (some s) =
    if str_eq s "succeeded"
    then some (some StepOutcome.succeeded)
    else if str_eq s "failed"
    then some (some StepOutcome.failed)
    else if str_eq s "unknown"
    then some (some StepOutcome.unknown)
    else none
