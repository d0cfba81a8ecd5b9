-- ===== src/Tests/Changes.antt =====
-- crates/application/src/operation_recovery.rs, lifecycle_operation.rs and delete_operation.rs on
-- concrete answers.
use compose_nest.Common.{
  ℕ, ◌≡◌, ◌≢◌, ◌⊎◌, refl, String, Bool, true, false, Option, none, some, List, [], ◌∷◌, Result, ok,
  err, All, any, all, is_some, ◌>>=◌, perform, Heeds,
}
use compose_nest.Instance.{RuntimeStatus, StoragePresence}
use compose_nest.Instance.Operation.{OperationKind, OperationStatus}
use compose_nest.Journal.{
  OperationIntent, RequestReceipt, StepCommand, ExpectedResult, StepOutcome, StepRecord,
}
use compose_nest.Recovery
use compose_nest.Recovery.{
  RecoverableOperation, CurrentRuntime, RecoveryEvidence, RecoveryDecision, complete, hold,
  retry_allowed, makes_ready, is_ready_command, is_stop_command, classify_recovery, retry_operation,
  abandon_operation,
}
use compose_nest.Recovery.Safety.{
  IsGrounded, classify_sound, RetryRests, retry_needs_evidence, AbandonRests,
  abandon_needs_evidence,
}
use compose_nest.Lifecycle
use compose_nest.Lifecycle.Heeding as LifecycleHeeding
use compose_nest.Lifecycle.Locked.{run_locked}
use compose_nest.Lifecycle.Replies.{IsHonest}
use compose_nest.Lifecycle.Replies.Kinds.{run_locked-IsHonest}
use compose_nest.Delete
use compose_nest.Delete.Heeding as DeleteHeeding
use compose_nest.Delete.Retirement.{IsSound, run_locked-IsSound}

abbrev start_step : StepRecord
start_step = record {
  instance_id = "db";
  scope_id = "scope";
  sequence = 1;
  attempt = 1;
  command_kind = StepCommand.compose_start;
  resource_id = "c1";
  expected_result = ExpectedResult.container_running;
  outcome = some StepOutcome.failed;
}

abbrev failed_start : RecoverableOperation
failed_start = record {
  id = "op";
  instance_id = "db";
  kind = OperationKind.start;
  status = OperationStatus.failed;
  phase = "start";
  attempt = 1;
  steps = start_step ∷ [];
}

abbrev verified : CurrentRuntime → RecoveryEvidence
verified runtime = record {
  previous_cli_exited = true;
  target_matches = true;
  artifact_matches = true;
  storage_verified = true;
  docker_verified = true;
  runtime = runtime;
}

abbrev stopped_now : RecoveryEvidence
stopped_now = verified CurrentRuntime.stopped

classify_sound_example :
    (classify_recovery failed_start stopped_now ≢ hold → IsGrounded failed_start stopped_now)
    × (classify_recovery failed_start stopped_now ≡ complete
        → ((stopped_now.runtime ≡ CurrentRuntime.ready)
            × (makes_ready failed_start.kind ≡ true)
            × (any (λ (s : StepRecord). is_ready_command s.command_kind) failed_start.steps ≡ true))
          ⊎ ((failed_start.kind ≡ OperationKind.stop)
              × ((stopped_now.runtime ≡ CurrentRuntime.stopped)
                  ⊎ (stopped_now.runtime ≡ CurrentRuntime.absent))
              × (any (λ (s : StepRecord). is_stop_command s.command_kind) failed_start.steps
                  ≡ true)))
    × (classify_recovery failed_start stopped_now ≡ retry_allowed
        → (failed_start.kind ≡ OperationKind.start)
          × (failed_start.status ≡ OperationStatus.failed)
          × (stopped_now.runtime ≡ CurrentRuntime.stopped)
          × (failed_start.steps ≢ [])
          × (all (λ (s : StepRecord). is_some s.outcome) failed_start.steps ≡ true))
classify_sound_example = classify_sound failed_start stopped_now

retries : classify_recovery failed_start stopped_now ≡ retry_allowed
unfolding classify_recovery
retries = refl

completes : classify_recovery failed_start (verified CurrentRuntime.ready) ≡ complete
unfolding classify_recovery
completes = refl

abbrev probe : CurrentRuntime → Recovery.Outside
probe runtime = record {
  recoverable = λ id h. ok failed_start;
  inspect = λ op h. verified runtime;
  retry = λ id phase h. ok 2;
  abandon_verified = λ v h. ok tt;
}

retry_needs_evidence_example :
    All
      (RetryRests (probe CurrentRuntime.stopped) "op")
      (retry_operation (probe CurrentRuntime.stopped) "op" []).1
retry_needs_evidence_example = retry_needs_evidence (probe CurrentRuntime.stopped) "op"

retried : (retry_operation (probe CurrentRuntime.stopped) "op" []).0 ≡ ok 2
unfolding retry_operation ◌>>=◌ perform classify_recovery
retried = refl

abandon_needs_evidence_example :
    All
      (AbandonRests (probe CurrentRuntime.absent) "op")
      (abandon_operation (probe CurrentRuntime.absent) "op" []).1
abandon_needs_evidence_example = abandon_needs_evidence (probe CurrentRuntime.absent) "op"

abandoned : (abandon_operation (probe CurrentRuntime.absent) "op" []).0 ≡ ok tt
unfolding abandon_operation ◌>>=◌ perform Recovery.is_safe
abandoned = refl

abbrev receipt : RequestReceipt
receipt = record {
  scope_id = "scope";
  request_id = "r1";
  plan_id = none;
  confirmed_revision = 3;
  request_hash = "hash";
  instance_id = "db";
  operation_id = "op";
}

-- A container that is stopped until it is started.
abbrev docker : Lifecycle.Outside
docker = record {
  snapshot = λ r k h. ok (record { container_id = "c1"; spec_revision = 3 });
  set_status = λ o s p h. ok tt;
  record_step = λ i h. ok tt;
  finish_step = λ o n r h. ok tt;
  observe =
      λ id h. record { status = RuntimeStatus.stopped; owned = true; configuration_matches = true };
  verify_storage = λ h. ok tt;
  verify_artifact = λ h. ok tt;
  recreate = λ h. ok "c2";
  change = λ s id h. ok tt;
  wait_ready = λ id h. ok tt;
  complete = λ o id s h. ok tt;
}

run_locked-IsHonest_example :
    IsHonest docker receipt (run_locked docker receipt OperationKind.restart [])
run_locked-IsHonest_example = run_locked-IsHonest docker receipt OperationKind.restart

starts : (run_locked docker receipt OperationKind.start []).0 ≡ ok "c1"
unfolding run_locked ◌>>=◌ perform Lifecycle.mark compose_nest.Lifecycle.Locked.dispatch
    compose_nest.Lifecycle.Locked.run_start Lifecycle.check compose_nest.Common.attempt
    Lifecycle.or_fail Lifecycle.require_matching compose_nest.Lifecycle.Locked.start_container
    Lifecycle.step compose_nest.Lifecycle.Locked.finish
starts = refl

stops : (run_locked docker receipt OperationKind.stop []).0 ≡ ok "c1"
unfolding run_locked ◌>>=◌ perform Lifecycle.mark compose_nest.Lifecycle.Locked.dispatch
    compose_nest.Lifecycle.Locked.run_stop Lifecycle.step Lifecycle.or_fail
    compose_nest.Lifecycle.Locked.confirm_stopped compose_nest.Lifecycle.Locked.finish
stops = refl

abbrev intent : OperationIntent
intent = record {
  id = "op";
  instance_id = "db";
  kind = OperationKind.delete;
  phase = "accepted";
  expected_revision = 3;
  old_spec_revision = none;
  new_spec_revision = none;
}

abbrev kept : Delete.StorageCheck
kept = record { slot = "data"; presence = StoragePresence.present }

abbrev stages : Delete.Outside
stages = record {
  accept = λ i r h. ok r;
  delete_pending = λ r h. ok true;
  set_status = λ o s p h. ok tt;
  remove_runtime = λ r h. ok tt;
  inspect_storage = λ h. ok (kept ∷ []);
  runtime_absent = λ h. ok tt;
  complete_delete = λ r s h. ok tt;
}

run_locked-IsSound_example :
    let (reply, calls) = Delete.run_locked stages intent receipt true [] in
    IsSound stages intent receipt true (reply, calls) × Heeds (DeleteHeeding.Grants stages) calls
run_locked-IsSound_example = run_locked-IsSound stages intent receipt true

deletes : (Delete.run_locked stages intent receipt true []).0 ≡ ok receipt
unfolding Delete.run_locked Delete.is_refused ◌>>=◌ perform Delete.run_pending
    compose_nest.Common.attempt Delete.conclude Delete.run_stages
deletes = refl
