-- ===== src/Tests/Completions.antt =====
-- crates/adapters/src/delete_state.rs and lifecycle_state.rs on a small database.
use compose_nest.Common.{some, String, all, ◌≡◌, refl, true, false, none, List, [], ◌∷◌, ok, arith}
use compose_nest.Instance.{RuntimeStatus, Lifecycle, StorageOwnership, StoragePresence}
use compose_nest.Instance.Operation.{OperationKind, OperationStatus}
use compose_nest.Journal.{RequestReceipt, StepOutcome}
use compose_nest.Database.{
  steps_of, is_open, DatabaseError, SqliteCode, InstanceRow, OperationRow, StepRow, Tables, Engine,
  find_operation,
}
use compose_nest.Database.Operations.{is_succeeded, is_step, accept}
use compose_nest.Database.Requests.{Request, accepting, recording, finishing, setting, serve_all}
use compose_nest.Database.Requests.Preserved.{IsConsistent}
use compose_nest.Database.Requests.Consistent.{serve_all-IsConsistent}
use compose_nest.Delete.{StorageCheck}
use compose_nest.Database.Completion.{complete}
use compose_nest.Database.Completion.Succeeded.{complete-IsConsistent}
use compose_nest.Database.Deletion.{retired_tables, delete_pending}
use compose_nest.Database.Deletion.Retention.{is_retained, is_released}
use compose_nest.Database.Deletion.Retired.{complete_delete-retires, complete_delete-IsConsistent}
use compose_nest.Tests.Database.{
  small, small-EnforcesKeys, start_receipt, start_db, only_db, fresh_tables, first_step,
}

-- A deletion that is executing, of an instance with one storage slot and one port.
abbrev delete_receipt : RequestReceipt
delete_receipt = record start_receipt { request_id = "r2"; operation_id = "del" }

abbrev deleting_tables : Tables
deleting_tables = record {
  instances =
      record {
        id = "db";
        scope_id = "scope";
        lifecycle = Lifecycle.retiring;
        revision = 2;
        applied_spec_revision = none;
      }
      ∷ [];
  operations =
      record {
        id = "del";
        instance_id = "db";
        status = OperationStatus.executing;
        attempt = 1;
        kind = OperationKind.delete;
        phase = "delete_check";
        expected_instance_revision = 1;
        old_spec_revision = none;
        new_spec_revision = none;
        started_at = "2026-01-01T00:00:00Z";
        completed_at = none;
      }
      ∷ [];
  steps = [];
  receipts = delete_receipt ∷ [];
  storages =
      record {
        instance_id = "db";
        slot = "data";
        ownership = StorageOwnership.assigned;
        presence = StoragePresence.present;
        observed_at = none;
      }
      ∷ [];
  artifacts = record { instance_id = "db"; placement = "published" } ∷ [];
  ports = record { instance_id = "db"; host_port = 5432; status = "active" } ∷ [];
  observations = [];
}

abbrev data_check : List StorageCheck
data_check = record { slot = "data"; presence = StoragePresence.present } ∷ []

abbrev deleted_tables : Tables
deleted_tables =
    retired_tables delete_receipt data_check "2026-01-01T00:00:00Z"
      (record {
        id = "del";
        instance_id = "db";
        status = OperationStatus.executing;
        attempt = 1;
        kind = OperationKind.delete;
        phase = "delete_check";
        expected_instance_revision = 1;
        old_spec_revision = none;
        new_spec_revision = none;
        started_at = "2026-01-01T00:00:00Z";
        completed_at = none;
      })
      (record {
        id = "db";
        scope_id = "scope";
        lifecycle = Lifecycle.retiring;
        revision = 2;
        applied_spec_revision = none;
      })
      deleting_tables

complete_delete-retires_example :
    (delete_pending small delete_receipt deleted_tables ≡ ok false)
    × (all (is_retained "db") deleted_tables.storages ≡ true)
    × (all (is_released "db") deleted_tables.ports ≡ true)
    × (deleted_tables.steps ≡ deleting_tables.steps)
    × (deleted_tables.receipts ≡ deleting_tables.receipts)
unfolding compose_nest.Database.Deletion.complete_delete compose_nest.Database.orm_read
    compose_nest.Database.Operations.find_receipt
complete_delete-retires_example =
    complete_delete-retires small delete_receipt data_check deleting_tables deleted_tables refl refl

deleting-IsConsistent : IsConsistent deleting_tables
deleting-IsConsistent = record {
  step_keys = tt;
  keys = (refl, tt);
  single = λ id. ground arith;
  logs = λ id. tt;
  closed = λ id r found done. refl;
  owned = λ id lost. refl;
}

complete_delete-IsConsistent_example : IsConsistent deleted_tables
unfolding compose_nest.Database.Deletion.complete_delete compose_nest.Database.orm_read
    compose_nest.Database.Operations.find_receipt
complete_delete-IsConsistent_example =
    complete_delete-IsConsistent small delete_receipt data_check deleting_tables deleted_tables
      deleting-IsConsistent refl

-- The start of the instance, once its step has succeeded.
abbrev started : List Request
started =
    accepting start_db start_receipt
    ∷ setting "op" OperationStatus.executing "start"
    ∷ recording first_step
    ∷ finishing "op" 1 StepOutcome.succeeded
    ∷ []

abbrev started_tables : Tables
started_tables = serve_all small started fresh_tables

abbrev container : String
container = "0123456789abcdef0123456789abcdef0123456789abcdef0123456789abcdef"

abbrev ready_tables : Tables
ready_tables = (complete small "op" container RuntimeStatus.ready started_tables).1

complete-IsConsistent_example :
    IsConsistent ready_tables
    × ((op : OperationRow) × (find_operation "op" ready_tables.operations ≡ some op)
        × (is_succeeded op.status ≡ true))
unfolding compose_nest.Database.Operations.finish_step compose_nest.Database.Operations.is_revision
    compose_nest.Database.Operations.record_step compose_nest.Database.Operations.set_status accept
    compose_nest.Database.Operations.is_hash complete
complete-IsConsistent_example =
    complete-IsConsistent small "op" container RuntimeStatus.ready started_tables ready_tables
      (serve_all-IsConsistent small small-EnforcesKeys started only_db) refl refl
