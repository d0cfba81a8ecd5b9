-- ===== src/Database/Completion.antt =====
-- crates/adapters/src/lifecycle_state.rs: the completion of a lifecycle operation.
pub mod Succeeded
use compose_nest.Common.{
  ℕ, String, Bool, true, false, not, ◌&&◌, ◌||◌, Option, none, some, List, [], ◌∷◌, Result, ok, err,
  length, select, update, str_eq, ◌==◌, if◌then◌else◌,
}
use compose_nest.Instance.{Lifecycle, lifecycle_eq, RuntimeStatus}
use compose_nest.Instance.Operation.{OperationKind, OperationStatus}
use compose_nest.Journal.{StoreConflict}
use compose_nest.Database.{
  DatabaseError, map_error, InstanceRow, OperationRow, ObservationRow, Tables, Engine,
  find_operation, find_instance, Replied, orm_write,
}
use compose_nest.Database.Operations.{is_hash, is_operation, with_status, Work}
use compose_nest.Database.Resolution.{is_executing_row}
use compose_nest.Database.Deletion.{observation_of}

-- The state and the health that are written for a final status.
unfoldable pub runtime_columns : RuntimeStatus → Option (String × Option String)
runtime_columns RuntimeStatus.ready = some ("running", some "healthy")
runtime_columns RuntimeStatus.stopped = some ("stopped", none)
runtime_columns RuntimeStatus.absent = some ("absent", none)
runtime_columns _ = none

abbrev pub is_lifecycle_kind : OperationKind → Bool
is_lifecycle_kind OperationKind.start = true
is_lifecycle_kind OperationKind.stop = true
is_lifecycle_kind OperationKind.restart = true
is_lifecycle_kind _ = false

abbrev pub same_revision : Option ℕ → Option ℕ → Bool
same_revision none none = true
same_revision (some a) (some b) = a == b
same_revision _ _ = false

unfoldable pub observe_final :
    String
    → String
    → String
    → String × Option String
    → String
    → List ObservationRow
    → List ObservationRow
observe_final instance_id operation_id container_id columns now rows =
    update (observation_of instance_id)
      (λ (r : ObservationRow). record r {
        operation_id = some operation_id;
        container_id = some container_id;
        runtime_state = columns.0;
        health = columns.1;
        observed_at = now;
        freshness = "fresh";
      })
      rows

unfoldable pub succeed_on :
    String
    → String
    → String × Option String
    → String
    → Tables
    → OperationRow
    → Option InstanceRow
    → Work (Unit {0})
unfolding observe_final
succeed_on operation_id container_id columns now s op none = err (map_error DatabaseError.missing)
succeed_on operation_id container_id columns now s op (some owned) =
    if not (is_executing_row op)
      || not (lifecycle_eq owned.lifecycle Lifecycle.managed)
      || not (is_lifecycle_kind op.kind)
      || not (same_revision op.old_spec_revision owned.applied_spec_revision)
    then err (map_error DatabaseError.invalid_input)
    else if not (length (select (observation_of op.instance_id) s.observations) == 1)
    then err (map_error DatabaseError.missing)
    else ok (
      tt,
      some (record s {
        observations =
            observe_final op.instance_id operation_id container_id columns now s.observations;
        operations =
            update (is_operation operation_id)
              (with_status OperationStatus.succeeded columns.0 (some now)) s.operations;
      }),
    )

unfoldable pub succeed_found :
    String
    → String
    → String × Option String
    → String
    → Tables
    → Option OperationRow
    → Work (Unit {0})
unfolding succeed_on
succeed_found operation_id container_id columns now s none = err (map_error DatabaseError.missing)
succeed_found operation_id container_id columns now s (some op) =
    succeed_on operation_id container_id columns now s op (find_instance op.instance_id s.instances)

module _ (engine : Engine) where
  abbrev pub succeed_work : String → String → String × Option String → Tables → Work (Unit {0})
  succeed_work operation_id container_id columns t =
      succeed_found operation_id container_id columns (engine.now t) t
        (find_operation operation_id t.operations)

  unfoldable pub complete_as :
      String → String → Option (String × Option String) → Tables → Replied (Unit {0})
  unfolding orm_write succeed_found
  complete_as operation_id container_id none s = (err StoreConflict.invalid_input, s)
  complete_as operation_id container_id (some columns) s =
      orm_write engine (succeed_work operation_id container_id columns) s

  unfoldable pub complete : String → String → RuntimeStatus → Tables → Replied (Unit {0})
  unfolding complete_as runtime_columns is_hash
  complete operation_id container_id status s =
      if not (is_hash container_id)
      then (err StoreConflict.invalid_input, s)
      else complete_as operation_id container_id (runtime_columns status) s
