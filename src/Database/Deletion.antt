-- ===== src/Database/Deletion.antt =====
-- crates/adapters/src/delete_state.rs: whether a deletion is still to be done, and its completion.
pub mod Retention
pub mod Completed
pub mod Retired
use compose_nest.Common.{
  ℕ, ◌+◌, String, Bool, true, false, not, ◌&&◌, ◌||◌, Option, none, some, List, [], ◌∷◌, ◌++◌,
  Result, ok, err, any, all, length, find, select, update, is_some, str_eq, ◌==◌, ltb, leb, i64_max,
  if◌then◌else◌,
}
use compose_nest.Instance.{Lifecycle, lifecycle_eq, StorageOwnership}
use compose_nest.Instance.Operation.{OperationStatus}
use compose_nest.Journal.{StoreConflict, RequestReceipt}
use compose_nest.Delete.{StorageCheck}
use compose_nest.Database.{
  DatabaseError, map_error, InstanceRow, OperationRow, StepRow, StorageRow, ArtifactRow, PortRow,
  ObservationRow, Tables, Engine, find_operation, find_instance, steps_of, is_open, Replied,
  orm_write, orm_read,
}
use compose_nest.Database.Operations.{
  receipt_eq, is_delete, is_succeeded, is_operation, with_status, Work, receipt,
}
use compose_nest.Database.Resolution.{is_replaceable, is_executing_row}

-- `self.receipt(...)?.as_ref() != Some(receipt)`
unfoldable pub is_saved : RequestReceipt → Option RequestReceipt → Bool
unfolding receipt_eq
is_saved receipt none = false
is_saved receipt (some saved) = receipt_eq saved receipt

-- `expected.checked_add(1) == Some(revision)` on an i64.
abbrev pub follows : ℕ → ℕ → Bool
follows expected revision = ltb expected i64_max && revision == expected + 1

abbrev pub is_pending_status : OperationRow → Bool
is_pending_status op = elim op.status [
  | OperationStatus.accepted ↦ true
  | OperationStatus.executing ↦ ltb 1 op.attempt
  | _ ↦ false
]

abbrev pub belongs : RequestReceipt → OperationRow → InstanceRow → Bool
belongs receipt op owned =
    is_delete op.kind && str_eq op.instance_id owned.id && str_eq owned.scope_id receipt.scope_id

-- The query of `delete_pending` on the rows that it found.
unfoldable pub pending_on :
    RequestReceipt → Tables → Option OperationRow → Option InstanceRow → Result Bool StoreConflict
pending_on receipt s none owned = err (map_error DatabaseError.missing)
pending_on receipt s (some op) none = err (map_error DatabaseError.missing)
pending_on receipt s (some op) (some owned) =
    if not (belongs receipt op owned)
    then err (map_error DatabaseError.invalid_input)
    else if is_succeeded op.status && lifecycle_eq owned.lifecycle Lifecycle.retired
    then ok false
    else if not (is_pending_status op)
        || not (lifecycle_eq owned.lifecycle Lifecycle.retiring)
        || not (follows op.expected_instance_revision owned.revision)
        || any (λ (r : StepRow). is_replaceable r.outcome) (steps_of op.id s.steps)
    then err (map_error DatabaseError.invalid_input)
    else ok true

abbrev pub storage_of : String → List StorageRow → List StorageRow
storage_of id rows = select (λ (r : StorageRow). str_eq r.instance_id id) rows

-- Every allocation has one check, and there are no other checks.
unfoldable pub is_checked : List StorageRow → List StorageCheck → Bool
is_checked allocations storage =
    length allocations == length storage
    && all
        (λ (a : StorageRow).
          length (select (λ (k : StorageCheck). str_eq k.slot a.slot) storage) == 1)
        allocations

-- The loop over the checks.
unfoldable pub retain_all : String → String → List StorageCheck → List StorageRow → List StorageRow
retain_all id now [] rows = rows
retain_all id now (k ∷ ks) rows = retain_all id now ks (
    update (λ (r : StorageRow). str_eq r.instance_id id && str_eq r.slot k.slot)
      (λ (r : StorageRow). record r {
        ownership = StorageOwnership.retained;
        presence = k.presence;
        observed_at = some now;
      })
      rows)

unfoldable pub retain_artifacts : String → List ArtifactRow → List ArtifactRow
retain_artifacts id rows =
    update (λ (r : ArtifactRow). str_eq r.instance_id id && str_eq r.placement "published")
      (λ (r : ArtifactRow). record r { placement = "retained" }) rows

unfoldable pub release_ports : String → List PortRow → List PortRow
release_ports id rows =
    update (λ (r : PortRow). str_eq r.instance_id id)
      (λ (r : PortRow). record r { status = "released" }) rows

unfoldable pub retire_instance : String → ℕ → List InstanceRow → List InstanceRow
retire_instance id revision rows =
    update (λ (r : InstanceRow). str_eq r.id id)
      (λ (r : InstanceRow). record r { lifecycle = Lifecycle.retired; revision = revision }) rows

abbrev pub observation_of : String → ObservationRow → Bool
observation_of id r = str_eq r.instance_id id

-- The row is inserted unless there is one, and then updated.
unfoldable pub observe_absent : String → String → String → List ObservationRow → List ObservationRow
observe_absent id operation_id now rows =
    update (observation_of id)
      (λ (r : ObservationRow). record r {
        operation_id = some operation_id;
        runtime_state = "absent";
        health = none;
        observed_at = now;
        freshness = "fresh";
      })
      (if any (observation_of id) rows
        then rows
        else rows
          ++ record {
            instance_id = id;
            operation_id = none;
            container_id = none;
            runtime_state = "absent";
            health = none;
            observed_at = now;
            freshness = "fresh";
          }
            ∷ [])

-- What the transaction of `complete_delete` makes of the tables.
unfoldable pub retired_tables :
    RequestReceipt → List StorageCheck → String → OperationRow → InstanceRow → Tables → Tables
unfolding retain_all retain_artifacts release_ports retire_instance observe_absent
retired_tables receipt storage now op owned s = record s {
  storages = retain_all owned.id now storage s.storages;
  artifacts = retain_artifacts owned.id s.artifacts;
  ports = release_ports owned.id s.ports;
  instances = retire_instance owned.id (owned.revision + 1) s.instances;
  operations =
      update (is_operation op.id) (with_status OperationStatus.succeeded "retired" (some now))
        s.operations;
  observations = observe_absent owned.id receipt.operation_id now s.observations;
}

unfoldable pub complete_on :
    RequestReceipt
    → List StorageCheck
    → String
    → Tables
    → Option OperationRow
    → Option InstanceRow
    → Work (Unit {0})
unfolding is_checked retired_tables
complete_on receipt storage now s none owned = err (map_error DatabaseError.missing)
complete_on receipt storage now s (some op) none = err (map_error DatabaseError.missing)
complete_on receipt storage now s (some op) (some owned) =
    if not (belongs receipt op owned)
      || not (is_executing_row op)
      || not (lifecycle_eq owned.lifecycle Lifecycle.retiring)
      || not (follows op.expected_instance_revision owned.revision)
      || any is_open (steps_of op.id s.steps)
    then err (map_error DatabaseError.invalid_input)
    else if not (is_checked (storage_of owned.id s.storages) storage)
    then err (map_error DatabaseError.invalid_input)
    else if leb i64_max owned.revision
    then err (map_error DatabaseError.invalid_input)
    else ok (tt, some (retired_tables receipt storage now op owned s))

-- The test of the receipt, which is a query of its own, and what follows it.
unfoldable pub if_saved :
    {A : Type 0}
    → RequestReceipt
    → Result (Option RequestReceipt) StoreConflict
    → Result A StoreConflict
    → Result A StoreConflict
unfolding is_saved
if_saved receipt (err c) rest = err c
if_saved receipt (ok saved) rest =
    if is_saved receipt saved then rest else err StoreConflict.invalid_input

unfoldable pub and_tables :
    {A : Type 0}
    → RequestReceipt
    → Result (Option RequestReceipt) StoreConflict
    → Tables
    → Replied A
    → Replied A
unfolding is_saved
and_tables receipt (err c) s rest = (err c, s)
and_tables receipt (ok saved) s rest =
    if is_saved receipt saved then rest else (err StoreConflict.invalid_input, s)

module _ (engine : Engine) where
  abbrev pub pending_work : RequestReceipt → Tables → Result Bool StoreConflict
  pending_work r t =
      pending_on r t (find_operation r.operation_id t.operations)
        (find_instance r.instance_id t.instances)

  unfoldable pub delete_pending : RequestReceipt → Tables → Result Bool StoreConflict
  unfolding if_saved receipt orm_read pending_on
  delete_pending r s =
      if_saved r (receipt engine r.scope_id r.request_id s) (orm_read engine (pending_work r) s)

  abbrev pub complete_work : RequestReceipt → List StorageCheck → Tables → Work (Unit {0})
  complete_work r storage t =
      complete_on r storage (engine.now t) t (find_operation r.operation_id t.operations)
        (find_instance r.instance_id t.instances)

  unfoldable pub complete_delete : RequestReceipt → List StorageCheck → Tables → Replied (Unit {0})
  unfolding and_tables receipt orm_write complete_on
  complete_delete r storage s =
      and_tables r (receipt engine r.scope_id r.request_id s) s
        (orm_write engine (complete_work r storage) s)
