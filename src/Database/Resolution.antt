-- ===== src/Database/Resolution.antt =====
-- crates/adapters/src/operation_journal.rs: the recovery of interrupted operations on the tables.
use compose_nest.Common.{
  ℕ, String, Bool, true, false, not, ◌||◌, Option, none, some, List, [], ◌∷◌, Result, ok, err, map,
  any, find, select, update, ◌==◌, if◌then◌else◌,
}
use compose_nest.Instance.Operation.{OperationStatus, is_unresolved}
use compose_nest.Journal.{StoreConflict, RequestReceipt, StepOutcome}
use compose_nest.Recovery.{RecoverableOperation, VerifiedAbsence}
use compose_nest.Database.{
  DatabaseError, map_error, OperationRow, StepRow, Tables, Engine, find_operation, steps_of,
  in_order, Replied, orm_write, orm_read,
}
use compose_nest.Database.Operations.{
  is_revision, is_delete, is_stalled, is_step, is_operation, with_outcome, with_status, to_record,
  is_receipt_of, Work,
}

-- `recovery_snapshot`
unfoldable pub snapshot_with :
    OperationRow → Tables → Option RequestReceipt → Result RecoverableOperation StoreConflict
unfolding in_order to_record
snapshot_with operation s none = err (map_error DatabaseError.missing)
snapshot_with operation s (some receipt) = ok (record {
  id = operation.id;
  instance_id = operation.instance_id;
  kind = operation.kind;
  status = operation.status;
  phase = operation.phase;
  attempt = operation.attempt;
  steps = map (to_record operation receipt) (in_order (steps_of operation.id s.steps));
})

unfoldable pub recovery_snapshot : Tables → OperationRow → Result RecoverableOperation StoreConflict
unfolding snapshot_with
recovery_snapshot s operation =
    snapshot_with operation s (find (is_receipt_of operation.id) s.receipts)

-- `collect` into a result: the first error, or all values.
unfoldable pub collect :
    List (Result RecoverableOperation StoreConflict)
    → Result (List RecoverableOperation) StoreConflict
collect [] = ok []
collect (err c ∷ rs) = err c
collect (ok a ∷ rs) = elim (collect rs) [ ok as_found ↦ ok (a ∷ as_found) | err c ↦ err c ]

abbrev pub is_executing_row : OperationRow → Bool
is_executing_row r = elim r.status [ OperationStatus.executing ↦ true | _ ↦ false ]

abbrev pub is_unresolved_row : OperationRow → Bool
is_unresolved_row r = is_unresolved r.status

-- The update of `recover_on_startup`.
unfoldable pub interrupt : List OperationRow → List OperationRow
interrupt operations =
    update is_executing_row
      (λ (r : OperationRow). record r { status = OperationStatus.outcome_unknown }) operations

-- The outcomes that may be replaced, and the one that stands in the way of abandoning.
abbrev pub is_replaceable : Option StepOutcome → Bool
is_replaceable none = true
is_replaceable (some StepOutcome.unknown) = true
is_replaceable _ = false

unfoldable pub reconcile_found :
    String → ℕ → StepOutcome → String → Tables → Option StepRow → Work (Unit {0})
reconcile_found operation_id sequence outcome now s none = err (map_error DatabaseError.missing)
reconcile_found operation_id sequence outcome now s (some step) =
    if not (is_replaceable step.outcome)
    then err (map_error DatabaseError.invalid_input)
    else ok (
      tt,
      some (record s {
        steps = update (is_step operation_id sequence) (with_outcome outcome now) s.steps;
      }),
    )

unfoldable pub reconcile_on :
    String → ℕ → StepOutcome → String → Tables → Option OperationRow → Work (Unit {0})
unfolding reconcile_found
reconcile_on operation_id sequence outcome now s none = err (map_error DatabaseError.missing)
reconcile_on operation_id sequence outcome now s (some operation) =
    if not (is_stalled operation.status)
    then err (map_error DatabaseError.invalid_input)
    else reconcile_found operation_id sequence outcome now s
        (find (is_step operation_id sequence) s.steps)

unfoldable pub abandon_on :
    VerifiedAbsence → String → Tables → Option OperationRow → Work (Unit {0})
abandon_on evidence now s none = err (map_error DatabaseError.missing)
abandon_on evidence now s (some operation) =
    if is_delete operation.kind
      || not (operation.attempt == evidence.attempt)
      || not (is_stalled operation.status)
      || any (λ (r : StepRow). is_replaceable r.outcome) (steps_of evidence.operation_id s.steps)
    then err (map_error DatabaseError.invalid_input)
    else ok (
      tt,
      some (record s {
        operations =
            update (is_operation evidence.operation_id)
              (with_status OperationStatus.abandoned "abandoned" (some now)) s.operations;
      }),
    )

unfoldable pub recoverable_on :
    Tables → Option OperationRow → Result RecoverableOperation StoreConflict
unfolding is_unresolved
recoverable_on s none = err (map_error DatabaseError.missing)
recoverable_on s (some operation) =
    if is_unresolved operation.status
    then recovery_snapshot s operation
    else err (map_error DatabaseError.missing)

module _ (engine : Engine) where
  -- `order_by_asc(StartedAt)`
  unfoldable pub insert_started : OperationRow → List OperationRow → List OperationRow
  insert_started r [] = r ∷ []
  insert_started r (q ∷ qs) =
      let rest = insert_started r qs in
      if engine.not_after r.started_at q.started_at then r ∷ q ∷ qs else q ∷ rest

  unfoldable pub by_start : List OperationRow → List OperationRow
  unfolding insert_started
  by_start [] = []
  by_start (r ∷ rs) = insert_started r (by_start rs)

  -- The transaction of `recover_on_startup`, from its update on.
  unfoldable pub report : Tables → Work (List RecoverableOperation)
  unfolding collect by_start recovery_snapshot is_unresolved
  report s =
      elim (collect
        (map (recovery_snapshot s) (by_start (select is_unresolved_row s.operations)))) [
          | ok snapshots ↦ ok (snapshots, some s)
          | err c ↦ err c
        ]

  abbrev pub recover_work : Tables → Work (List RecoverableOperation)
  recover_work t = report (record t { operations = interrupt t.operations })

  unfoldable pub recover_on_startup : Tables → Replied (List RecoverableOperation)
  unfolding orm_write report interrupt
  recover_on_startup s = orm_write engine recover_work s

  unfoldable pub recoverable : String → Tables → Result RecoverableOperation StoreConflict
  unfolding orm_read recoverable_on
  recoverable operation_id s =
      orm_read engine (λ t. recoverable_on t (find_operation operation_id t.operations)) s

  abbrev pub reconcile_work : String → ℕ → StepOutcome → Tables → Work (Unit {0})
  reconcile_work operation_id sequence outcome t =
      reconcile_on operation_id sequence outcome (engine.now t) t
        (find_operation operation_id t.operations)

  unfoldable pub reconcile_step : String → ℕ → StepOutcome → Tables → Replied (Unit {0})
  unfolding orm_write reconcile_on
  reconcile_step operation_id sequence outcome s =
      if not (is_revision sequence)
      then (err StoreConflict.invalid_input, s)
      else orm_write engine (reconcile_work operation_id sequence outcome) s

  abbrev pub abandon_work : VerifiedAbsence → Tables → Work (Unit {0})
  abandon_work evidence t =
      abandon_on evidence (engine.now t) t (find_operation evidence.operation_id t.operations)

  unfoldable pub abandon_verified : VerifiedAbsence → Tables → Replied (Unit {0})
  unfolding orm_write abandon_on
  abandon_verified evidence s =
      if not (is_revision evidence.attempt)
      then (err StoreConflict.invalid_input, s)
      else orm_write engine (abandon_work evidence) s
