-- ===== src/Database/Operations.antt =====
-- crates/adapters/src/operation_journal.rs: the operation journal on the tables.
mod Acceptance
mod Progress
unfoldable pub use Acceptance.*
unfoldable pub use Progress.*
use compose_nest.Common.{
  ℕ, ◌+◌, String, Bool, true, false, not, ◌&&◌, ◌||◌, Option, none, some, List, [], ◌∷◌, ◌++◌,
  Result, ok, err, map, any, all, length, find, select, update, is_some, str_eq, ◌==◌, ltb, leb,
  Text, i64_max, if◌then◌else◌,
}
use compose_nest.Instance.{Lifecycle, lifecycle_eq}
use compose_nest.Instance.Operation.{OperationKind, OperationStatus, is_unresolved}
use compose_nest.Journal.{
  StoreConflict, OperationIntent, RequestReceipt, StepIntent, StepOutcome, StepRecord,
}
use compose_nest.Database.{
  DatabaseError, missing, map_error, InstanceRow, OperationRow, StepRow, Tables, Engine,
  find_operation, find_instance, steps_of, is_open, latest, in_order, Replied, orm_write, orm_read,
}

-- The test of `rows_affected`.
unfoldable pub count_rows : Replied ℕ → Replied (Unit {0})
count_rows (ok count, t) = (if count == 1 then ok tt else err StoreConflict.missing, t)
count_rows (err c, t) = (err c, t)

module _ (engine : Engine) where
  -- The transactions of `accept`, `record_step`, `finish_step`, `retry` and `set_status`.
  abbrev pub accept_work : OperationIntent → RequestReceipt → Tables → Work RequestReceipt
  accept_work intent receipt t =
      accept_found intent receipt (engine.now t) t
        (find_receipt receipt.scope_id receipt.request_id receipt.plan_id t.receipts)

  abbrev pub record_work : StepIntent → Tables → Work (Unit {0})
  record_work step t =
      record_on step (engine.now t) t (find_operation step.operation_id t.operations)

  abbrev pub finish_work : String → ℕ → StepOutcome → Tables → Work ℕ
  finish_work operation_id sequence outcome t = ok (
    length (select (λ r. is_step operation_id sequence r && is_open r) t.steps),
    some (record t {
      steps =
          update (λ r. is_step operation_id sequence r && is_open r)
            (with_outcome outcome (engine.now t)) t.steps;
    }),
  )

  abbrev pub retry_work : String → String → Tables → Work ℕ
  retry_work operation_id phase t =
      retry_on operation_id phase t (find_operation operation_id t.operations)

  abbrev pub set_work : String → OperationStatus → String → Tables → Work (Unit {0})
  set_work operation_id status phase t =
      set_on operation_id status phase (engine.now t) t (find_operation operation_id t.operations)

  unfoldable pub accept : OperationIntent → RequestReceipt → Tables → Replied RequestReceipt
  unfolding is_acceptable orm_write find_receipt accept_found
  accept intent receipt s =
      if not (is_acceptable intent receipt)
      then (err StoreConflict.invalid_input, s)
      else orm_write engine (accept_work intent receipt) s

  unfoldable pub receipt : String → String → Tables → Result (Option RequestReceipt) StoreConflict
  receipt scope_id request_id s =
      orm_read engine (λ t. ok (find_receipt scope_id request_id none t.receipts)) s

  unfoldable pub plan_receipt :
      String → String → Tables → Result (Option RequestReceipt) StoreConflict
  plan_receipt scope_id plan_id s =
      orm_read engine (λ t. ok (find (has_plan scope_id plan_id) t.receipts)) s

  unfoldable pub record_step : StepIntent → Tables → Replied (Unit {0})
  unfolding orm_write record_on
  record_step step s =
      if str_eq step.operation_id ""
        || str_eq step.resource_id ""
        || not (is_revision step.sequence)
        || not (is_revision step.attempt)
      then (err StoreConflict.invalid_input, s)
      else orm_write engine (record_work step) s

  unfoldable pub steps_for_resource :
      String → String → Tables → Result (List StepRecord) StoreConflict
  steps_for_resource operation_id resource_id s =
      orm_read engine
        (λ t. ok (
          records_with (find_operation operation_id t.operations)
            (find (is_receipt_of operation_id) t.receipts)
            (in_order (
              select (λ (r : StepRow). str_eq r.resource_id resource_id)
                (steps_of operation_id t.steps)))))
        s

  -- One statement, which commits by itself; the count of its rows is tested afterwards.
  unfoldable pub finish_step : String → ℕ → StepOutcome → Tables → Replied (Unit {0})
  unfolding orm_write count_rows
  finish_step operation_id sequence outcome s =
      if not (is_revision sequence)
      then (err StoreConflict.invalid_input, s)
      else count_rows (orm_write engine (finish_work operation_id sequence outcome) s)

  unfoldable pub retry : String → String → Tables → Replied ℕ
  unfolding orm_write retry_on
  retry operation_id phase s =
      if str_eq phase ""
      then (err StoreConflict.invalid_input, s)
      else orm_write engine (retry_work operation_id phase) s

  unfoldable pub set_status : String → OperationStatus → String → Tables → Replied (Unit {0})
  unfolding orm_write set_on
  set_status operation_id status phase s =
      if str_eq phase ""
      then (err StoreConflict.invalid_input, s)
      else if is_abandoned status
      then (err StoreConflict.invalid_lifecycle, s)
      else orm_write engine (set_work operation_id status phase) s
