-- ===== src/Database/Operations/Progress.antt =====
-- crates/adapters/src/operation_journal.rs: the transactions of the steps, attempts and statuses.
use compose_nest.Common.{
  ℕ, ◌+◌, String, Bool, true, false, not, ◌&&◌, ◌||◌, Option, none, some, List, [], ◌∷◌, ◌++◌, ok,
  err, map, any, update, str_eq, ◌==◌, leb, i64_max, if◌then◌else◌,
}
use compose_nest.Instance.Operation.{OperationStatus, is_unresolved}
use compose_nest.Journal.{StoreConflict, RequestReceipt, StepIntent, StepOutcome, StepRecord}
use compose_nest.Database.{
  DatabaseError, missing, map_error, OperationRow, StepRow, Tables, steps_of, is_open, latest,
}
use compose_nest.Database.Operations.Acceptance.{Work}

abbrev pub is_running : OperationStatus → Bool
is_running OperationStatus.accepted = true
is_running OperationStatus.executing = true
is_running _ = false

abbrev pub is_stalled : OperationStatus → Bool
is_stalled OperationStatus.failed = true
is_stalled OperationStatus.awaiting_decision = true
is_stalled OperationStatus.outcome_unknown = true
is_stalled _ = false

abbrev pub is_succeeded : OperationStatus → Bool
is_succeeded OperationStatus.succeeded = true
is_succeeded _ = false

abbrev pub is_abandoned : OperationStatus → Bool
is_abandoned OperationStatus.abandoned = true
is_abandoned _ = false

-- The next sequence number, and whether the step before it is still open.
abbrev pub next_sequence : Option StepRow → ℕ
next_sequence none = 1
next_sequence (some last) = if leb i64_max last.sequence then i64_max else last.sequence + 1

abbrev pub is_pending : Option StepRow → Bool
is_pending none = false
is_pending (some last) = is_open last

unfoldable pub new_step : StepIntent → String → StepRow
new_step step now = record {
  operation_id = step.operation_id;
  sequence = step.sequence;
  attempt = step.attempt;
  command_kind = step.command_kind;
  expected_result = step.expected_result;
  resource_id = step.resource_id;
  outcome = none;
  recorded_at = now;
  observed_at = none;
}

unfoldable pub record_on : StepIntent → String → Tables → Option OperationRow → Work (Unit {0})
unfolding latest new_step
record_on step now s none = err (map_error missing)
record_on step now s (some parent) =
    if not (parent.attempt == step.attempt && is_running parent.status)
    then err (map_error missing)
    else if not (step.sequence == next_sequence (latest (steps_of step.operation_id s.steps)))
        || is_pending (latest (steps_of step.operation_id s.steps))
    then err (map_error DatabaseError.invalid_input)
    else ok (tt, some (record s { steps = s.steps ++ new_step step now ∷ [] }))

-- The rows that `finish_step` changes, and how.
abbrev pub is_step : String → ℕ → StepRow → Bool
is_step operation_id sequence r = str_eq r.operation_id operation_id && r.sequence == sequence

abbrev pub with_outcome : StepOutcome → String → StepRow → StepRow
with_outcome outcome now r = record r { outcome = some outcome; observed_at = some now }

abbrev pub with_status : OperationStatus → String → Option String → OperationRow → OperationRow
with_status status phase completed_at r = record r {
  status = status;
  phase = phase;
  completed_at = completed_at;
}

abbrev pub is_operation : String → OperationRow → Bool
is_operation id r = str_eq r.id id

unfoldable pub retry_on : String → String → Tables → Option OperationRow → Work ℕ
retry_on operation_id phase s none = err StoreConflict.invalid_lifecycle
retry_on operation_id phase s (some operation) =
    if not (is_stalled operation.status) || any is_open (steps_of operation_id s.steps)
    then err StoreConflict.invalid_lifecycle
    else if leb i64_max operation.attempt
    then err (map_error DatabaseError.invalid_input)
    else ok (
      operation.attempt + 1,
      some (record s {
        operations =
            update (is_operation operation.id)
              (λ (r : OperationRow). record r {
                attempt = operation.attempt + 1;
                status = OperationStatus.executing;
                phase = phase;
              })
              s.operations;
      }),
    )

unfoldable pub set_on :
    String → OperationStatus → String → String → Tables → Option OperationRow → Work (Unit {0})
unfolding is_unresolved
set_on operation_id status phase now s none = err StoreConflict.invalid_lifecycle
set_on operation_id status phase now s (some current) =
    if not (is_unresolved current.status)
      || (is_succeeded status && any is_open (steps_of operation_id s.steps))
    then err StoreConflict.invalid_lifecycle
    else ok (
      tt,
      some (record s {
        operations =
            update (is_operation current.id)
              (with_status status phase (if is_unresolved status then none else some now))
              s.operations;
      }),
    )

-- A step as it is given to the application.
unfoldable pub to_record : OperationRow → RequestReceipt → StepRow → StepRecord
to_record operation receipt r = record {
  instance_id = operation.instance_id;
  scope_id = receipt.scope_id;
  sequence = r.sequence;
  attempt = r.attempt;
  command_kind = r.command_kind;
  resource_id = r.resource_id;
  expected_result = r.expected_result;
  outcome = r.outcome;
}

abbrev pub is_receipt_of : String → RequestReceipt → Bool
is_receipt_of operation_id r = str_eq r.operation_id operation_id

abbrev pub records_with :
    Option OperationRow → Option RequestReceipt → List StepRow → List StepRecord
records_with (some operation) (some receipt) rows = map (to_record operation receipt) rows
records_with _ _ rows = []
