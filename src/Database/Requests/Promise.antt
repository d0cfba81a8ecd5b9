-- ===== src/Database/Requests/Promise.antt =====
-- crates/adapters/src/operation_journal.rs: what each request to the journal promises, of its answer
-- and of the tables that it leaves.
pub mod Granted
pub mod Acceptance
pub mod Kept
use compose_nest.Common.{
  ℕ, ◌+◌, ◌<◌, ◌≡◌, ◌≢◌, ◌⊎◌, String, Bool, true, false, not, ◌&&◌, Option, none, some, List, [],
  ◌∷◌, ◌++◌, Result, ok, err, any, find, length, select, update, str_eq, ◌==◌, i64_max,
  if◌then◌else◌,
}
use compose_nest.Instance.{Lifecycle}
use compose_nest.Instance.Operation.{OperationKind, OperationStatus, is_unresolved}
use compose_nest.Journal.{StoreConflict, OperationIntent, RequestReceipt, StepIntent, StepOutcome}
use compose_nest.Recovery.{VerifiedAbsence}
use compose_nest.Database.{
  InstanceRow, OperationRow, StepRow, Tables, Engine, Replied, find_operation, find_instance,
  steps_of, is_open, latest,
}
use compose_nest.Database.Operations.{
  find_receipt, is_same_request, has_request, by_plan, has_unresolved, is_running, is_stalled,
  next_sequence, is_pending, is_step, accept, record_step, finish_step, retry, set_status,
}
use compose_nest.Database.Resolution.{recover_on_startup, reconcile_step, abandon_verified}
use compose_nest.Database.Requests.{
  Request, accepting, recording, finishing, retrying, setting, recovering, reconciling, abandoning,
  is_known,
}

-- An answer that is a refusal leaves the tables as they were.
abbrev pub Settles : {A : Type 0} → Tables → (A → Tables → Type 0) → Replied A → Type 0
Settles s Done (ok a, t) = Done a t
Settles s Done (err c, t) = t ≡ s

-- The fields of one operation.
abbrev pub of_operation : String → OperationRow → Bool
of_operation id r = str_eq r.id id

abbrev pub ended_at : OperationStatus → String → Option String
ended_at status now = if is_unresolved status then none else some now

-- A new operation may begin on this row of its instance.
pub record Begins (intent : OperationIntent) (receipt : RequestReceipt) (current : InstanceRow)
    (s : Tables) : Type 0 where
  pub found : find_instance intent.instance_id s.instances ≡ some current
  pub scope : current.scope_id ≡ receipt.scope_id
  pub managed : current.lifecycle ≡ Lifecycle.managed
  pub revision : current.revision ≡ intent.expected_revision
  pub same_operation : intent.id ≡ receipt.operation_id
  pub same_instance : intent.instance_id ≡ receipt.instance_id
  pub new_operation : find_operation intent.id s.operations ≡ none
  pub new_request : find (has_request receipt.scope_id receipt.request_id) s.receipts ≡ none
  pub new_plan : by_plan receipt.scope_id receipt.plan_id s.receipts ≡ none
  pub alone : has_unresolved intent.instance_id s.operations ≡ false
  pub of_delete :
      intent.kind ≡ OperationKind.delete
      → (receipt.confirmed_revision ≡ intent.expected_revision)
        × (intent.old_spec_revision ≡ none)
        × (intent.new_spec_revision ≡ none)
        × (intent.expected_revision < i64_max)

-- The instances after an acceptance: a Delete retires its own, under the next revision.
abbrev pub instances_after : OperationIntent → InstanceRow → List InstanceRow → List InstanceRow
instances_after intent current instances = elim intent.kind [
  | OperationKind.delete ↦
      update (λ (r : InstanceRow). str_eq r.id current.id)
        (λ (r : InstanceRow). record r {
          lifecycle = Lifecycle.retiring;
          revision = intent.expected_revision + 1;
        })
        instances
  | _ ↦ instances
]

module _ (engine : Engine) (s : Tables) where
  -- The tables after each kind of request that was granted.
  abbrev pub accepted_tables : OperationIntent → RequestReceipt → InstanceRow → Tables
  accepted_tables intent receipt current = record s {
    instances = instances_after intent current s.instances;
    operations =
        s.operations
        ++ record {
          id = intent.id;
          instance_id = intent.instance_id;
          status = OperationStatus.accepted;
          attempt = 1;
          kind = intent.kind;
          phase = intent.phase;
          expected_instance_revision = intent.expected_revision;
          old_spec_revision = intent.old_spec_revision;
          new_spec_revision = intent.new_spec_revision;
          started_at = engine.now s;
          completed_at = none;
        }
          ∷ [];
    receipts = s.receipts ++ receipt ∷ [];
  }

  abbrev pub recorded_tables : StepIntent → Tables
  recorded_tables step = record s {
    steps =
        s.steps
        ++ record {
          operation_id = step.operation_id;
          sequence = step.sequence;
          attempt = step.attempt;
          command_kind = step.command_kind;
          expected_result = step.expected_result;
          resource_id = step.resource_id;
          outcome = none;
          recorded_at = engine.now s;
          observed_at = none;
        }
          ∷ [];
  }

  -- These rows of the steps have come to an outcome.
  abbrev pub observed_tables : (StepRow → Bool) → StepOutcome → Tables
  observed_tables chosen outcome = record s {
    steps =
        update chosen
          (λ (r : StepRow). record r { outcome = some outcome; observed_at = some (engine.now s) })
          s.steps;
  }

  abbrev pub retried_tables : String → ℕ → String → Tables
  retried_tables id attempt phase = record s {
    operations =
        update (of_operation id)
          (λ (r : OperationRow). record r {
            attempt = attempt;
            status = OperationStatus.executing;
            phase = phase;
          })
          s.operations;
  }

  abbrev pub moved_tables : String → OperationStatus → String → Tables
  moved_tables id status phase = record s {
    operations =
        update (of_operation id)
          (λ (r : OperationRow). record r {
            status = status;
            phase = phase;
            completed_at = ended_at status (engine.now s);
          })
          s.operations;
  }

  abbrev pub to_interrupt : OperationRow → Bool
  to_interrupt r = elim r.status [ OperationStatus.executing ↦ true | _ ↦ false ]

  abbrev pub interrupted_tables : Tables
  interrupted_tables = record s {
    operations =
        update to_interrupt
          (λ (r : OperationRow). record r { status = OperationStatus.outcome_unknown })
          s.operations;
  }

  abbrev pub is_open_step : String → ℕ → StepRow → Bool
  is_open_step id sequence r = is_step id sequence r && is_open r

  -- What an answer to a request means.
  abbrev pub Accepted : OperationIntent → RequestReceipt → RequestReceipt → Tables → Type 0
  Accepted intent receipt a t =
      (find_receipt receipt.scope_id receipt.request_id receipt.plan_id s.receipts ≡ some a)
        × (is_same_request a receipt ≡ true)
        × (t ≡ s)
      ⊎ ((current : InstanceRow) × Begins intent receipt current s
          × (a ≡ receipt)
          × (t ≡ accepted_tables intent receipt current))

  abbrev pub Recorded : StepIntent → Tables → Type 0
  Recorded step t =
      (parent : OperationRow) × (find_operation step.operation_id s.operations ≡ some parent)
      × (is_running parent.status ≡ true)
      × (step.attempt ≡ parent.attempt)
      × (step.sequence ≡ next_sequence (latest (steps_of step.operation_id s.steps)))
      × (is_pending (latest (steps_of step.operation_id s.steps)) ≡ false)
      × (find (is_step step.operation_id step.sequence) s.steps ≡ none)
      × (t ≡ recorded_tables step)

  abbrev pub Retried : String → String → ℕ → Tables → Type 0
  Retried id phase attempt t =
      (current : OperationRow) × (find_operation id s.operations ≡ some current)
      × (is_stalled current.status ≡ true)
      × (any is_open (steps_of id s.steps) ≡ false)
      × (current.attempt < i64_max)
      × (attempt ≡ current.attempt + 1)
      × (t ≡ retried_tables id attempt phase)

  abbrev pub Moved : String → OperationStatus → String → Tables → Type 0
  Moved id status phase t =
      (current : OperationRow) × (find_operation id s.operations ≡ some current)
      × (is_unresolved current.status ≡ true)
      × (status ≢ OperationStatus.abandoned)
      × (status ≡ OperationStatus.succeeded → any is_open (steps_of id s.steps) ≡ false)
      × (t ≡ moved_tables id status phase)

  abbrev pub Reconciled : String → ℕ → StepOutcome → Tables → Type 0
  Reconciled id sequence outcome t =
      (parent : OperationRow) × (row : StepRow) × (find_operation id s.operations ≡ some parent)
      × (is_stalled parent.status ≡ true)
      × (find (is_step id sequence) s.steps ≡ some row)
      × (is_known row.outcome ≡ false)
      × (t ≡ observed_tables (is_step id sequence) outcome)

  abbrev pub Abandoned : VerifiedAbsence → Tables → Type 0
  Abandoned evidence t =
      (current : OperationRow) × (find_operation evidence.operation_id s.operations ≡ some current)
      × (current.kind ≢ OperationKind.delete)
      × (current.attempt ≡ evidence.attempt)
      × (is_stalled current.status ≡ true)
      × (any (λ (r : StepRow). not (is_known r.outcome)) (steps_of evidence.operation_id s.steps)
          ≡ false)
      × (t ≡ moved_tables evidence.operation_id OperationStatus.abandoned "abandoned")

  -- One statement finishes the open step, and an answer says that there was exactly one.
  abbrev pub Finished : String → ℕ → StepOutcome → Replied (Unit {0}) → Type 0
  Finished id sequence outcome (ok a, t) =
      (length (select (is_open_step id sequence) s.steps) ≡ 1)
      × (t ≡ observed_tables (is_open_step id sequence) outcome)
  Finished id sequence outcome (err c, t) =
      (t ≡ s)
      ⊎ ((length (select (is_open_step id sequence) s.steps) ≢ 1)
          × (t ≡ observed_tables (is_open_step id sequence) outcome))

  abbrev pub IsKept : Request → Type 0
  IsKept (accepting intent receipt) =
      Settles s (Accepted intent receipt) (accept engine intent receipt s)
  IsKept (recording step) = Settles s (λ _. Recorded step) (record_step engine step s)
  IsKept (finishing id sequence outcome) =
      Finished id sequence outcome (finish_step engine id sequence outcome s)
  IsKept (retrying id phase) = Settles s (Retried id phase) (retry engine id phase s)
  IsKept (setting id status phase) =
      Settles s (λ _. Moved id status phase) (set_status engine id status phase s)
  IsKept recovering = Settles s (λ _ t. t ≡ interrupted_tables) (recover_on_startup engine s)
  IsKept (reconciling id sequence outcome) =
      Settles s (λ _. Reconciled id sequence outcome) (reconcile_step engine id sequence outcome s)
  IsKept (abandoning evidence) =
      Settles s (λ _. Abandoned evidence) (abandon_verified engine evidence s)
