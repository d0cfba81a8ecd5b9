-- ===== src/Database/Requests.antt =====
-- crates/adapters/src/operation_journal.rs: any sequence of requests to the writer thread, and the
-- changes of the tables that they come to.
pub mod Transactions
pub mod Refines
pub mod Promise
pub mod Steps
pub mod Rows
pub mod Preserved
pub mod Consistent
pub mod History
pub mod Repeated
pub mod Reports
pub mod Startup
use compose_nest.Common.{
  ℕ, ◌+◌, ◌≡◌, String, Bool, true, false, ◌&&◌, Option, none, some, List, [], ◌∷◌, ◌++◌, Result, ok,
  any, find, update, ◌==◌,
}
use compose_nest.Instance.Operation.{OperationStatus, accepted, is_unresolved}
use compose_nest.Journal.{OperationIntent, RequestReceipt, StepIntent, StepOutcome}
use compose_nest.Recovery.{VerifiedAbsence}
use compose_nest.Database.{
  DatabaseError, InstanceRow, OperationRow, StepRow, Tables, Engine, find_operation, steps_of,
  is_open, latest,
}
use compose_nest.Database.Operations.{
  has_request, by_plan, has_unresolved, is_running, is_stalled, next_sequence, is_pending, is_step,
  is_operation, with_outcome, accept, record_step, finish_step, retry, set_status,
}
use compose_nest.Database.Resolution.{
  interrupt, is_replaceable, recover_on_startup, reconcile_step, abandon_verified,
}

-- A request that may change the tables.
pub data Request : Type 0 where
  accepting : OperationIntent → RequestReceipt → Request
  recording : StepIntent → Request
  finishing : String → ℕ → StepOutcome → Request
  retrying : String → String → Request
  setting : String → OperationStatus → String → Request
  recovering : Request
  reconciling : String → ℕ → StepOutcome → Request
  abandoning : VerifiedAbsence → Request

module _ (engine : Engine) where
  abbrev pub serve : Request → Tables → Tables
  serve (accepting intent receipt) s = (accept engine intent receipt s).1
  serve (recording step) s = (record_step engine step s).1
  serve (finishing id sequence outcome) s = (finish_step engine id sequence outcome s).1
  serve (retrying id phase) s = (retry engine id phase s).1
  serve (setting id status phase) s = (set_status engine id status phase s).1
  serve recovering s = (recover_on_startup engine s).1
  serve (reconciling id sequence outcome) s = (reconcile_step engine id sequence outcome s).1
  serve (abandoning evidence) s = (abandon_verified engine evidence s).1

  abbrev pub serve_all : List Request → Tables → Tables
  serve_all [] s = s
  serve_all (q ∷ qs) s = serve_all qs (serve q s)

-- The primary keys of `operations` and `operation_steps`: no row has the key of a later one.
abbrev pub HasKeys : List OperationRow → Type 0
HasKeys [] = Unit
HasKeys (r ∷ rs) = (find_operation r.id rs ≡ none) × HasKeys rs

abbrev pub HasStepKeys : List StepRow → Type 0
HasStepKeys [] = Unit
HasStepKeys (r ∷ rs) = (find (is_step r.operation_id r.sequence) rs ≡ none) × HasStepKeys rs

-- What is relied on in SQLite: tables that violate a primary key are not committed.
abbrev pub EnforcesKeys : Engine → Type 0
EnforcesKeys engine =
    (s t : Tables) → engine.write s t ≡ ok tt → HasKeys t.operations × HasStepKeys t.steps

-- An outcome that says what happened.
abbrev pub is_known : Option StepOutcome → Bool
is_known (some StepOutcome.succeeded) = true
is_known (some StepOutcome.failed) = true
is_known _ = false

-- The journal as a specification: the changes that it allows, each with the state that it needs.
pub data Change (s t : Tables) : Type 0 where
  keeps : t ≡ s → Change s t
  -- An operation of an instance with no other unresolved one begins, under a request and a plan
  -- that were not seen before.
  accepts :
      (row : OperationRow) (receipt : RequestReceipt) (instances : List InstanceRow)
      → row.status ≡ accepted
      → row.id ≡ receipt.operation_id
      → find_operation row.id s.operations ≡ none
      → has_unresolved row.instance_id s.operations ≡ false
      → find (has_request receipt.scope_id receipt.request_id) s.receipts ≡ none
      → by_plan receipt.scope_id receipt.plan_id s.receipts ≡ none
      → t ≡ record s {
        instances = instances;
        operations = s.operations ++ row ∷ [];
        receipts = s.receipts ++ receipt ∷ [];
      }
      → Change s t
  -- The next step of a running operation's current attempt, whose steps so far all have an outcome.
  records :
      (parent : OperationRow) (row : StepRow)
      → find_operation row.operation_id s.operations ≡ some parent
      → is_running parent.status ≡ true
      → row.attempt ≡ parent.attempt
      → row.outcome ≡ none
      → row.sequence ≡ next_sequence (latest (steps_of row.operation_id s.steps))
      → is_pending (latest (steps_of row.operation_id s.steps)) ≡ false
      → find (is_step row.operation_id row.sequence) s.steps ≡ none
      → t ≡ record s { steps = s.steps ++ row ∷ [] }
      → Change s t
  -- The outcome of an open step.
  finishes :
      (id : String) (sequence : ℕ) (outcome : StepOutcome) (now : String)
      → t ≡ record s {
        steps = update (λ r. is_step id sequence r && is_open r) (with_outcome outcome now) s.steps;
      }
      → Change s t
  -- A later outcome of a step that has none or an unknown one.
  reconciles :
      (id : String) (sequence : ℕ) (outcome : StepOutcome) (now : String) (row : StepRow)
      → find (is_step id sequence) s.steps ≡ some row
      → is_known row.outcome ≡ false
      → t ≡ record s { steps = update (is_step id sequence) (with_outcome outcome now) s.steps }
      → Change s t
  -- An unresolved operation gets a status; it is resolved only with no open step.
  moves :
      (id : String) (current : OperationRow) (status : OperationStatus)
      (f : OperationRow → OperationRow)
      → find_operation id s.operations ≡ some current
      → is_unresolved current.status ≡ true
      → ((r : OperationRow)
          → ((f r).id ≡ r.id)
            × ((f r).instance_id ≡ r.instance_id)
            × ((f r).kind ≡ r.kind)
            × ((f r).status ≡ status))
      → (is_unresolved status ≡ false → any is_open (steps_of id s.steps) ≡ false)
      → t ≡ record s { operations = update (is_operation id) f s.operations }
      → Change s t
  -- The executing operations become unknown ones.
  interrupts : t ≡ record s { operations = interrupt s.operations } → Change s t
