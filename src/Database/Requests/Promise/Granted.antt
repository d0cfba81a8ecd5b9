-- ===== src/Database/Requests/Promise/Granted.antt =====
-- crates/adapters/src/operation_journal.rs: the transactions of the steps, attempts and statuses that commit.
use compose_nest.Common.{
  ℕ, ◌+◌, ◌≡◌, refl, ap, String, true, false, not, Option, none, some, List, [], ◌∷◌, ◌++◌, ok,
  arith, any, find,
}
use compose_nest.Instance.Operation.{OperationStatus, is_unresolved}
use compose_nest.Journal.{StepIntent, StepOutcome}
use compose_nest.Recovery.{VerifiedAbsence}
use compose_nest.Database.{OperationRow, StepRow, Tables, Engine, find_operation, steps_of}
use compose_nest.Database.Operations.{
  is_stalled, is_step, new_step, record_on, retry_on, set_on, is_abandoned,
}
use compose_nest.Database.Resolution.{is_replaceable, reconcile_found, reconcile_on, abandon_on}
use compose_nest.Database.Requests.{HasStepKeys, is_known}
use compose_nest.Database.Requests.Transactions.{found_id, step_keys-append}
use compose_nest.Database.Requests.Promise.{
  Recorded, Retried, Moved, Reconciled, Abandoned, recorded_tables,
}

module _ (engine : Engine) (s : Tables) where
  pub retried :
      (id phase : String) (o : Option OperationRow) (a : ℕ) (t : Tables)
      → find_operation id s.operations ≡ o
      → retry_on id phase s o ≡ ok (a, some t)
      → Retried engine s id phase a t
  unfolding retry_on
  retried id phase none a t looked h = cc
  retried id phase (some current) a t looked h =
      let same = found_id id s current looked in
      let number : a ≡ current.attempt + 1 = ground arith in
      (
        current,
        looked,
        ground arith,
        ground arith,
        ground arith,
        number,
        rw (number, ← same) (ground arith),
      )

  pub moved :
      (id : String) (status : OperationStatus) (phase : String) (o : Option OperationRow)
      (a : Unit {0}) (t : Tables)
      → is_abandoned status ≡ false
      → find_operation id s.operations ≡ o
      → set_on id status phase (engine.now s) s o ≡ ok (a, some t)
      → Moved engine s id status phase t
  unfolding set_on
  moved id status phase none a t live looked h = cc
  moved id status phase (some current) a t live looked h =
      let same = found_id id s current looked in
      (
        current,
        looked,
        ground arith,
        λ e. ground arith,
        λ e. ground arith,
        rw (← same) (ground arith),
      )

  row_found :
      (id : String) (sequence : ℕ) (outcome : StepOutcome) (parent : OperationRow)
      (o : Option StepRow) (a : Unit {0}) (t : Tables)
      → find_operation id s.operations ≡ some parent
      → is_stalled parent.status ≡ true
      → find (is_step id sequence) s.steps ≡ o
      → reconcile_found id sequence outcome (engine.now s) s o ≡ ok (a, some t)
      → Reconciled engine s id sequence outcome t
  unfolding reconcile_found
  row_found id sequence outcome parent none a t found stalled looked h = cc
  row_found id sequence outcome parent (some row) a t found stalled looked h =
      (parent, row, found, stalled, looked, ground arith, ground arith)

  pub reconciled :
      (id : String) (sequence : ℕ) (outcome : StepOutcome) (o : Option OperationRow) (a : Unit {0})
      (t : Tables)
      → find_operation id s.operations ≡ o
      → reconcile_on id sequence outcome (engine.now s) s o ≡ ok (a, some t)
      → Reconciled engine s id sequence outcome t
  unfolding reconcile_on
  reconciled id sequence outcome none a t looked h = cc
  reconciled id sequence outcome (some parent) a t looked h =
      row_found id sequence outcome parent _ a t looked (ground arith) refl (ground arith)

  none_replaceable :
      (rows : List StepRow)
      → any (λ (r : StepRow). is_replaceable r.outcome) rows ≡ false
      → any (λ (r : StepRow). not (is_known r.outcome)) rows ≡ false
  none_replaceable [] h = refl
  none_replaceable (r ∷ rs) h = ground (arith, none_replaceable rs)

  pub abandoned :
      (evidence : VerifiedAbsence) (o : Option OperationRow) (a : Unit {0}) (t : Tables)
      → find_operation evidence.operation_id s.operations ≡ o
      → abandon_on evidence (engine.now s) s o ≡ ok (a, some t)
      → Abandoned engine s evidence t
  unfolding abandon_on is_unresolved
  abandoned evidence none a t looked h = cc
  abandoned evidence (some current) a t looked h = (
    current,
    looked,
    λ e. ground arith,
    ground arith,
    ground arith,
    none_replaceable (steps_of evidence.operation_id s.steps) (ground arith),
    ground arith,
  )

  pub recorded :
      (step : StepIntent) (o : Option OperationRow) (a : Unit {0}) (t : Tables)
      → find_operation step.operation_id s.operations ≡ o
      → record_on step (engine.now s) s o ≡ ok (a, some t)
      → HasStepKeys t.steps
      → Recorded engine s step t
  unfolding record_on new_step
  recorded step none a t looked h keys = cc
  recorded step (some parent) a t looked h keys =
      let same : t ≡ recorded_tables engine s step = ground arith in
      (
        parent,
        looked,
        ground arith,
        ground arith,
        ground arith,
        ground arith,
        step_keys-append s.steps (new_step step (engine.now s)) (
            let there : t.steps ≡ s.steps ++ new_step step (engine.now s) ∷ [] =
              ap (λ (u : Tables). u.steps) same in
            rw (← there) keys),
        same,
      )
