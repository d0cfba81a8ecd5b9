-- ===== src/Database/Completion/Succeeded.antt =====
-- crates/adapters/src/lifecycle_state.rs: what the completion of a lifecycle operation leaves.
use compose_nest.Common.{
  ◌≡◌, refl, ap, ◌∙◌, arith, String, Bool, true, false, not, Option, none, some, List, ok, err, any,
  update, str_eq, if◌then◌else◌,
}
use compose_nest.Instance.{RuntimeStatus}
use compose_nest.Instance.Operation.{OperationStatus, is_unresolved}
use compose_nest.Journal.{StoreConflict}
use compose_nest.Database.{
  InstanceRow, OperationRow, ObservationRow, Tables, Engine, find_operation, steps_of, is_open,
}
use compose_nest.Database.Operations.{is_hash, is_operation, is_succeeded, with_status}
use compose_nest.Database.Resolution.{is_executing_row}
use compose_nest.Database.Completion.{
  runtime_columns, observe_final, succeed_on, succeed_found, succeed_work, complete_as, complete,
}
use compose_nest.Database.Requests.Transactions.{found_id}
use compose_nest.Database.Requests.Rows.{changed, find_operation-update}
use compose_nest.Database.Requests.Repeated.{str_eq_self, left, orm_write-ok}
use compose_nest.Database.Requests.Preserved.{IsConsistent, moves-IsConsistent}

module _ (engine : Engine) (id container_id : String) where
  -- The row that a completion was about, and the tables that it left.
  record IsSucceeded (s t : Tables) : Type 0 where
    op : OperationRow
    state : String
    observations : List ObservationRow
    found : find_operation id s.operations ≡ some op
    executing : is_executing_row op ≡ true
    there : t ≡ record s {
      observations = observations;
      operations =
          update
            (is_operation id)
            (with_status OperationStatus.succeeded state (some (engine.now s)))
            s.operations;
    }

  succeed_on-facts :
      (columns : String × Option String) (s : Tables) (op : OperationRow) (w : Option InstanceRow)
      (c : Option Tables)
      → find_operation id s.operations ≡ some op
      → succeed_on id container_id columns (engine.now s) s op w ≡ ok (tt, c)
      → IsSucceeded s (left s c)
  unfolding succeed_on
  succeed_on-facts columns s op none c found h = cc
  succeed_on-facts columns s op (some owned) c found h =
      let committed : c
          ≡ some (record s {
            observations =
                observe_final op.instance_id id container_id columns (engine.now s) s.observations;
            operations =
                update (is_operation id)
                  (with_status OperationStatus.succeeded columns.0 (some (engine.now s)))
                  s.operations;
          }) =
        ground arith in
      record {
        op = op;
        state = columns.0;
        observations =
            observe_final op.instance_id id container_id columns (engine.now s) s.observations;
        found = found;
        executing = ground arith;
        there = ap (left s) committed;
      }

  succeed_found-facts :
      (columns : String × Option String) (s : Tables) (o : Option OperationRow) (c : Option Tables)
      → find_operation id s.operations ≡ o
      → succeed_found id container_id columns (engine.now s) s o ≡ ok (tt, c)
      → IsSucceeded s (left s c)
  unfolding succeed_found
  succeed_found-facts columns s none c found h = cc
  succeed_found-facts columns s (some op) c found h = succeed_on-facts columns s op _ c found h

  complete_as-facts :
      (columns : Option (String × Option String)) (s t : Tables)
      → complete_as engine id container_id columns s ≡ (ok tt, t)
      → IsSucceeded s t
  unfolding complete_as
  complete_as-facts none s t h = cc
  complete_as-facts (some columns) s t h =
      let done = orm_write-ok engine (succeed_work engine id container_id columns) s tt t h in
      rw done.2 (succeed_found-facts columns s _ done.0 refl done.1)

  complete-facts :
      (status : RuntimeStatus) (s t : Tables)
      → complete engine id container_id status s ≡ (ok tt, t)
      → IsSucceeded s t
  unfolding complete
  complete-facts status s t h = tested (is_hash container_id) h
    where
      tested :
          (b : Bool)
          → (if not b
              then (err StoreConflict.invalid_input, s)
              else complete_as engine id container_id (runtime_columns status) s)
            ≡ (ok tt, t)
          → IsSucceeded s t
      tested true k = complete_as-facts (runtime_columns status) s t k
      tested false k = cc

  -- The completion of a lifecycle operation, none of whose steps lacks an outcome, leaves consistent
  -- tables consistent and the operation succeeded.
  pub complete-IsConsistent :
      (status : RuntimeStatus) (s t : Tables)
      → IsConsistent s
      → any is_open (steps_of id s.steps) ≡ false
      → complete engine id container_id status s ≡ (ok tt, t)
      → IsConsistent t
        × ((op : OperationRow) × (find_operation id t.operations ≡ some op)
            × (is_succeeded op.status ≡ true))
  unfolding is_unresolved
  complete-IsConsistent status s t consistent finished h =
      let c = complete-facts status s t h in
      let op = c.op in
      let closes = with_status OperationStatus.succeeded c.state (some (engine.now s)) in
      let moved =
        moves-IsConsistent s id op OperationStatus.succeeded closes consistent c.found
          (ground (arith, c.executing)) (λ x. (refl, refl, refl, refl)) (λ done. finished) in
      let succeeded : find_operation id t.operations ≡ some (closes op) =
        ap (λ (u : Tables). find_operation id u.operations) c.there
        ∙ find_operation-update (is_operation id) closes (λ x. refl) id s.operations
        ∙ ap (changed (is_operation id) closes) c.found
        ∙ ap (λ (b : Bool). some (if b then closes op else op))
            (ap (λ (i : String). str_eq i id) (found_id id s op c.found) ∙ str_eq_self id) in
      (
        rw c.there (record {
          step_keys = moved.step_keys;
          keys = moved.keys;
          single = moved.single;
          logs = moved.logs;
          closed = moved.closed;
          owned = moved.owned;
        }),
        (closes op, succeeded, refl),
      )
