-- ===== src/Database/Deletion/Completed.antt =====
-- crates/adapters/src/delete_state.rs: what the transaction of a completed deletion found and did.
use compose_nest.Common.{
  ◌≡◌, refl, ap, ◌∙◌, arith, String, Bool, true, false, Option, none, some, List, Result, ok, err,
  any, eq_iff, if◌then◌else◌,
}
use compose_nest.Journal.{StoreConflict, RequestReceipt}
use compose_nest.Delete.{StorageCheck}
use compose_nest.Database.{
  steps_of, is_open, DatabaseError, InstanceRow, OperationRow, Tables, Engine, find_operation,
  find_instance, Replied, orm_write, orm_read, answered,
}
use compose_nest.Database.Operations.{receipt_eq, optional_eq, receipt, find_receipt}
use compose_nest.Database.Requests.Repeated.{left, orm_write-ok}
use compose_nest.Database.Deletion.{
  is_saved, belongs, storage_of, is_checked, retired_tables, complete_on, and_tables, complete_work,
  complete_delete,
}
use compose_nest.Database.Resolution.{is_executing_row}

optional_eq-true : (a b : Option String) → optional_eq a b ≡ true → a ≡ b
optional_eq-true none none h = refl
optional_eq-true none (some b) h = cc
optional_eq-true (some a) none h = cc
optional_eq-true (some a) (some b) h = ap some ((eq_iff a b).0 h)

receipt_eq-true : (a b : RequestReceipt) → receipt_eq a b ≡ true → a ≡ b
unfolding receipt_eq
receipt_eq-true a b h =
    let scope : a.scope_id ≡ b.scope_id = ground (arith, h, eq_iff a.scope_id b.scope_id) in
    let request : a.request_id ≡ b.request_id =
      ground (arith, h, eq_iff a.request_id b.request_id) in
    let plan : a.plan_id ≡ b.plan_id = ground (arith, h, optional_eq-true a.plan_id b.plan_id) in
    let revision : a.confirmed_revision ≡ b.confirmed_revision = ground (arith, h) in
    let hash : a.request_hash ≡ b.request_hash =
      ground (arith, h, eq_iff a.request_hash b.request_hash) in
    let there : a.instance_id ≡ b.instance_id =
      ground (arith, h, eq_iff a.instance_id b.instance_id) in
    let operation : a.operation_id ≡ b.operation_id =
      ground (arith, h, eq_iff a.operation_id b.operation_id) in
    cc

is_saved-some : (r : RequestReceipt) (o : Option RequestReceipt) → is_saved r o ≡ true → o ≡ some r
unfolding is_saved
is_saved-some r none h = cc
is_saved-some r (some a) h = ap some (receipt_eq-true a r h)

and_tables-ok :
    (r : RequestReceipt) (o : Result (Option RequestReceipt) StoreConflict) (s t : Tables)
    (rest : Replied (Unit {0}))
    → and_tables r o s rest ≡ (ok tt, t)
    → (o ≡ ok (some r)) × (rest ≡ (ok tt, t))
unfolding and_tables
and_tables-ok r (err c) s t rest h = cc
and_tables-ok r (ok saved) s t rest h = by (is_saved r saved) refl h
  where
    by :
        (b : Bool)
        → is_saved r saved ≡ b
        → (if b then rest else (err StoreConflict.invalid_input, s)) ≡ (ok tt, t)
        → (◌≡◌ {A = Result (Option RequestReceipt) StoreConflict} (ok saved) (ok (some r)))
          × (rest ≡ (ok tt, t))
    by true e h = (ap ok (is_saved-some r saved e), h)
    by false e h = cc

module _ (engine : Engine) (r : RequestReceipt) (storage : List StorageCheck) where
  -- The rows that a completed deletion was about, and the tables that it left.
  pub record IsCompleted (s t : Tables) : Type 0 where
    pub op : OperationRow
    pub owned : InstanceRow
    pub found_op : find_operation r.operation_id s.operations ≡ some op
    pub found_owned : find_instance r.instance_id s.instances ≡ some owned
    pub saved : find_receipt r.scope_id r.request_id none s.receipts ≡ some r
    pub same : belongs r op owned ≡ true
    pub executing : is_executing_row op ≡ true
    pub finished : any is_open (steps_of op.id s.steps) ≡ false
    pub checked : is_checked (storage_of owned.id s.storages) storage ≡ true
    pub there : t ≡ retired_tables r storage (engine.now s) op owned s

  complete_on-facts :
      (s : Tables) (o : Option OperationRow) (w : Option InstanceRow) (c : Option Tables)
      → find_operation r.operation_id s.operations ≡ o
      → find_instance r.instance_id s.instances ≡ w
      → find_receipt r.scope_id r.request_id none s.receipts ≡ some r
      → complete_on r storage (engine.now s) s o w ≡ ok (tt, c)
      → IsCompleted s (left s c)
  unfolding complete_on
  complete_on-facts s none w c looked seen saved h = cc
  complete_on-facts s (some op) none c looked seen saved h = cc
  complete_on-facts s (some op) (some owned) c looked seen saved h =
      let committed : c ≡ some (retired_tables r storage (engine.now s) op owned s) =
        ground arith in
      record {
        op = op;
        owned = owned;
        found_op = looked;
        found_owned = seen;
        saved = saved;
        same = ground arith;
        executing = ground arith;
        finished = ground arith;
        checked = ground arith;
        there = ap (left s) committed;
      }

  receipt-ok :
      (s : Tables) (o : Option RequestReceipt)
      → receipt engine r.scope_id r.request_id s ≡ ok o
      → find_receipt r.scope_id r.request_id none s.receipts ≡ o
  unfolding receipt orm_read answered
  receipt-ok s o h = told (engine.read s) h
    where
      told :
          (w : Result (Unit {0}) DatabaseError)
          → answered engine {A = Option RequestReceipt}
              (λ t. ok (find_receipt r.scope_id r.request_id none t.receipts))
              s
              w
            ≡ ok o
          → find_receipt r.scope_id r.request_id none s.receipts ≡ o
      told (ok x) k = cc
      told (err e) k = cc

  pub complete_delete-facts :
      (s t : Tables) → complete_delete engine r storage s ≡ (ok tt, t) → IsCompleted s t
  unfolding complete_delete
  complete_delete-facts s t h =
      let first =
        and_tables-ok r (receipt engine r.scope_id r.request_id s) s t
          (orm_write engine (complete_work engine r storage) s) h in
      let done = orm_write-ok engine (complete_work engine r storage) s tt t first.1 in
      let facts = complete_on-facts s _ _ done.0 refl refl (receipt-ok s (some r) first.0) done.1 in
      record {
        op = facts.op;
        owned = facts.owned;
        found_op = facts.found_op;
        found_owned = facts.found_owned;
        saved = facts.saved;
        same = facts.same;
        executing = facts.executing;
        finished = facts.finished;
        checked = facts.checked;
        there = done.2 ∙ facts.there;
      }
