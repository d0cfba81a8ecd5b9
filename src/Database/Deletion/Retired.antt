-- ===== src/Database/Deletion/Retired.antt =====
-- crates/adapters/src/delete_state.rs: what a completed deletion leaves in the tables.
use compose_nest.Common.{
  ◌+◌, ◌≡◌, refl, sym, ap, ◌∙◌, arith, String, Bool, true, false, none, some, List, Result, ok, err,
  all, str_eq, eq_iff, if◌then◌else◌,
}
use compose_nest.Instance.{Lifecycle}
use compose_nest.Instance.Operation.{is_unresolved, OperationStatus}
use compose_nest.Journal.{StoreConflict, RequestReceipt}
use compose_nest.Delete.{StorageCheck}
use compose_nest.Database.{
  InstanceRow, Tables, Engine, find_operation, find_instance, orm_read, answered,
}
use compose_nest.Database.Operations.{receipt_eq, is_operation, with_status, receipt, find_receipt}
use compose_nest.Database.Requests.Transactions.{found_id, find-eq-some}
use compose_nest.Database.Requests.Rows.{changed, find-update, find_operation-update}
use compose_nest.Database.Requests.Repeated.{str_eq_self, optional_eq_self}
use compose_nest.Database.Deletion.{
  is_saved, pending_on, is_checked, retire_instance, retired_tables, if_saved, delete_pending,
  pending_work, complete_delete,
}
use compose_nest.Database.Requests.Preserved.{IsConsistent, moves-IsConsistent}
use compose_nest.Database.Deletion.Retention.{
  is_retained, is_released, release_ports-released, retain_all-retained, checked_due,
}
use compose_nest.Database.Deletion.Completed.{IsCompleted, complete_delete-facts}

module _ (engine : Engine) (r : RequestReceipt) (storage : List StorageCheck) where
  -- The rows of the operation and of the instance afterwards.
  operation-retired :
      (s t : Tables) (c : IsCompleted engine r storage s t)
      → find_operation r.operation_id t.operations
        ≡ some (with_status OperationStatus.succeeded "retired" (some (engine.now s)) c.op)
  unfolding retired_tables
  operation-retired s t c =
      let closes = with_status OperationStatus.succeeded "retired" (some (engine.now s)) in
      let op = c.op in
      ap (λ (u : Tables). find_operation r.operation_id u.operations) c.there
      ∙ find_operation-update (is_operation op.id) closes (λ x. refl) r.operation_id s.operations
      ∙ ap (changed (is_operation op.id) closes) c.found_op
      ∙ ap (λ (b : Bool). some (if b then closes op else op)) (str_eq_self op.id)

  instance-retired :
      (s t : Tables) (c : IsCompleted engine r storage s t)
      → find_instance r.instance_id t.instances
        ≡ some (record c.owned { lifecycle = Lifecycle.retired; revision = c.owned.revision + 1 })
  unfolding retired_tables retire_instance
  instance-retired s t c =
      let owned = c.owned in
      let is_owned : InstanceRow → Bool = λ x. str_eq x.id owned.id in
      let retires : InstanceRow → InstanceRow =
        λ x. record x { lifecycle = Lifecycle.retired; revision = owned.revision + 1 } in
      ap (λ (u : Tables). find_instance r.instance_id u.instances) c.there
      ∙ find-update is_owned (λ (x : InstanceRow). str_eq x.id r.instance_id) retires (λ x. refl)
          s.instances
      ∙ ap (changed is_owned retires) c.found_owned
      ∙ ap (λ (b : Bool). some (if b then retires owned else owned)) (str_eq_self owned.id)

  receipts-kept : (s t : Tables) → IsCompleted engine r storage s t → t.receipts ≡ s.receipts
  unfolding retired_tables
  receipts-kept s t c = ap (λ (u : Tables). u.receipts) c.there

  pending_on-retired :
      (s t : Tables) (c : IsCompleted engine r storage s t)
      → pending_on r t
          (find_operation r.operation_id t.operations)
          (find_instance r.instance_id t.instances)
        ≡ ok false
  unfolding pending_on
  pending_on-retired s t c =
      rw (operation-retired s t c, instance-retired s t c) (ground (arith, c.same))

  owned_id : (s t : Tables) (c : IsCompleted engine r storage s t) → c.owned.id ≡ r.instance_id
  owned_id s t c = (eq_iff c.owned.id r.instance_id).0 (
      find-eq-some (λ (x : InstanceRow). str_eq x.id r.instance_id) s.instances c.owned
        c.found_owned)

  storages-retained :
      (s t : Tables)
      → IsCompleted engine r storage s t
      → all (is_retained r.instance_id) t.storages ≡ true
  unfolding retired_tables is_checked
  storages-retained s t c =
      ap (λ (i : String). all (is_retained i) t.storages) (sym (owned_id s t c))
      ∙ ap (λ (u : Tables). all (is_retained c.owned.id) u.storages) c.there
      ∙ retain_all-retained c.owned.id (engine.now s) storage s.storages
          (checked_due c.owned.id storage s.storages (ground (arith, c.checked)))

  ports-released :
      (s t : Tables)
      → IsCompleted engine r storage s t
      → all (is_released r.instance_id) t.ports ≡ true
  unfolding retired_tables
  ports-released s t c =
      ap (λ (i : String). all (is_released i) t.ports) (sym (owned_id s t c))
      ∙ ap (λ (u : Tables). all (is_released c.owned.id) u.ports) c.there
      ∙ release_ports-released c.owned.id s.ports

  -- A query of a database that answers.
  orm_read-readable :
      {A : Type 0} (q : Tables → Result A StoreConflict) (t : Tables)
      → engine.read t ≡ ok tt
      → orm_read engine q t ≡ q t
  unfolding orm_read answered
  orm_read-readable q t readable = rw readable refl

  receipt_eq_self : receipt_eq r r ≡ true
  unfolding receipt_eq
  receipt_eq_self = ground (
    arith,
    str_eq_self r.scope_id,
    str_eq_self r.request_id,
    optional_eq_self r.plan_id,
    str_eq_self r.request_hash,
    str_eq_self r.instance_id,
    str_eq_self r.operation_id,
  )

  not_pending :
      (s t : Tables)
      → IsCompleted engine r storage s t
      → engine.read t ≡ ok tt
      → delete_pending engine r t ≡ ok false
  unfolding delete_pending if_saved is_saved receipt
  not_pending s t c readable =
      let looked : receipt engine r.scope_id r.request_id t ≡ ok (some r) =
        orm_read-readable
          (λ (u : Tables). ok (find_receipt r.scope_id r.request_id none u.receipts)) t readable
        ∙ ap (λ (rs : List RequestReceipt). ok (find_receipt r.scope_id r.request_id none rs))
            (receipts-kept s t c)
        ∙ ap ok c.saved in
      ap (λ o. if_saved r o (orm_read engine (pending_work engine r) t)) looked
      ∙ ap
          (λ (b : Bool).
            if b
            then orm_read engine (pending_work engine r) t
            else err StoreConflict.invalid_input)
          receipt_eq_self
      ∙ orm_read-readable (pending_work engine r) t readable
      ∙ pending_on-retired s t c

  -- A deletion that was completed is not pending any more when it is asked for again, as long as the
  -- database answers; then all storage of the instance is retained, its ports are released, and the
  -- steps and receipts are as before.
  pub complete_delete-retires :
      (s t : Tables)
      → complete_delete engine r storage s ≡ (ok tt, t)
      → engine.read t ≡ ok tt
      → (delete_pending engine r t ≡ ok false)
        × (all (is_retained r.instance_id) t.storages ≡ true)
        × (all (is_released r.instance_id) t.ports ≡ true)
        × (t.steps ≡ s.steps)
        × (t.receipts ≡ s.receipts)
  unfolding retired_tables
  complete_delete-retires s t h readable =
      let c = complete_delete-facts engine r storage s t h in
      (
        not_pending s t c readable,
        storages-retained s t c,
        ports-released s t c,
        ap (λ (u : Tables). u.steps) c.there,
        receipts-kept s t c,
      )

  -- A deletion that was completed leaves consistent tables consistent.
  pub complete_delete-IsConsistent :
      (s t : Tables)
      → IsConsistent s
      → complete_delete engine r storage s ≡ (ok tt, t)
      → IsConsistent t
  unfolding retired_tables is_unresolved
  complete_delete-IsConsistent s t consistent h =
      let c = complete_delete-facts engine r storage s t h in
      let op = c.op in
      let closes = with_status OperationStatus.succeeded "retired" (some (engine.now s)) in
      let here : find_operation op.id s.operations ≡ some op =
        ap (λ (i : String). find_operation i s.operations) (found_id r.operation_id s op c.found_op)
        ∙ c.found_op in
      let moved =
        moves-IsConsistent s op.id op OperationStatus.succeeded closes consistent here
          (ground (arith, c.executing)) (λ x. (refl, refl, refl, refl)) (λ done. c.finished) in
      rw c.there (record {
        step_keys = moved.step_keys;
        keys = moved.keys;
        single = moved.single;
        logs = moved.logs;
        closed = moved.closed;
        owned = moved.owned;
      })
