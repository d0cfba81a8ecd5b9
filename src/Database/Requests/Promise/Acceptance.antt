-- ===== src/Database/Requests/Promise/Acceptance.antt =====
-- crates/adapters/src/operation_journal.rs: the acceptances that commit.
use compose_nest.Common.{
  ◌+◌, ◌<◌, ◌≡◌, ◌≢◌, refl, ap, ◌∙◌, inl, inr, true, false, Option, none, some, List, [], ◌∷◌, ◌++◌,
  ok, arith, eq_iff, i64_max, if◌then◌else◌, is_some,
}
use compose_nest.Instance.{Lifecycle, lifecycle_eq}
use compose_nest.Instance.Operation.{OperationKind}
use compose_nest.Journal.{OperationIntent, RequestReceipt}
use compose_nest.Database.{InstanceRow, Tables, Engine, find_instance}
use compose_nest.Database.Operations.{
  is_acceptable, find_receipt, has_unresolved, new_row, insert_accepted, accept_delete, accept_on,
  accept_found, retire, is_delete,
}
use compose_nest.Database.Requests.{HasKeys}
use compose_nest.Database.Requests.Transactions.{keys-append}
use compose_nest.Database.Requests.Promise.{Accepted, accepted_tables, instances_after}

module _ (engine : Engine) (intent : OperationIntent) (receipt : RequestReceipt) (s : Tables) where
  lifecycle_eq-managed :
      (l : Lifecycle) → lifecycle_eq l Lifecycle.managed ≡ true → l ≡ Lifecycle.managed
  lifecycle_eq-managed Lifecycle.managed h = refl
  lifecycle_eq-managed Lifecycle.retiring h = cc
  lifecycle_eq-managed Lifecycle.retired h = cc

  -- The instance that the new operation found.
  abbrev IsFree : InstanceRow → Type 0
  IsFree current =
      (current.scope_id ≡ receipt.scope_id)
      × (current.lifecycle ≡ Lifecycle.managed)
      × (current.revision ≡ intent.expected_revision)
      × (has_unresolved intent.instance_id s.operations ≡ false)

  abbrev IsDeletable : Type 0
  IsDeletable =
      (receipt.confirmed_revision ≡ intent.expected_revision)
      × (intent.old_spec_revision ≡ none)
      × (intent.new_spec_revision ≡ none)
      × (intent.expected_revision < i64_max)

  is_none : {A : Type 0} (o : Option A) → is_some o ≡ false → o ≡ none
  is_none none h = refl
  is_none (some a) h = cc

  deletable :
      (current : InstanceRow) (a : RequestReceipt) (t : Tables)
      → accept_delete intent receipt (engine.now s) current s ≡ ok (a, some t)
      → IsDeletable
        × (insert_accepted intent receipt
              (engine.now s)
              (retire current.id (intent.expected_revision + 1) s.instances)
              s
            ≡ ok (a, some t))
  unfolding accept_delete
  deletable current a t h = (
    (
      ground arith,
      is_none intent.old_spec_revision (ground arith),
      is_none intent.new_spec_revision (ground arith),
      ground arith,
    ),
    ground arith,
  )

  inserted :
      (instances : List InstanceRow) (current : InstanceRow) (a : RequestReceipt) (t : Tables)
      → instances ≡ instances_after intent current s.instances
      → insert_accepted intent receipt (engine.now s) instances s ≡ ok (a, some t)
      → (a ≡ receipt) × (t ≡ accepted_tables engine s intent receipt current)
  unfolding insert_accepted new_row
  inserted instances current a t e h = (cc, rw (← e) (cc))

  by_kind :
      (current : InstanceRow) (kind : OperationKind) (a : RequestReceipt) (t : Tables)
      → intent.kind ≡ kind
      → (if is_delete kind
          then accept_delete intent receipt (engine.now s) current s
          else insert_accepted intent receipt (engine.now s) s.instances s)
        ≡ ok (a, some t)
      → (intent.kind ≡ OperationKind.delete → IsDeletable)
        × (a ≡ receipt)
        × (t ≡ accepted_tables engine s intent receipt current)
  unfolding retire
  by_kind current OperationKind.delete a t e h =
      let made = deletable current a t h in
      let stored = inserted _ current a t (rw e refl) made.1 in (λ x. made.0, stored.0, stored.1)
  by_kind current OperationKind.create a t e h =
      let stored = inserted _ current a t (rw e refl) h in (λ x. cc, stored.0, stored.1)
  by_kind current OperationKind.clone a t e h =
      let stored = inserted _ current a t (rw e refl) h in (λ x. cc, stored.0, stored.1)
  by_kind current OperationKind.start a t e h =
      let stored = inserted _ current a t (rw e refl) h in (λ x. cc, stored.0, stored.1)
  by_kind current OperationKind.stop a t e h =
      let stored = inserted _ current a t (rw e refl) h in (λ x. cc, stored.0, stored.1)
  by_kind current OperationKind.restart a t e h =
      let stored = inserted _ current a t (rw e refl) h in (λ x. cc, stored.0, stored.1)
  by_kind current OperationKind.rename a t e h =
      let stored = inserted _ current a t (rw e refl) h in (λ x. cc, stored.0, stored.1)
  by_kind current OperationKind.edit_port a t e h =
      let stored = inserted _ current a t (rw e refl) h in (λ x. cc, stored.0, stored.1)
  by_kind current OperationKind.recover a t e h =
      let stored = inserted _ current a t (rw e refl) h in (λ x. cc, stored.0, stored.1)

  accepted_on :
      (o : Option InstanceRow) (a : RequestReceipt) (t : Tables)
      → accept_on intent receipt (engine.now s) s o ≡ ok (a, some t)
      → (current : InstanceRow) × (o ≡ some current)
        × IsFree current
        × (intent.kind ≡ OperationKind.delete → IsDeletable)
        × (a ≡ receipt)
        × (t ≡ accepted_tables engine s intent receipt current)
  unfolding accept_on
  accepted_on none a t h = cc
  accepted_on (some current) a t h =
      let kinds = by_kind current intent.kind a t refl (ground arith) in
      (
        current,
        refl,
        (
          (eq_iff current.scope_id receipt.scope_id).0 (ground arith),
          lifecycle_eq-managed current.lifecycle (ground arith),
          ground arith,
          ground arith,
        ),
        kinds.0,
        kinds.1,
        kinds.2,
      )

  rows_after :
      (current : InstanceRow) (t : Tables)
      → t ≡ accepted_tables engine s intent receipt current
      → HasKeys t.operations
      → HasKeys (s.operations ++ new_row intent (engine.now s) ∷ [])
  unfolding new_row
  rows_after current t e k =
      let there : t.operations ≡ s.operations ++ new_row intent (engine.now s) ∷ [] =
        ap (λ (v : Tables). v.operations) e in
      rw (← there) k

  pub accepted :
      (o : Option RequestReceipt) (a : RequestReceipt) (t : Tables)
      → is_acceptable intent receipt ≡ true
      → find_receipt receipt.scope_id receipt.request_id receipt.plan_id s.receipts ≡ o
      → accept_found intent receipt (engine.now s) s o ≡ ok (a, some t)
      → HasKeys t.operations
      → Accepted engine s intent receipt a t
  unfolding accept_found find_receipt is_acceptable new_row
  accepted (some existing) a t valid looked h keys = ground arith
  accepted none a t valid looked h keys =
      let (current, found, free, of_delete, told, same) =
        accepted_on (find_instance intent.instance_id s.instances) a t h in
      inr (
        current,
        record {
          found = found;
          scope = free.0;
          managed = free.1;
          revision = free.2;
          same_operation = ground (arith, eq_iff receipt.operation_id intent.id);
          same_instance = ground (arith, eq_iff receipt.instance_id intent.instance_id);
          new_operation =
              keys-append s.operations (new_row intent (engine.now s))
                (rows_after current t same keys);
          new_request = ground arith;
          new_plan = ground arith;
          alone = free.3;
          of_delete = of_delete;
        },
        told,
        same,
      )

  never_early :
      (o : Option InstanceRow) (a : RequestReceipt)
      → accept_on intent receipt (engine.now s) s o ≢ ok (a, none)
  unfolding accept_on accept_delete insert_accepted
  never_early none a h = cc
  never_early (some current) a h = ground arith

  pub accepted_before :
      (o : Option RequestReceipt) (a : RequestReceipt)
      → find_receipt receipt.scope_id receipt.request_id receipt.plan_id s.receipts ≡ o
      → accept_found intent receipt (engine.now s) s o ≡ ok (a, none)
      → Accepted engine s intent receipt a s
  unfolding accept_found
  accepted_before none a looked h = absurd (never_early _ a h)
  accepted_before (some existing) a looked h =
      let same : existing ≡ a = ground arith in
      inl (looked ∙ ap some same, rw (← same) (ground arith), refl)
