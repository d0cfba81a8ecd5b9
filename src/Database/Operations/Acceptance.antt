-- ===== src/Database/Operations/Acceptance.antt =====
-- crates/adapters/src/operation_journal.rs: the transaction of `accept`, and its helpers.
use compose_nest.Common.{
  text_codes, ℕ, ◌+◌, String, Bool, true, false, not, ◌&&◌, ◌||◌, Option, none, some, List, [], ◌∷◌,
  ◌++◌, Result, ok, err, any, all, length, find, update, is_some, str_eq, ◌==◌, ltb, leb, i64_max,
  if◌then◌else◌,
}
use compose_nest.Instance.{Lifecycle, lifecycle_eq}
use compose_nest.Instance.Operation.{OperationKind, OperationStatus, is_unresolved}
use compose_nest.Journal.{StoreConflict, OperationIntent, RequestReceipt}
use compose_nest.Database.{InstanceRow, OperationRow, Tables, find_instance}

-- `checked_revision` succeeds, with the number itself.
unfoldable pub is_revision : ℕ → Bool
is_revision n = ltb 0 n && leb n i64_max

abbrev pub none_or_revision : Option ℕ → Bool
none_or_revision none = true
none_or_revision (some n) = is_revision n

unfoldable pub is_hex : ℕ → Bool
is_hex b = (leb b'0' b && leb b b'9') || (leb b'a' b && leb b b'f') || (leb b'A' b && leb b b'F')

-- `len() == 64` and `is_ascii_hexdigit` of every byte, which only ASCII text passes.
unfoldable pub is_hash : String → Bool
unfolding is_hex
is_hash s = length (text_codes s) == 64 && all is_hex (text_codes s)

abbrev pub optional_eq : Option String → Option String → Bool
optional_eq none none = true
optional_eq (some a) (some b) = str_eq a b
optional_eq _ _ = false

-- The derived equality of receipts.
unfoldable pub receipt_eq : RequestReceipt → RequestReceipt → Bool
receipt_eq a b =
    str_eq a.scope_id b.scope_id
    && str_eq a.request_id b.request_id
    && optional_eq a.plan_id b.plan_id
    && a.confirmed_revision == b.confirmed_revision
    && str_eq a.request_hash b.request_hash
    && str_eq a.instance_id b.instance_id
    && str_eq a.operation_id b.operation_id

abbrev pub has_request : String → String → RequestReceipt → Bool
has_request scope_id request_id r = str_eq r.scope_id scope_id && str_eq r.request_id request_id

abbrev pub has_plan : String → String → RequestReceipt → Bool
has_plan scope_id plan_id r = str_eq r.scope_id scope_id && optional_eq r.plan_id (some plan_id)

abbrev pub by_plan : String → Option String → List RequestReceipt → Option RequestReceipt
by_plan scope_id none receipts = none
by_plan scope_id (some plan_id) receipts = find (has_plan scope_id plan_id) receipts

abbrev pub or_else : Option RequestReceipt → Option RequestReceipt → Option RequestReceipt
or_else none r = r
or_else (some a) r = some a

-- `find_receipt_orm`
unfoldable pub find_receipt :
    String → String → Option String → List RequestReceipt → Option RequestReceipt
find_receipt scope_id request_id plan_id receipts =
    or_else (find (has_request scope_id request_id) receipts) (by_plan scope_id plan_id receipts)

abbrev pub is_delete : OperationKind → Bool
is_delete OperationKind.delete = true
is_delete _ = false

-- What `accept` checks before it goes to the database.
unfoldable pub is_acceptable : OperationIntent → RequestReceipt → Bool
unfolding is_revision
is_acceptable intent receipt =
    not (
      str_eq intent.id ""
      || str_eq intent.instance_id ""
      || str_eq intent.phase ""
      || str_eq receipt.scope_id ""
      || str_eq receipt.request_id ""
      || optional_eq receipt.plan_id (some "")
      || not (is_hash receipt.request_hash)
      || not (str_eq receipt.instance_id intent.instance_id)
      || not (str_eq receipt.operation_id intent.id))
    && is_revision intent.expected_revision
    && is_revision receipt.confirmed_revision
    && none_or_revision intent.old_spec_revision
    && none_or_revision intent.new_spec_revision

-- `existing == receipt || same_plan`
unfoldable pub is_same_request : RequestReceipt → RequestReceipt → Bool
unfolding receipt_eq
is_same_request existing receipt =
    receipt_eq existing receipt
    || (is_some receipt.plan_id
        && optional_eq receipt.plan_id existing.plan_id
        && receipt.confirmed_revision == existing.confirmed_revision
        && str_eq receipt.request_hash existing.request_hash)

unfoldable pub has_unresolved : String → List OperationRow → Bool
unfolding is_unresolved
has_unresolved id operations =
    any (λ (r : OperationRow). str_eq r.instance_id id && is_unresolved r.status) operations

-- The instance is retired by a Delete: `update_many` on its row.
unfoldable pub retire : String → ℕ → List InstanceRow → List InstanceRow
retire id revision instances =
    update (λ (r : InstanceRow). str_eq r.id id)
      (λ (r : InstanceRow). record r { lifecycle = Lifecycle.retiring; revision = revision })
      instances

-- The row that an accepted operation begins with; the status and the attempt are the columns'
-- defaults.
unfoldable pub new_row : OperationIntent → String → OperationRow
new_row intent now = record {
  id = intent.id;
  instance_id = intent.instance_id;
  status = OperationStatus.accepted;
  attempt = 1;
  kind = intent.kind;
  phase = intent.phase;
  expected_instance_revision = intent.expected_revision;
  old_spec_revision = intent.old_spec_revision;
  new_spec_revision = intent.new_spec_revision;
  started_at = now;
  completed_at = none;
}

-- What a transaction answers, with the tables that it commits, or none when it returns early.
abbrev pub Work : Type 0 → Type 0
Work A = Result (A × Option Tables) StoreConflict

-- The two insertions of `accept`.
unfoldable pub insert_accepted :
    OperationIntent → RequestReceipt → String → List InstanceRow → Tables → Work RequestReceipt
unfolding new_row
insert_accepted intent receipt now instances s = ok (
  receipt,
  some (record s {
    instances = instances;
    operations = s.operations ++ new_row intent now ∷ [];
    receipts = s.receipts ++ receipt ∷ [];
  }),
)

-- The part of `accept` for a Delete.
unfoldable pub accept_delete :
    OperationIntent → RequestReceipt → String → InstanceRow → Tables → Work RequestReceipt
unfolding insert_accepted retire
accept_delete intent receipt now current s =
    if not (receipt.confirmed_revision == intent.expected_revision)
      || is_some intent.old_spec_revision
      || is_some intent.new_spec_revision
      || leb i64_max intent.expected_revision
    then err StoreConflict.invalid_input
    else insert_accepted intent receipt now
        (retire current.id (intent.expected_revision + 1) s.instances) s

unfoldable pub accept_on :
    OperationIntent → RequestReceipt → String → Tables → Option InstanceRow → Work RequestReceipt
unfolding accept_delete insert_accepted has_unresolved
accept_on intent receipt now s none = err StoreConflict.missing
accept_on intent receipt now s (some current) =
    if not
      (str_eq current.scope_id receipt.scope_id && lifecycle_eq current.lifecycle Lifecycle.managed)
    then err StoreConflict.missing
    else if not (current.revision == intent.expected_revision)
    then err StoreConflict.stale_revision
    else if has_unresolved intent.instance_id s.operations
    then err StoreConflict.unresolved_operation
    else if is_delete intent.kind
    then accept_delete intent receipt now current s
    else insert_accepted intent receipt now s.instances s

unfoldable pub accept_found :
    OperationIntent → RequestReceipt → String → Tables → Option RequestReceipt → Work RequestReceipt
unfolding is_same_request accept_on
accept_found intent receipt now s (some existing) =
    if is_same_request existing receipt then ok (existing, none) else err StoreConflict.duplicate
accept_found intent receipt now s none =
    accept_on intent receipt now s (find_instance intent.instance_id s.instances)
