-- ===== src/Database/Requests/Transactions.antt =====
-- crates/adapters/src/operation_journal.rs: the transactions of the writer, each against the change
-- that it makes.
use compose_nest.Common.{
  ℕ, ◌+◌, ◌≡◌, refl, sym, ap, ◌∙◌, String, Bool, true, false, Option, none, some, List, [], ◌∷◌,
  ◌++◌, ok, arith, any, find, str_eq, eq_iff, if◌then◌else◌,
}
use compose_nest.Instance.Operation.{OperationStatus, is_unresolved}
use compose_nest.Journal.{OperationIntent, RequestReceipt, StepIntent, StepOutcome}
use compose_nest.Recovery.{VerifiedAbsence}
use compose_nest.Database.{
  InstanceRow, OperationRow, StepRow, Tables, find_operation, find_instance, steps_of, is_open,
}
use compose_nest.Database.Operations.{
  find_receipt, has_unresolved, is_stalled, is_step, with_status, is_acceptable, new_row,
  insert_accepted, accept_delete, accept_on, accept_found, retire, new_step, record_on, retry_on,
  set_on, is_abandoned,
}
use compose_nest.Database.Resolution.{is_replaceable, reconcile_found, reconcile_on, abandon_on}
use compose_nest.Database.Requests.{
  HasKeys, HasStepKeys, Change, keeps, accepts, records, reconciles, moves,
}

-- What a search finds passes the test.
pub find-eq-some {ℓ} :
    {A : Type ℓ} (p : A → Bool) (xs : List A) (x : A) → find p xs ≡ some x → p x ≡ true
find-eq-some p [] x h = cc
find-eq-some p (y ∷ ys) x h = ground (arith, find-eq-some p ys x)

find-append {ℓ} :
    {A : Type ℓ} (p : A → Bool) (xs : List A) (x : A) → find p (xs ++ x ∷ []) ≡ none → p x ≡ false
find-append p [] x h = ground arith
find-append p (y ∷ ys) x h = ground (arith, find-append p ys x)

pub keys-append :
    (rows : List OperationRow) (row : OperationRow)
    → HasKeys (rows ++ row ∷ [])
    → find_operation row.id rows ≡ none
keys-append [] row h = refl
keys-append (r ∷ rs) row h = ground (
  arith,
  keys-append rs row h.1,
  find-append (λ (q : OperationRow). str_eq q.id r.id) rs row h.0,
  eq_iff r.id row.id,
  eq_iff row.id r.id,
)

pub step_keys-append :
    (rows : List StepRow) (row : StepRow)
    → HasStepKeys (rows ++ row ∷ [])
    → find (is_step row.operation_id row.sequence) rows ≡ none
step_keys-append [] row h = refl
step_keys-append (r ∷ rs) row h = ground (
  arith,
  step_keys-append rs row h.1,
  find-append (is_step r.operation_id r.sequence) rs row h.0,
  eq_iff r.operation_id row.operation_id,
  eq_iff row.operation_id r.operation_id,
)

is_operation_of :
    (intent : OperationIntent) (receipt : RequestReceipt)
    → is_acceptable intent receipt ≡ true
    → intent.id ≡ receipt.operation_id
unfolding is_acceptable
is_operation_of intent receipt h = ground (arith, eq_iff receipt.operation_id intent.id)

-- The state that an accepted request leaves.
abbrev pub accepted_state :
    OperationIntent → RequestReceipt → String → List InstanceRow → Tables → Tables
accepted_state intent receipt now instances s = record s {
  instances = instances;
  operations = s.operations ++ new_row intent now ∷ [];
  receipts = s.receipts ++ receipt ∷ [];
}

insert_accepted-ok :
    (intent : OperationIntent) (receipt : RequestReceipt) (now : String)
    (instances : List InstanceRow) (s : Tables) (a : RequestReceipt) (t : Tables)
    → insert_accepted intent receipt now instances s ≡ ok (a, some t)
    → t ≡ accepted_state intent receipt now t.instances s
unfolding insert_accepted
insert_accepted-ok intent receipt now instances s a t h =
    let same : t ≡ accepted_state intent receipt now instances s = cc in
    same
    ∙ ap (λ (is : List InstanceRow). accepted_state intent receipt now is s)
        (sym (ap (λ (u : Tables). u.instances) same))

accept_delete-ok :
    (intent : OperationIntent) (receipt : RequestReceipt) (now : String) (current : InstanceRow)
    (s : Tables) (a : RequestReceipt) (t : Tables)
    → accept_delete intent receipt now current s ≡ ok (a, some t)
    → t ≡ accepted_state intent receipt now t.instances s
unfolding accept_delete
accept_delete-ok intent receipt now current s a t h = ground (
  arith,
  insert_accepted-ok intent receipt now
      (retire current.id (intent.expected_revision + 1) s.instances) s a t,
)

pub accept_on-ok :
    (intent : OperationIntent) (receipt : RequestReceipt) (now : String) (s : Tables)
    (o : Option InstanceRow) (a : RequestReceipt) (t : Tables)
    → accept_on intent receipt now s o ≡ ok (a, some t)
    → (has_unresolved intent.instance_id s.operations ≡ false)
      × (t ≡ accepted_state intent receipt now t.instances s)
unfolding accept_on
accept_on-ok intent receipt now s none a t h = cc
accept_on-ok intent receipt now s (some current) a t h = ground (
  arith,
  insert_accepted-ok intent receipt now s.instances s a t,
  accept_delete-ok intent receipt now current s a t,
)

pub accept_found-Change :
    (intent : OperationIntent) (receipt : RequestReceipt) (now : String) (s : Tables)
    (o : Option RequestReceipt) (a : RequestReceipt) (t : Tables)
    → is_acceptable intent receipt ≡ true
    → find_receipt receipt.scope_id receipt.request_id receipt.plan_id s.receipts ≡ o
    → accept_found intent receipt now s o ≡ ok (a, some t)
    → HasKeys t.operations
    → Change s t
unfolding accept_found find_receipt new_row
accept_found-Change intent receipt now s (some existing) a t valid looked h keys =
    keeps (ground arith)
accept_found-Change intent receipt now s none a t valid looked h keys =
    let facts =
      accept_on-ok intent receipt now s (find_instance intent.instance_id s.instances) a t h in
    accepts (new_row intent now) receipt t.instances refl (is_operation_of intent receipt valid)
      (keys-append s.operations (new_row intent now) (subst_keys facts.1)) facts.0 (ground arith)
      (ground arith) facts.1
  where
    subst_keys :
        t ≡ accepted_state intent receipt now t.instances s
        → HasKeys (s.operations ++ new_row intent now ∷ [])
    subst_keys e =
        let same : t.operations ≡ s.operations ++ new_row intent now ∷ [] =
          ap (λ (u : Tables). u.operations) e in
        rw (← same) keys

pub record_on-Change :
    (step : StepIntent) (now : String) (s : Tables) (o : Option OperationRow) (a : Unit {0})
    (t : Tables)
    → find_operation step.operation_id s.operations ≡ o
    → record_on step now s o ≡ ok (a, some t)
    → HasStepKeys t.steps
    → Change s t
unfolding record_on new_step
record_on-Change step now s none a t looked h keys = cc
record_on-Change step now s (some parent) a t looked h keys =
    let row = new_step step now in
    let same : t ≡ record s { steps = s.steps ++ row ∷ [] } = ground arith in
    records parent row looked (ground arith) (ground arith) refl (ground arith) (ground arith)
      (step_keys-append s.steps row (
        let there : t.steps ≡ s.steps ++ row ∷ [] = ap (λ (u : Tables). u.steps) same in
        rw (← there) keys))
      same

stalled_is_unresolved :
    (status : OperationStatus) → is_stalled status ≡ true → is_unresolved status ≡ true
unfolding is_unresolved
stalled_is_unresolved status h = ground arith

open_is_replaceable :
    (rows : List StepRow)
    → any (λ (r : StepRow). is_replaceable r.outcome) rows ≡ false
    → any is_open rows ≡ false
open_is_replaceable [] h = refl
open_is_replaceable (r ∷ rs) h = ground (arith, open_is_replaceable rs)

pub found_id :
    (id : String) (s : Tables) (current : OperationRow)
    → find_operation id s.operations ≡ some current
    → current.id ≡ id
found_id id s current h = (eq_iff current.id id).0 (find-eq-some _ s.operations current h)

pub retry_on-Change :
    (id phase : String) (s : Tables) (o : Option OperationRow) (a : ℕ) (t : Tables)
    → find_operation id s.operations ≡ o
    → retry_on id phase s o ≡ ok (a, some t)
    → Change s t
unfolding retry_on
retry_on-Change id phase s none a t looked h = cc
retry_on-Change id phase s (some current) a t looked h =
    let same = found_id id s current looked in
    let stalled : is_stalled current.status ≡ true = ground arith in
    moves current.id current OperationStatus.executing
      (λ (r : OperationRow). record r {
        attempt = current.attempt + 1;
        status = OperationStatus.executing;
        phase = phase;
      })
      (ap (λ (i : String). find_operation i s.operations) same ∙ looked)
      (stalled_is_unresolved current.status stalled) (λ r. (refl, refl, refl, refl))
      (λ q. ap (λ (i : String). any is_open (steps_of i s.steps)) same ∙ ground arith)
      (ground arith)

pub set_on-Change :
    (id : String) (status : OperationStatus) (phase now : String) (s : Tables)
    (o : Option OperationRow) (a : Unit {0}) (t : Tables)
    → is_abandoned status ≡ false
    → find_operation id s.operations ≡ o
    → set_on id status phase now s o ≡ ok (a, some t)
    → Change s t
unfolding set_on is_unresolved
set_on-Change id status phase now s none a t ended looked h = cc
set_on-Change id status phase now s (some current) a t ended looked h =
    let same = found_id id s current looked in
    moves current.id current status
      (with_status status phase (if is_unresolved status then none else some now))
      (ap (λ (i : String). find_operation i s.operations) same ∙ looked) (ground arith)
      (λ r. (refl, refl, refl, refl))
      (λ q. ap (λ (i : String). any is_open (steps_of i s.steps)) same ∙ ground arith)
      (ground arith)

pub abandon_on-Change :
    (evidence : VerifiedAbsence) (now : String) (s : Tables) (o : Option OperationRow)
    (a : Unit {0}) (t : Tables)
    → find_operation evidence.operation_id s.operations ≡ o
    → abandon_on evidence now s o ≡ ok (a, some t)
    → Change s t
unfolding abandon_on
abandon_on-Change evidence now s none a t looked h = cc
abandon_on-Change evidence now s (some current) a t looked h =
    let stalled : is_stalled current.status ≡ true = ground arith in
    moves evidence.operation_id current OperationStatus.abandoned
      (with_status OperationStatus.abandoned "abandoned" (some now)) looked
      (stalled_is_unresolved current.status stalled) (λ r. (refl, refl, refl, refl))
      (λ q. open_is_replaceable (steps_of evidence.operation_id s.steps) (ground arith))
      (ground arith)

pub reconcile_found-Change :
    (id : String) (sequence : ℕ) (outcome : StepOutcome) (now : String) (s : Tables)
    (o : Option StepRow) (a : Unit {0}) (t : Tables)
    → find (is_step id sequence) s.steps ≡ o
    → reconcile_found id sequence outcome now s o ≡ ok (a, some t)
    → Change s t
unfolding reconcile_found
reconcile_found-Change id sequence outcome now s none a t looked h = cc
reconcile_found-Change id sequence outcome now s (some row) a t looked h =
    reconciles id sequence outcome now row looked (ground arith) (ground arith)

pub reconcile_on-Change :
    (id : String) (sequence : ℕ) (outcome : StepOutcome) (now : String) (s : Tables)
    (o : Option OperationRow) (a : Unit {0}) (t : Tables)
    → reconcile_on id sequence outcome now s o ≡ ok (a, some t)
    → Change s t
unfolding reconcile_on
reconcile_on-Change id sequence outcome now s none a t h = cc
reconcile_on-Change id sequence outcome now s (some current) a t h =
    reconcile_found-Change id sequence outcome now s (find (is_step id sequence) s.steps) a t refl
      (ground arith)
