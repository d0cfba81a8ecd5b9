-- ===== src/Database/Requests/Preserved.antt =====
-- crates/adapters/src/operation_journal.rs: the consistency of the tables, under each change.
use compose_nest.Common.{
  ◌≡◌, refl, sym, ap, ◌∙◌, inl, inr, ◌⊎◌, String, Bool, true, false, none, some, List, [], ◌∷◌,
  ◌++◌, arith, any, find, update, str_eq, eq_iff, if◌then◌else◌, ◌≤◌, ◌≤◌,
}
use compose_nest.Instance.Operation.{OperationStatus, accepted, is_unresolved}
use compose_nest.Journal.{RequestReceipt, StepOutcome}
use compose_nest.Database.{
  InstanceRow, OperationRow, StepRow, Tables, find_operation, steps_of, is_open, latest,
}
use compose_nest.Database.Operations.{
  has_unresolved, is_running, next_sequence, is_pending, is_step, is_operation, with_outcome,
}
use compose_nest.Database.Resolution.{interrupt, is_executing_row}
use compose_nest.Database.Requests.{HasKeys, HasStepKeys}
use compose_nest.Database.Requests.Transactions.{found_id}
use compose_nest.Database.Requests.Steps.{
  IsLog, IsLog-append, steps_of-append, find-steps_of, steps_of-finished, open-finished,
  IsLog-finished, finished,
}
use compose_nest.Database.Requests.Rows.{
  find-update, unresolved, unresolved-append, unresolved-none, unresolved-interrupt,
  unresolved-move, find_operation-update, found-update, keys-update, find-append-some,
}

pub record IsConsistent (s : Tables) : Type 0 where
  -- No two operations have one ID, and no two steps of one operation a number.
  pub step_keys : HasStepKeys s.steps
  pub keys : HasKeys s.operations
  -- An instance has at most one operation that is not resolved.
  pub single : (id : String) → unresolved id s.operations ≤ 1
  -- The steps of an operation are numbered without a gap, and only the last may lack an outcome.
  pub logs : (id : String) → IsLog 1 (steps_of id s.steps)
  -- A resolved operation has no step without an outcome.
  pub closed :
      (id : String) (r : OperationRow)
      → find_operation id s.operations ≡ some r
      → is_unresolved r.status ≡ false
      → any is_open (steps_of id s.steps) ≡ false
  -- A step belongs to an operation.
  pub owned : (id : String) → find_operation id s.operations ≡ none → steps_of id s.steps ≡ []

-- The rows of `operations` with a new one at the end.
keys-add :
    (rows : List OperationRow) (row : OperationRow)
    → HasKeys rows
    → find_operation row.id rows ≡ none
    → HasKeys (rows ++ row ∷ [])
keys-add [] row h fresh = (refl, tt)
keys-add (r ∷ rs) row h fresh = (
  ground (
    arith,
    find-append-some (λ (q : OperationRow). str_eq q.id r.id) rs row,
    h.0,
    eq_iff row.id r.id,
    eq_iff r.id row.id,
  ),
  keys-add rs row h.1 (ground arith),
)

step_keys-add :
    (rows : List StepRow) (row : StepRow)
    → HasStepKeys rows
    → find (is_step row.operation_id row.sequence) rows ≡ none
    → HasStepKeys (rows ++ row ∷ [])
step_keys-add [] row h fresh = (refl, tt)
step_keys-add (r ∷ rs) row h fresh = (
  ground (
    arith,
    find-append-some (is_step r.operation_id r.sequence) rs row,
    h.0,
    eq_iff row.operation_id r.operation_id,
    eq_iff r.operation_id row.operation_id,
  ),
  step_keys-add rs row h.1 (ground arith),
)

step_keys-finished :
    (p : StepRow → Bool) (outcome : StepOutcome) (now : String) (rows : List StepRow)
    → HasStepKeys rows
    → HasStepKeys (finished p outcome now rows)
step_keys-finished p outcome now [] h = tt
step_keys-finished p outcome now (r ∷ rs) h = (
  ground (
    arith,
    find-update p (is_step r.operation_id r.sequence) (with_outcome outcome now) (λ x. refl) rs,
    h.0,
  ),
  step_keys-finished p outcome now rs h.1,
)

pub accepts-IsConsistent :
    (s : Tables) (instances : List InstanceRow) (row : OperationRow)
    (receipts : List RequestReceipt)
    → IsConsistent s
    → row.status ≡ accepted
    → find_operation row.id s.operations ≡ none
    → has_unresolved row.instance_id s.operations ≡ false
    → IsConsistent (record s {
      instances = instances;
      operations = s.operations ++ row ∷ [];
      receipts = receipts;
    })
unfolding is_unresolved
accepts-IsConsistent s instances row receipts c new fresh free = record {
  step_keys = c.step_keys;
  keys = keys-add s.operations row c.keys fresh;
  single = λ id. ground (
    arith,
    new,
    c.single id,
    unresolved-append id s.operations row,
    unresolved-none row.instance_id s.operations free,
    eq_iff row.instance_id id,
  );
  logs = c.logs;
  closed = λ id r found done. ground (
    arith,
    new,
    find-append-some (λ (q : OperationRow). str_eq q.id id) s.operations row,
    c.closed id r,
    found,
    done,
  );
  owned = λ id lost. c.owned id (
      ground
        (arith, find-append-some (λ (q : OperationRow). str_eq q.id id) s.operations row, lost));
}

IsLog-added :
    (id : String) (s : Tables) (row : StepRow)
    → IsLog 1 (steps_of id s.steps)
    → row.sequence ≡ next_sequence (latest (steps_of row.operation_id s.steps))
    → is_pending (latest (steps_of row.operation_id s.steps)) ≡ false
    → find (is_step row.operation_id row.sequence) s.steps ≡ none
    → IsLog 1 (steps_of id (s.steps ++ row ∷ []))
IsLog-added id s row log next idle fresh =
    rw (steps_of-append id s.steps row) (added (str_eq row.operation_id id) refl)
  where
    added :
        (b : Bool)
        → str_eq row.operation_id id ≡ b
        → IsLog 1 (if b then steps_of id s.steps ++ row ∷ [] else steps_of id s.steps)
    added false other = log
    added true own =
        let same = (eq_iff row.operation_id id).0 own in
        let rows = ap (λ (i : String). steps_of i s.steps) same in
        IsLog-append (steps_of id s.steps) row log
          (next ∙ ap (λ (r : List StepRow). next_sequence (latest r)) rows)
          (sym (ap (λ (r : List StepRow). is_pending (latest r)) rows) ∙ idle)
          (find-steps_of id row.sequence s.steps
            ∙ sym (ap (λ (i : String). find (is_step i row.sequence) s.steps) same)
            ∙ fresh)

pub records-IsConsistent :
    (s : Tables) (parent : OperationRow) (row : StepRow)
    → IsConsistent s
    → find_operation row.operation_id s.operations ≡ some parent
    → is_running parent.status ≡ true
    → row.sequence ≡ next_sequence (latest (steps_of row.operation_id s.steps))
    → is_pending (latest (steps_of row.operation_id s.steps)) ≡ false
    → find (is_step row.operation_id row.sequence) s.steps ≡ none
    → IsConsistent (record s { steps = s.steps ++ row ∷ [] })
unfolding is_unresolved
records-IsConsistent s parent row c looked running next idle fresh = record {
  step_keys = step_keys-add s.steps row c.step_keys fresh;
  keys = c.keys;
  single = c.single;
  logs = λ id. IsLog-added id s row (c.logs id) next idle fresh;
  closed = λ id r found done. ground (
    arith,
    steps_of-append id s.steps row,
    c.closed id r found done,
    eq_iff row.operation_id id,
    looked,
    found,
    running,
    done,
    ap (λ (i : String). find_operation i s.operations),
  );
  owned = λ id lost. ground (
    arith,
    steps_of-append id s.steps row,
    c.owned id lost,
    eq_iff row.operation_id id,
    looked,
    lost,
    ap (λ (i : String). find_operation i s.operations),
  );
}

pub finishes-IsConsistent :
    (s : Tables) (p : StepRow → Bool) (outcome : StepOutcome) (now : String)
    → IsConsistent s
    → IsConsistent (record s { steps = finished p outcome now s.steps })
finishes-IsConsistent s p outcome now c = record {
  step_keys = step_keys-finished p outcome now s.steps c.step_keys;
  keys = c.keys;
  single = c.single;
  logs = λ id.
      rw (steps_of-finished p outcome now id s.steps)
        (IsLog-finished p outcome now 1 (steps_of id s.steps) (c.logs id));
  closed = λ id r found done.
      ap (any is_open) (steps_of-finished p outcome now id s.steps)
      ∙ open-finished p outcome now (steps_of id s.steps) (c.closed id r found done);
  owned = λ id lost.
      steps_of-finished p outcome now id s.steps ∙ ap (finished p outcome now) (c.owned id lost);
}

pub moves-IsConsistent :
    (s : Tables) (id : String) (current : OperationRow) (status : OperationStatus)
    (f : OperationRow → OperationRow)
    → IsConsistent s
    → find_operation id s.operations ≡ some current
    → is_unresolved current.status ≡ true
    → ((r : OperationRow)
        → ((f r).id ≡ r.id)
          × ((f r).instance_id ≡ r.instance_id)
          × ((f r).kind ≡ r.kind)
          × ((f r).status ≡ status))
    → (is_unresolved status ≡ false → any is_open (steps_of id s.steps) ≡ false)
    → IsConsistent (record s { operations = update (is_operation id) f s.operations })
moves-IsConsistent s id current status f c looked live same ends = record {
  step_keys = c.step_keys;
  keys = keys-update (is_operation id) f (λ r. (same r).0) s.operations c.keys;
  single = λ i. omega (
    arith,
    c.single i,
    unresolved-move id current f (λ r. (same r).1) live i s.operations c.keys looked,
  );
  logs = c.logs;
  closed = λ i r found done.
      closed i r done (found-update (is_operation id) f (λ q. (same q).0) i s.operations r found);
  owned = λ i lost.
      c.owned i (
        ground (arith, find_operation-update (is_operation id) f (λ r. (same r).0) i s.operations));
}
  where
    closed :
        (i : String) (r : OperationRow)
        → is_unresolved r.status ≡ false
        → (q : OperationRow) × (find_operation i s.operations ≡ some q)
          × (((is_operation id q ≡ true) × (r ≡ f q)) ⊎ ((is_operation id q ≡ false) × (r ≡ q)))
        → any is_open (steps_of i s.steps) ≡ false
    closed i r done (q, found, inl (moved, e)) =
        let own : id ≡ i = sym ((eq_iff q.id id).0 moved) ∙ found_id i s q found in
        ap (λ (j : String). any is_open (steps_of j s.steps)) (sym own)
        ∙ ends (sym (ap is_unresolved (ap (λ (x : OperationRow). x.status) e ∙ (same q).3)) ∙ done)
    closed i r done (q, found, inr (other, e)) =
        c.closed i q found (ap (λ (x : OperationRow). is_unresolved x.status) (sym e) ∙ done)

abbrev stopped : OperationRow → OperationRow
stopped r = record r { status = OperationStatus.outcome_unknown }

pub interrupts-IsConsistent :
    (s : Tables) → IsConsistent s → IsConsistent (record s { operations = interrupt s.operations })
unfolding interrupt is_unresolved
interrupts-IsConsistent s c = record {
  step_keys = c.step_keys;
  keys = keys-update is_executing_row stopped (λ r. refl) s.operations c.keys;
  single = λ i. omega (arith, c.single i, unresolved-interrupt i s.operations);
  logs = c.logs;
  closed = λ i r found done.
      closed i r done (found-update is_executing_row stopped (λ q. refl) i s.operations r found);
  owned = λ i lost.
      c.owned i
        (ground (arith, find_operation-update is_executing_row stopped (λ r. refl) i s.operations));
}
  where
    closed :
        (i : String) (r : OperationRow)
        → is_unresolved r.status ≡ false
        → (q : OperationRow) × (find_operation i s.operations ≡ some q)
          × (((is_executing_row q ≡ true) × (r ≡ stopped q))
              ⊎ ((is_executing_row q ≡ false) × (r ≡ q)))
        → any is_open (steps_of i s.steps) ≡ false
    closed i r done (q, found, inl (moved, e)) = ground (arith, done, e)
    closed i r done (q, found, inr (other, e)) =
        c.closed i q found (ap (λ (x : OperationRow). is_unresolved x.status) (sym e) ∙ done)
