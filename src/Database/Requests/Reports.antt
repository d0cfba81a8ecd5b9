-- ===== src/Database/Requests/Reports.antt =====
-- crates/adapters/src/operation_journal.rs: the report of an operation that did not end.
use compose_nest.Common.{
  All, map, ℕ, ◌+◌, ◌≡◌, refl, ap, ◌∙◌, String, Bool, true, false, ◌||◌, Option, none, some, List,
  [], ◌∷◌, Result, ok, err, arith, find, if◌then◌else◌, is_some, ◌≤◌, sym,
}
use mathlib.Core.List.{Permᴰ}
use mathlib.Core.List.Permᴰ
use mathlib.Core.Path.{subst}
use compose_nest.Instance.Operation.{is_unresolved}
use compose_nest.Journal.{StoreConflict, RequestReceipt, StepRecord}
use compose_nest.Recovery.{RecoverableOperation}
use compose_nest.Database.{
  insert_ordered, in_order, OperationRow, StepRow, Tables, Engine, find_operation, steps_of,
}
use compose_nest.Database.Operations.{to_record, is_receipt_of}
use compose_nest.Database.Resolution.{
  snapshot_with, recovery_snapshot, collect, insert_started, by_start, recoverable_on,
}
use compose_nest.Database.Requests.Transactions.{found_id}
use compose_nest.Database.Requests.Steps.{IsLog}
use compose_nest.Database.Requests.Preserved.{IsConsistent}

-- The steps of a log are already in the order that the queries ask for.
insert_ordered-first :
    (n : ℕ) (r : StepRow) (rs : List StepRow)
    → r.sequence ≤ n
    → IsLog n rs
    → insert_ordered r rs ≡ r ∷ rs
unfolding insert_ordered
insert_ordered-first n r [] h log = refl
insert_ordered-first n r (q ∷ qs) h log = ground (arith, log.0, h)

in_order-log : (n : ℕ) (rows : List StepRow) → IsLog n rows → in_order rows ≡ rows
unfolding in_order
in_order-log n [] h = refl
in_order-log n (r ∷ rs) h =
    ap (insert_ordered r) (in_order-log (n + 1) rs h.3)
    ∙ insert_ordered-first (n + 1) r rs (omega (arith, h.0)) h.3

-- The steps that the application is given: numbered, and only the last may lack an outcome.
abbrev pub has_outcome : StepRecord → Bool
has_outcome step = is_some step.outcome

abbrev pub none_left : List StepRecord → Bool
none_left [] = true
none_left (_ ∷ _) = false

abbrev pub IsNumbered : ℕ → List StepRecord → Type 0
IsNumbered n [] = Unit
IsNumbered n (r ∷ rs) =
    (r.sequence ≡ n) × (has_outcome r || none_left rs ≡ true) × IsNumbered (n + 1) rs

to_record-IsNumbered :
    (operation : OperationRow) (receipt : RequestReceipt) (n : ℕ) (rows : List StepRow)
    → IsLog n rows
    → IsNumbered n (map (to_record operation receipt) rows)
unfolding to_record
to_record-IsNumbered operation receipt n [] h = tt
to_record-IsNumbered operation receipt n (r ∷ []) h = (h.0, ground arith, tt)
to_record-IsNumbered operation receipt n (r ∷ q ∷ qs) h =
    (h.0, ground (arith, h.2), to_record-IsNumbered operation receipt (n + 1) (q ∷ qs) h.3)

-- A report of an operation, against the rows of the tables.
pub record IsReport (s : Tables) (r : RecoverableOperation) : Type 0 where
  pub row : OperationRow
  pub receipt : RequestReceipt
  pub found : find_operation r.id s.operations ≡ some row
  pub received : find (is_receipt_of r.id) s.receipts ≡ some receipt
  pub instance_id : r.instance_id ≡ row.instance_id
  pub kind : r.kind ≡ row.kind
  pub status : r.status ≡ row.status
  pub phase : r.phase ≡ row.phase
  pub attempt : r.attempt ≡ row.attempt
  pub unresolved : is_unresolved r.status ≡ true
  pub listed : r.steps ≡ map (to_record row receipt) (steps_of r.id s.steps)
  pub numbered : IsNumbered 1 r.steps

collect-cons :
    (o : Result RecoverableOperation StoreConflict)
    (os : List (Result RecoverableOperation StoreConflict)) (rs : List RecoverableOperation)
    → collect (o ∷ os) ≡ ok rs
    → (a : RecoverableOperation) × (more : List RecoverableOperation) × (o ≡ ok a)
      × (collect os ≡ ok more)
      × (rs ≡ a ∷ more)
unfolding collect
collect-cons (err d) os rs h = cc
collect-cons (ok a) os rs h = rest (collect os) refl h
  where
    rest :
        (p : Result (List RecoverableOperation) StoreConflict)
        → collect os ≡ p
        → elim p [ ok more ↦ ok (a ∷ more) | err c ↦ err c ] ≡ ok rs
        → (b : RecoverableOperation) × (more : List RecoverableOperation) × (◌≡◌
            {A = Result RecoverableOperation StoreConflict}
            (ok a)
            (ok b))
          × (collect os ≡ ok more)
          × (rs ≡ b ∷ more)
    rest (ok more) e k = (a, more, refl, e, cc)
    rest (err c) e k = cc

-- The order of the start only moves the rows.
module _ (engine : Engine) where
  insert_started-Permᴰ :
      (r : OperationRow) (rs : List OperationRow) → Permᴰ (insert_started engine r rs) (r ∷ rs)
  unfolding insert_started
  insert_started-Permᴰ r [] = Permᴰ.refl _
  insert_started-Permᴰ r (q ∷ qs) =
      placed (insert_started-Permᴰ r qs) (engine.not_after r.started_at q.started_at)
    where
      placed :
          Permᴰ (insert_started engine r qs) (r ∷ qs)
          → (b : Bool)
          → Permᴰ (if b then r ∷ q ∷ qs else q ∷ insert_started engine r qs) (r ∷ q ∷ qs)
      placed rest true = Permᴰ.refl _
      placed rest false = Permᴰ.trans (Permᴰ.cons refl rest) (Permᴰ.swap refl refl)

  pub by_start-Permᴰ : (rs : List OperationRow) → Permᴰ (by_start engine rs) rs
  unfolding by_start
  by_start-Permᴰ [] = Permᴰ.refl _
  by_start-Permᴰ (r ∷ rs) =
      Permᴰ.trans (insert_started-Permᴰ r (by_start engine rs))
        (Permᴰ.cons refl (by_start-Permᴰ rs))

pub All-Permᴰ : {A : Type 0} (P : A → Type 0) {xs ys : List A} → Permᴰ xs ys → All P ys → All P xs
All-Permᴰ P Permᴰ.nil h = h
All-Permᴰ P (Permᴰ.cons e p) h = (subst P (sym e) h.0, All-Permᴰ P p h.1)
All-Permᴰ P (Permᴰ.swap e f) h = (subst P (sym e) h.1.0, (subst P (sym f) h.0, h.1.1))
All-Permᴰ P (Permᴰ.trans p q) h = All-Permᴰ P p (All-Permᴰ P q h)

abbrev pub told_id : RecoverableOperation → String
told_id r = r.id

abbrev pub row_id : OperationRow → String
row_id r = r.id

module _ (s : Tables) (c : IsConsistent s) where
  snapshot_with-IsReport :
      (operation : OperationRow) (o : Option RequestReceipt) (r : RecoverableOperation)
      → find_operation operation.id s.operations ≡ some operation
      → is_unresolved operation.status ≡ true
      → find (is_receipt_of operation.id) s.receipts ≡ o
      → snapshot_with operation s o ≡ ok r
      → (r.id ≡ operation.id) × IsReport s r
  unfolding snapshot_with
  snapshot_with-IsReport operation none r found live known h = cc
  snapshot_with-IsReport operation (some receipt) r found live known h =
      let logged = in_order-log 1 (steps_of operation.id s.steps) (c.logs operation.id) in
      let same : r ≡ record {
        id = operation.id;
        instance_id = operation.instance_id;
        kind = operation.kind;
        status = operation.status;
        phase = operation.phase;
        attempt = operation.attempt;
        steps = map (to_record operation receipt) (in_order (steps_of operation.id s.steps));
      } =
        cc in
      (
        ap (λ (x : RecoverableOperation). x.id) same,
        rw same (record {
          row = operation;
          receipt = receipt;
          found = found;
          received = known;
          instance_id = refl;
          kind = refl;
          status = refl;
          phase = refl;
          attempt = refl;
          unresolved = live;
          listed = ap (map (to_record operation receipt)) logged;
          numbered = rw logged (
              to_record-IsNumbered operation receipt 1 (steps_of operation.id s.steps)
                (c.logs operation.id));
        }),
      )

  pub recoverable_on-IsReport :
      (id : String) (o : Option OperationRow) (r : RecoverableOperation)
      → find_operation id s.operations ≡ o
      → recoverable_on s o ≡ ok r
      → (r.id ≡ id) × IsReport s r
  unfolding recoverable_on recovery_snapshot
  recoverable_on-IsReport id none r looked h = cc
  recoverable_on-IsReport id (some operation) r looked h =
      let live : is_unresolved operation.status ≡ true = ground arith in
      let made : recovery_snapshot s operation ≡ ok r = ground arith in
      let same = found_id id s operation looked in
      let here : find_operation operation.id s.operations ≡ some operation =
        ap (λ (i : String). find_operation i s.operations) same ∙ looked in
      let told = snapshot_with-IsReport operation _ r here live refl made in (told.0 ∙ same, told.1)

  abbrev IsLive : OperationRow → Type 0
  IsLive r = (find_operation r.id s.operations ≡ some r) × (is_unresolved r.status ≡ true)

  pub collect-IsReport :
      (rows : List OperationRow) (rs : List RecoverableOperation)
      → All IsLive rows
      → collect (map (recovery_snapshot s) rows) ≡ ok rs
      → All (IsReport s) rs × (map told_id rs ≡ map row_id rows)
  unfolding collect recovery_snapshot
  collect-IsReport [] [] live h = (tt, refl)
  collect-IsReport [] (r ∷ rs) live h = cc
  collect-IsReport (row ∷ rows) rs live h =
      let at = collect-cons (recovery_snapshot s row) (map (recovery_snapshot s) rows) rs h in
      let rest = collect-IsReport rows at.1 live.1 at.3 in
      let here =
        snapshot_with-IsReport row (find (is_receipt_of row.id) s.receipts) at.0 live.0.0 live.0.1
          refl at.2 in
      rw at.4 ((here.1, rest.0), cc (here.0, rest.1))
