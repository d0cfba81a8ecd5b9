-- ===== src/Database/Requests/Startup.antt =====
-- crates/adapters/src/operation_journal.rs: what the application is told of operations that did not end.
use compose_nest.Common.{
  All, map, select, ◌≡◌, refl, ap, ◌∙◌, String, Bool, true, false, Option, some, List, [], ◌∷◌,
  Result, ok, err, arith, any, eq_iff, if◌then◌else◌,
}
use mathlib.Core.List.{Permᴰ}
use mathlib.Core.List.Permᴰ
use compose_nest.Instance.Operation.{is_unresolved}
use compose_nest.Journal.{StoreConflict}
use compose_nest.Recovery.{RecoverableOperation}
use compose_nest.Database.{
  orm_read, answered, DatabaseError, OperationRow, Tables, Engine, find_operation,
}
use compose_nest.Database.Operations.{Work}
use compose_nest.Database.Resolution.{
  recovery_snapshot, collect, by_start, is_unresolved_row, recoverable_on, recoverable, interrupt,
  is_executing_row, recover_work, report, recover_on_startup,
}
use compose_nest.Database.Requests.{HasKeys, interrupts}
use compose_nest.Database.Requests.Repeated.{left, orm_write-ok}
use compose_nest.Database.Requests.Consistent.{Change-IsConsistent}
use compose_nest.Database.Requests.Preserved.{IsConsistent}
use compose_nest.Database.Requests.Reports.{
  IsReport, told_id, row_id, by_start-Permᴰ, All-Permᴰ, recoverable_on-IsReport, collect-IsReport,
}

live_rows :
    (rows every : List OperationRow)
    → HasKeys rows
    → ((r : OperationRow) → find_operation r.id rows ≡ some r → find_operation r.id every ≡ some r)
    → All
        (λ r. (find_operation r.id every ≡ some r) × (is_unresolved r.status ≡ true))
        (select is_unresolved_row rows)
live_rows [] every keys there = tt
live_rows (r ∷ rs) every keys there =
    chosen (is_unresolved r.status)
      (live_rows rs every keys.1 λ q found.
        there q (
          ground
            (arith, found, keys.0, eq_iff r.id q.id, ap (λ (i : String). find_operation i rs))))
      refl
  where
    chosen :
        (b : Bool)
        → All
            (λ q. (find_operation q.id every ≡ some q) × (is_unresolved q.status ≡ true))
            (select is_unresolved_row rs)
        → is_unresolved r.status ≡ b
        → All
            (λ q. (find_operation q.id every ≡ some q) × (is_unresolved q.status ≡ true))
            (if b then r ∷ select is_unresolved_row rs else select is_unresolved_row rs)
    chosen true rest e = ((there r (ground (arith, (eq_iff r.id r.id).1 refl)), e), rest)
    chosen false rest e = rest

none_executing : (rows : List OperationRow) → any is_executing_row (interrupt rows) ≡ false
unfolding interrupt
none_executing [] = refl
none_executing (r ∷ rs) = ground (arith, none_executing rs)

module _ (engine : Engine) where
  -- When the recovery at the start succeeds on consistent tables, it has only marked the executing
  -- operations as unknown, so that none is executing any more, and the application is told exactly
  -- once of every operation that is not resolved, and of no other. The report of each repeats its
  -- row, with all the rows of its steps under its receipt, numbered from one, of which only the last
  -- may lack an outcome.
  pub startup_reports :
      (s t : Tables) (rs : List RecoverableOperation)
      → IsConsistent s
      → recover_on_startup engine s ≡ (ok rs, t)
      → (t ≡ record s { operations = interrupt s.operations })
        × (any is_executing_row t.operations ≡ false)
        × All (IsReport t) rs
        × Permᴰ (map told_id rs) (map row_id (select is_unresolved_row t.operations))
  unfolding recover_on_startup report
  startup_reports s t rs c h =
      let done = orm_write-ok engine (recover_work engine) s rs t h in
      reported (collect (map (recovery_snapshot u) (by_start engine rows))) refl done.0 done.1
        done.2
    where
      u : Tables
      u = record s { operations = interrupt s.operations }

      rows : List OperationRow
      rows = select is_unresolved_row (interrupt s.operations)

      there : IsConsistent u
      there = Change-IsConsistent s u c (interrupts refl)

      reported :
          (o : Result (List RecoverableOperation) StoreConflict)
          → collect (map (recovery_snapshot u) (by_start engine rows)) ≡ o
          → (p : Option Tables)
          → ◌≡◌ {A = Work (List RecoverableOperation)}
              (elim o [ ok snapshots ↦ ok (snapshots, some u) | err d ↦ err d ])
              (ok (rs, p))
          → t ≡ left s p
          → (t ≡ u)
            × (any is_executing_row t.operations ≡ false)
            × All (IsReport t) rs
            × Permᴰ (map told_id rs) (map row_id (select is_unresolved_row t.operations))
      reported (err d) e p k l = cc
      reported (ok found) e p k l =
          let committed : p ≡ some u = cc in
          let same : t ≡ u = l ∙ ap (left s) committed in
          let listed : rs ≡ found = cc in
          let ordered = by_start-Permᴰ engine rows in
          let live = live_rows u.operations u.operations there.keys (λ r f. f) in
          let all = collect-IsReport u there _ found (All-Permᴰ _ ordered live) e in
          rw (same, listed, all.1)
            (refl, none_executing s.operations, all.0, Permᴰ.map row_id ordered)

  -- On consistent tables, an operation that is found for recovery is the one that was asked for: it
  -- is not resolved, and the report repeats its row, with all the rows of its steps under its
  -- receipt, numbered from one, of which only the last may lack an outcome.
  pub recoverable-IsReport :
      (id : String) (s : Tables) (r : RecoverableOperation)
      → IsConsistent s
      → recoverable engine id s ≡ ok r
      → (r.id ≡ id) × IsReport s r
  unfolding recoverable orm_read answered
  recoverable-IsReport id s r c h = told (engine.read s) h
    where
      told :
          (o : Result (Unit {0}) DatabaseError)
          → answered engine (λ t. recoverable_on t (find_operation id t.operations)) s o ≡ ok r
          → (r.id ≡ id) × IsReport s r
      told (ok x) k = recoverable_on-IsReport s c id (find_operation id s.operations) r refl k
      told (err e) k = cc
