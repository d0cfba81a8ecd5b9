-- ===== src/Database/Requests/Refines.antt =====
-- crates/adapters/src/operation_journal.rs: every request comes to one of the changes that the
-- specification allows.
use compose_nest.Common.{
  ℕ, ◌≡◌, refl, Bool, true, false, not, ◌||◌, none, some, List, Result, ok, err, arith, str_eq,
  if◌then◌else◌,
}
use compose_nest.Journal.{StoreConflict, OperationIntent, RequestReceipt, StepIntent}
use compose_nest.Recovery.{RecoverableOperation}
use compose_nest.Database.{DatabaseError, Tables, Engine, Replied, land, conclude, begin, orm_write}
use compose_nest.Database.Operations.{
  is_acceptable, count_rows, is_revision, accept, accept_work, record_work, finish_work, retry_work,
  set_work, record_step, finish_step, retry, set_status, Work, is_abandoned,
}
use compose_nest.Database.Resolution.{
  recover_work, reconcile_work, abandon_work, report, recover_on_startup, reconcile_step,
  abandon_verified,
}
use compose_nest.Database.Requests.{
  Request, accepting, recording, finishing, retrying, setting, recovering, reconciling, abandoning,
  serve, EnforcesKeys, Change, keeps, finishes, interrupts,
}
use compose_nest.Database.Requests.Transactions.{
  accept_found-Change, record_on-Change, retry_on-Change, set_on-Change, abandon_on-Change,
  reconcile_on-Change,
}

-- A transaction leaves the tables as they were, or makes the change of its body and commits it.
pub orm_write_inv :
    (engine : Engine) {A : Type 0} (P : Tables → Type 0) (work : Tables → Work A) (s : Tables)
    → P s
    → ((a : A) (t : Tables) → work s ≡ ok (a, some t) → engine.write s t ≡ ok tt → P t)
    → P (orm_write engine work s).1
unfolding orm_write begin conclude land
orm_write_inv engine {A} P work s old new = started (engine.read s)
  where
    landed :
        (a : A) (t : Tables) (w : Result (Unit {0}) DatabaseError)
        → engine.write s t ≡ w
        → work s ≡ ok (a, some t)
        → P (land engine s a t w).1
    landed a t (ok u) x y = new a t y x
    landed a t (err e) x y = old

    worked : (r : Work A) → work s ≡ r → P (conclude engine s r).1
    worked (ok (a, none)) y = old
    worked (ok (a, some t)) y = landed a t (engine.write s t) refl y
    worked (err c) y = old

    started : (r : Result (Unit {0}) DatabaseError) → P (begin engine work s r).1
    started (ok u) = worked (work s) refl
    started (err e) = old

report-keeps :
    (engine : Engine) (s : Tables) (a : List RecoverableOperation) (t : Tables)
    → report engine s ≡ ok (a, some t)
    → t ≡ s
unfolding report
report-keeps engine s a t h = ground arith

count_rows-Change : (s : Tables) (x : Replied ℕ) → Change s x.1 → Change s (count_rows x).1
unfolding count_rows
count_rows-Change s (ok n, t) h = h
count_rows-Change s (err c, t) h = h

-- A request that is refused at once keeps the tables.
checked :
    {A : Type 0} (s : Tables) (b : Bool) (x : Replied A) (c : StoreConflict)
    → (b ≡ false → Change s x.1)
    → Change s (if b then (err c, s) else x).1
checked s true x c rest = keeps refl
checked s false x c rest = rest refl

landed_at :
    {A : Type 0} {a b : A} {t u : Tables}
    → ◌≡◌ {A = Work A} (ok (a, some t)) (ok (b, some u))
    → u ≡ t
landed_at h = cc

of_not : (b : Bool) → not b ≡ false → b ≡ true
of_not b h = ground arith

module _ (engine : Engine) (enforces : EnforcesKeys engine) where
  accept-Change :
      (intent : OperationIntent) (receipt : RequestReceipt) (s : Tables)
      → Change s (accept engine intent receipt s).1
  unfolding accept
  accept-Change intent receipt s = checked s (not (is_acceptable intent receipt)) _ _ λ valid.
      orm_write_inv engine (Change s) (accept_work engine intent receipt) s (keeps refl) λ a t h w.
        accept_found-Change intent receipt (engine.now s) s _ a t (of_not _ valid) refl h
          (enforces s t w).0

  record_step-Change : (step : StepIntent) (s : Tables) → Change s (record_step engine step s).1
  unfolding record_step
  record_step-Change step s =
      checked s
        (str_eq step.operation_id ""
          || str_eq step.resource_id ""
          || not (is_revision step.sequence)
          || not (is_revision step.attempt))
        _ _
        λ valid.
          orm_write_inv engine (Change s) (record_work engine step) s (keeps refl)
            λ a t h w. record_on-Change step (engine.now s) s _ a t refl h (enforces s t w).1

  -- Every request leaves the tables as they were, or makes one of the changes that the
  -- specification allows, given that no violated primary key is committed.
  pub serve-Change : (q : Request) (s : Tables) → Change s (serve engine q s)
  unfolding finish_step retry set_status recover_on_startup reconcile_step abandon_verified
  serve-Change (accepting intent receipt) s = accept-Change intent receipt s
  serve-Change (recording step) s = record_step-Change step s
  serve-Change (finishing id sequence outcome) s =
      checked s (not (is_revision sequence)) _ _ λ valid. count_rows-Change s _ (
        orm_write_inv engine (Change s) (finish_work engine id sequence outcome) s (keeps refl)
          λ a t h w. finishes id sequence outcome (engine.now s) (landed_at h))
  serve-Change (retrying id phase) s = checked s (str_eq phase "") _ _ λ valid.
      orm_write_inv engine (Change s) (retry_work engine id phase) s (keeps refl)
        λ a t h w. retry_on-Change id phase s _ a t refl h
  serve-Change (setting id status phase) s = checked s (str_eq phase "") _ _ λ valid.
      checked s (is_abandoned status) _ _ λ ended.
        orm_write_inv engine (Change s) (set_work engine id status phase) s (keeps refl)
          λ a t h w. set_on-Change id status phase (engine.now s) s _ a t ended refl h
  serve-Change recovering s =
      orm_write_inv engine (Change s) (recover_work engine) s (keeps refl)
        λ a t h w. interrupts (report-keeps engine _ a t h)
  serve-Change (reconciling id sequence outcome) s =
      checked s (not (is_revision sequence)) _ _ λ valid.
        orm_write_inv engine (Change s) (reconcile_work engine id sequence outcome) s (keeps refl)
          λ a t h w. reconcile_on-Change id sequence outcome (engine.now s) s _ a t h
  serve-Change (abandoning evidence) s = checked s (not (is_revision evidence.attempt)) _ _ λ valid.
      orm_write_inv engine (Change s) (abandon_work engine evidence) s (keeps refl)
        λ a t h w. abandon_on-Change evidence (engine.now s) s _ a t refl h
