-- ===== src/Database/Requests/Promise/Kept.antt =====
-- crates/adapters/src/operation_journal.rs: every request keeps its promise.
use compose_nest.Common.{
  ℕ, ◌≡◌, ◌≢◌, refl, inl, inr, String, Bool, true, false, not, ◌||◌, Option, none, some, List,
  Result, ok, err, arith, str_eq, if◌then◌else◌, ◌==◌, Bool-cases,
}
use compose_nest.Instance.Operation.{OperationStatus}
use compose_nest.Journal.{StoreConflict, StepIntent, StepOutcome}
use compose_nest.Recovery.{VerifiedAbsence, RecoverableOperation}
use compose_nest.Database.{
  DatabaseError, OperationRow, Tables, Engine, Replied, land, conclude, begin, orm_write,
}
use compose_nest.Database.Operations.{
  is_acceptable, is_revision, count_rows, record_on, retry_on, set_on, is_abandoned, Work, accept,
  accept_work, record_work, finish_work, retry_work, set_work, record_step, finish_step, retry,
  set_status,
}
use compose_nest.Database.Resolution.{
  reconcile_found, reconcile_on, abandon_on, interrupt, report, recover_work, reconcile_work,
  abandon_work, recover_on_startup, reconcile_step, abandon_verified,
}
use compose_nest.Database.Requests.{
  Request, accepting, recording, finishing, retrying, setting, recovering, reconciling, abandoning,
  EnforcesKeys,
}
use compose_nest.Database.Requests.Promise.Granted.{retried, moved, reconciled, abandoned, recorded}
use compose_nest.Database.Requests.Promise.Acceptance.{accepted, accepted_before}
use compose_nest.Database.Requests.Promise.{
  Settles, Accepted, Recorded, Retried, Moved, Reconciled, Abandoned, Finished, IsKept,
  interrupted_tables,
}

-- What a transaction answers and leaves: a refusal, an early return, or what it has committed.
orm_write-either :
    (engine : Engine) {A : Type 0} (P : Replied A → Type 0) (work : Tables → Work A) (s : Tables)
    → ((c : StoreConflict) → P (err c, s))
    → ((a : A) → work s ≡ ok (a, none) → P (ok a, s))
    → ((a : A) (t : Tables) → work s ≡ ok (a, some t) → engine.write s t ≡ ok tt → P (ok a, t))
    → P (orm_write engine work s)
unfolding orm_write begin conclude land
orm_write-either engine {A} P work s refused early new = started (engine.read s)
  where
    landed :
        (a : A) (t : Tables) (w : Result (Unit {0}) DatabaseError)
        → engine.write s t ≡ w
        → work s ≡ ok (a, some t)
        → P (land engine s a t w)
    landed a t (ok u) x y = new a t y x
    landed a t (err e) x y = refused _

    worked : (r : Work A) → work s ≡ r → P (conclude engine s r)
    worked (ok (a, none)) y = early a y
    worked (ok (a, some t)) y = landed a t (engine.write s t) refl y
    worked (err c) y = refused c

    started : (r : Result (Unit {0}) DatabaseError) → P (begin engine work s r)
    started (ok u) = worked (work s) refl
    started (err e) = refused _

-- A request that is refused at once.
checked :
    {A : Type 0} (P : Replied A → Type 0) (b : Bool) (r x : Replied A)
    → P r
    → (b ≡ false → P x)
    → P (if b then r else x)
checked P true r x old rest = old
checked P false r x old rest = rest refl

of_not : (b : Bool) → not b ≡ false → b ≡ true
of_not b h = ground arith

none_is_not : {u : Tables} → none ≢ some u
none_is_not h = cc

some_injective : {t u : Tables} → some t ≡ some u → t ≡ u
some_injective h = cc

module _ (engine : Engine) (s : Tables) where
  -- Both ends of a transaction that never returns early.
  orm_write-Settles :
      {A : Type 0} (Done : A → Tables → Type 0) (work : Tables → Work A)
      → ((a : A) → work s ≢ ok (a, none))
      → ((a : A) (t : Tables) → work s ≡ ok (a, some t) → engine.write s t ≡ ok tt → Done a t)
      → Settles s Done (orm_write engine work s)
  orm_write-Settles Done work late new =
      orm_write-either engine (Settles s Done) work s (λ c. refl) (λ a h. absurd (late a h)) new

  never_record :
      (step : StepIntent) (o : Option OperationRow) (a : Unit {0})
      → record_on step (engine.now s) s o ≢ ok (a, none)
  unfolding record_on
  never_record step none a h = cc
  never_record step (some parent) a h = ground arith

  never_retry :
      (id phase : String) (o : Option OperationRow) (a : ℕ) → retry_on id phase s o ≢ ok (a, none)
  unfolding retry_on
  never_retry id phase none a h = cc
  never_retry id phase (some current) a h = ground arith

  never_set :
      (id : String) (status : OperationStatus) (phase : String) (o : Option OperationRow)
      (a : Unit {0})
      → set_on id status phase (engine.now s) s o ≢ ok (a, none)
  unfolding set_on
  never_set id status phase none a h = cc
  never_set id status phase (some current) a h = ground arith

  never_reconcile :
      (id : String) (sequence : ℕ) (outcome : StepOutcome) (o : Option OperationRow) (a : Unit {0})
      → reconcile_on id sequence outcome (engine.now s) s o ≢ ok (a, none)
  unfolding reconcile_on reconcile_found
  never_reconcile id sequence outcome none a h = cc
  never_reconcile id sequence outcome (some parent) a h = ground arith

  never_abandon :
      (evidence : VerifiedAbsence) (o : Option OperationRow) (a : Unit {0})
      → abandon_on evidence (engine.now s) s o ≢ ok (a, none)
  unfolding abandon_on
  never_abandon evidence none a h = cc
  never_abandon evidence (some current) a h = ground arith

  counted :
      (id : String) (sequence : ℕ) (outcome : StepOutcome) (n : ℕ) (t : Tables)
      → finish_work engine id sequence outcome s ≡ ok (n, some t)
      → Finished engine s id sequence outcome (count_rows (ok n, t))
  unfolding count_rows
  counted id sequence outcome n t h = elim (Bool-cases (n == 1)) [
    | inl one ↦ rw one (ground arith, cc)
    | inr other ↦ rw other (inr (λ e. ground arith, cc))
  ]

  reported :
      (u : Tables) (a : List RecoverableOperation) (o : Option Tables)
      → report engine u ≡ ok (a, o)
      → o ≡ some u
  unfolding report
  reported u a o h = ground arith

  not_abandoned :
      (status : OperationStatus) → is_abandoned status ≡ false → status ≢ OperationStatus.abandoned
  not_abandoned status h e = ground arith

  -- Whatever the engine answers, as long as it commits no tables that violate a primary key: a
  -- request that is refused leaves the tables as they were, except that finishing a step may have given
  -- the outcome to all open steps of its number when they are not exactly one; and a request that is
  -- granted has made exactly the change that belongs to it, in the state that it needs. An
  -- acceptance was made before, or begins the operation on the managed instance of the expected
  -- revision with nothing unresolved, under a new request and plan, and a Delete retires the
  -- instance; a step is the next one of a running operation's attempt; a retry counts the attempt of
  -- a stalled operation with no open step; a status is set on an unresolved operation; a step is
  -- reconciled only for a stalled operation and without a known outcome; and an operation is
  -- abandoned only in the attempt of the evidence, stalled, not a Delete and with all outcomes known.
  pub serve-IsKept : EnforcesKeys engine → (q : Request) → IsKept engine s q
  unfolding accept record_step finish_step retry set_status recover_on_startup reconcile_step
      abandon_verified interrupt
  serve-IsKept enforces (accepting intent receipt) =
      checked (Settles s (Accepted engine s intent receipt)) (not (is_acceptable intent receipt)) _
        _ refl
        λ valid.
          orm_write-either engine (Settles s (Accepted engine s intent receipt))
            (accept_work engine intent receipt) s (λ c. refl)
            (λ a h. accepted_before engine intent receipt s _ a refl h)
            λ a t h w.
              accepted engine intent receipt s _ a t (of_not _ valid) refl h (enforces s t w).0
  serve-IsKept enforces (recording step) =
      checked (Settles s (λ _. Recorded engine s step))
        (str_eq step.operation_id ""
          || str_eq step.resource_id ""
          || not (is_revision step.sequence)
          || not (is_revision step.attempt))
        _ _ refl
        λ valid.
          orm_write-Settles (λ _. Recorded engine s step) (record_work engine step)
            (never_record step _) λ a t h w. recorded engine s step _ a t refl h (enforces s t w).1
  serve-IsKept enforces (finishing id sequence outcome) =
      checked (Finished engine s id sequence outcome) (not (is_revision sequence)) _ _ (inl refl)
        λ valid.
          orm_write-either engine (λ x. Finished engine s id sequence outcome (count_rows x))
            (finish_work engine id sequence outcome) s (λ c. inl refl) (λ a h. cc)
            λ a t h w. counted id sequence outcome a t h
  serve-IsKept enforces (retrying id phase) =
      checked (Settles s (Retried engine s id phase)) (str_eq phase "") _ _ refl λ valid.
        orm_write-Settles (Retried engine s id phase) (retry_work engine id phase)
          (never_retry id phase _) λ a t h w. retried engine s id phase _ a t refl h
  serve-IsKept enforces (setting id status phase) =
      checked (Settles s (λ _. Moved engine s id status phase)) (str_eq phase "") _ _ refl λ valid.
        checked (Settles s (λ _. Moved engine s id status phase)) (is_abandoned status) _ _ refl
          λ live.
            orm_write-Settles (λ _. Moved engine s id status phase)
              (set_work engine id status phase) (never_set id status phase _)
              λ a t h w. moved engine s id status phase _ a t live refl h
  serve-IsKept enforces recovering =
      orm_write-Settles (λ _ t. t ≡ interrupted_tables engine s) (recover_work engine)
        (λ a h. absurd (none_is_not (reported (interrupted_tables engine s) a none h)))
        λ a t h w. some_injective (reported (interrupted_tables engine s) a (some t) h)
  serve-IsKept enforces (reconciling id sequence outcome) =
      checked (Settles s (λ _. Reconciled engine s id sequence outcome))
        (not (is_revision sequence)) _ _ refl
        λ valid.
          orm_write-Settles (λ _. Reconciled engine s id sequence outcome)
            (reconcile_work engine id sequence outcome) (never_reconcile id sequence outcome _)
            λ a t h w. reconciled engine s id sequence outcome _ a t refl h
  serve-IsKept enforces (abandoning evidence) =
      checked (Settles s (λ _. Abandoned engine s evidence)) (not (is_revision evidence.attempt)) _
        _ refl
        λ valid.
          orm_write-Settles (λ _. Abandoned engine s evidence) (abandon_work engine evidence)
            (never_abandon evidence _) λ a t h w. abandoned engine s evidence _ a t refl h
