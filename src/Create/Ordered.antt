-- ===== src/Create/Ordered.antt =====
-- crates/application/src/create_operation.rs: the order of a creation, and what its replies rest on.
pub mod Stages
use compose_nest.Common.{
  ℕ, ◌≡◌, refl, sym, ap, ◌∙◌, String, Bool, true, false, not, ◌||◌, List, [], ◌∷◌, Result, ok, err,
  map_err, arith, str_eq, eq_iff, perform, ◌>>=◌, after_perform, after_block, after_pure,
  after_raise, if◌then◌else◌, Bool-cases, inl, inr,
}
use compose_nest.Instance.Operation.{OperationStatus}
use compose_nest.Journal.{StoreConflict, RequestReceipt, StepOutcome}
use compose_nest.Runner.Step.{OperationEventKind}
use compose_nest.Create.{
  ConfirmedCreate, CreateEffectError, CreateOperationError, Stage, stage_phase, Call,
  confirmed_create, set_status, record_step, finish_step, prepare_storage, effect,
  mark_may_have_initialized, complete_ready, send, Outside, outcome_of, failure_status,
  failure_error, next, event, intent_for, Run, mark, notify, fail, or_fail, report, stage,
  run_started, run_stages, run_confirmed, run_locked,
}

module _ (receipt : RequestReceipt) where
  -- The calls of a stage up to its effect, and those of a stage that succeeded, the newest first.
  abbrev pub opened : ℕ → Stage → String → List Call → List Call
  opened n s id h =
      set_status receipt.operation_id OperationStatus.executing (stage_phase s)
      ∷ record_step (intent_for receipt n s id)
      ∷ h

  abbrev pub passed : ℕ → Stage → String → List Call → List Call
  passed n s id h =
      send (event receipt n OperationEventKind.progress)
      ∷ finish_step receipt.operation_id n StepOutcome.succeeded
      ∷ effect s id
      ∷ opened n s id h

  module _ (c : ConfirmedCreate) (n : ℕ) (id : String) where
    -- The journal's number of a stage, its resource, and the whole history before it: every earlier
    -- stage has succeeded, in the fixed order.
    abbrev pub number : Stage → ℕ
    number Stage.image = n
    number Stage.artifact = next n
    number Stage.config = next (next n)
    number Stage.create = next (next (next n))
    number Stage.inspect_created = next (next (next (next n)))
    number Stage.start = next (next (next (next (next n))))
    number Stage.ready = next (next (next (next (next (next n)))))

    abbrev pub resource : Stage → String
    resource Stage.start = id
    resource Stage.ready = id
    resource _ = c.instance_id

    abbrev pub before_image : List Call
    before_image =
        prepare_storage c receipt.operation_id 1
        ∷ set_status receipt.operation_id OperationStatus.executing "storage"
        ∷ confirmed_create receipt
        ∷ []

    abbrev pub before_artifact : List Call
    before_artifact = passed n Stage.image c.instance_id before_image

    abbrev pub before_config : List Call
    before_config = passed (number Stage.artifact) Stage.artifact c.instance_id before_artifact

    abbrev pub before_create : List Call
    before_create = passed (number Stage.config) Stage.config c.instance_id before_config

    abbrev pub before_inspect : List Call
    before_inspect = passed (number Stage.create) Stage.create c.instance_id before_create

    abbrev pub before_start : List Call
    before_start =
        mark_may_have_initialized receipt.operation_id
        ∷ passed (number Stage.inspect_created) Stage.inspect_created c.instance_id before_inspect

    abbrev pub before_ready : List Call
    before_ready = passed (number Stage.start) Stage.start id before_start

    abbrev pub all_passed : List Call
    all_passed = passed (number Stage.ready) Stage.ready id before_ready

    abbrev pub before : Stage → List Call
    before Stage.image = before_image
    before Stage.artifact = before_artifact
    before Stage.config = before_config
    before Stage.create = before_create
    before Stage.inspect_created = before_inspect
    before Stage.start = before_start
    before Stage.ready = before_ready

    -- The history right before the effect of a stage.
    abbrev pub due : Stage → List Call
    due s = opened (number s) s (resource s) (before s)

module _ (outside : Outside) (receipt : RequestReceipt) where
  -- The records are confirmed for this request, and its storage was prepared.
  pub record IsConfirmed (c : ConfirmedCreate) (n : ℕ) : Type 0 where
    pub records : outside.confirmed_create receipt (confirmed_create receipt ∷ []) ≡ ok c
    pub instance_id : c.instance_id ≡ receipt.instance_id
    pub scope_id : c.scope_id ≡ receipt.scope_id
    pub prepared :
        outside.prepare_storage c receipt.operation_id 1 (before_image receipt c n "") ≡ ok n

  -- The container is the one that the inspection verified.
  abbrev pub IsInspected : ConfirmedCreate → ℕ → String → Type 0
  IsInspected c n id =
      outside.inspect_created
        (effect Stage.inspect_created c.instance_id ∷ due receipt c n id Stage.inspect_created)
      ≡ ok id

  abbrev pub IsVerified : ConfirmedCreate → ℕ → String → Stage → Type 0
  IsVerified c n id Stage.start = IsInspected c n id
  IsVerified c n id Stage.ready = IsInspected c n id
  IsVerified c n id _ = Unit

  -- What a call rests on: the effect of a stage on the whole history before it, the completion on all
  -- stages and on a container that was found ready.
  abbrev pub Rests : Call → List Call → Type 0
  Rests (effect s resource_id) h =
      (c : ConfirmedCreate) × (n : ℕ) × (id : String) × IsConfirmed c n
      × IsVerified c n id s
      × (resource_id ≡ resource receipt c n id s)
      × (h ≡ due receipt c n id s)
  Rests (complete_ready operation id) h =
      (c : ConfirmedCreate) × (n : ℕ) × IsConfirmed c n
      × IsInspected c n id
      × (operation ≡ receipt.operation_id)
      × (outside.wait_ready id (effect Stage.ready id ∷ due receipt c n id Stage.ready) ≡ ok tt)
      × (h ≡ all_passed receipt c n id)
  Rests _ h = Unit

  abbrev pub AllRest : List Call → Type 0
  AllRest [] = Unit
  AllRest (c ∷ h) = Rests c h × AllRest h

  -- The failure is on record, and then it is announced.
  abbrev pub IsFailed : OperationStatus → List Call → Type 0
  IsFailed status h =
      (phase : String) × (n : ℕ) × (h' : List Call) × (outside.set_status receipt.operation_id
          status phase (set_status receipt.operation_id status phase ∷ h')
        ≡ ok tt)
      × (h
          ≡ send (event receipt n OperationEventKind.failed)
            ∷ set_status receipt.operation_id status phase
            ∷ h')

  -- What a reply says of the history.
  abbrev pub IsTrue : Result String CreateOperationError → List Call → Type 0
  IsTrue (ok id) h =
      (n : ℕ) × (h' : List Call) × (outside.complete_ready receipt.operation_id id
          (complete_ready receipt.operation_id id ∷ h')
        ≡ ok tt)
      × (h
          ≡ send (event receipt n OperationEventKind.completed)
            ∷ complete_ready receipt.operation_id id
            ∷ h')
  IsTrue (err CreateOperationError.failed) h = IsFailed OperationStatus.failed h
  IsTrue (err CreateOperationError.outcome_unknown) h = IsFailed OperationStatus.outcome_unknown h
  IsTrue (err (CreateOperationError.store e)) h = Unit
  IsTrue (err (CreateOperationError.runner e)) h = ⊥

  abbrev pub IsOrdered : Result String CreateOperationError × List Call → Type 0
  IsOrdered r = AllRest r.1 × IsTrue r.0 r.1

  pub refused :
      {A : Type 0} (r : Result A StoreConflict) (e : CreateOperationError) (h : List Call)
      → AllRest h
      → map_err CreateOperationError.store r ≡ err e
      → IsOrdered (err e, h)
  refused (ok a) e h r x = cc
  refused (err c) e h r x = let same : CreateOperationError.store c ≡ e = cc in rw (← same) (r, tt)

  pub granted :
      {A : Type 0} (r : Result A StoreConflict) (a : A)
      → map_err CreateOperationError.store r ≡ ok a
      → r ≡ ok a
  granted (ok b) a x = cc
  granted (err c) a x = cc

  pub never :
      {A : Type 0} (a : A) (e : CreateOperationError) (h : List Call)
      → ok a ≡ err e
      → IsOrdered (err e, h)
  never a e h x = cc

  pub after_fail :
      {A : Type 0} (phase : String) (n : ℕ) (e : CreateEffectError) (k : A → Run String)
      (h : List Call)
      → AllRest h
      → IsOrdered ((fail outside receipt phase n e >>= k) h)
  unfolding fail mark notify failure_status failure_error
  after_fail phase n e k h r = after_block IsOrdered _ _ _ h (
      after_perform IsOrdered _ _ _ h (λ x p. refused _ x _ (tt, r) p)
        λ _ p. after_block IsOrdered _ _ _ _ (
          after_perform IsOrdered _ _ _ _ (λ x q. never _ x _ q)
            λ _ q. after_raise IsOrdered _ k _ (told e (granted _ _ p))))
    where
      told :
          (e : CreateEffectError)
          → outside.set_status receipt.operation_id
              (failure_status e)
              phase
              (set_status receipt.operation_id (failure_status e) phase ∷ h)
            ≡ ok tt
          → IsOrdered (
            err (failure_error e),
            send (event receipt n OperationEventKind.failed)
                ∷ set_status receipt.operation_id (failure_status e) phase
                ∷ h,
          )
      told CreateEffectError.failed p = ((tt, (tt, r)), (phase, n, h, p, refl))
      told CreateEffectError.outcome_unknown p = ((tt, (tt, r)), (phase, n, h, p, refl))

  pub after_report :
      {A : Type 0} (phase : String) (n : ℕ) (r : Result A CreateEffectError) (k : A → Run String)
      (h : List Call)
      → AllRest h
      → ((a : A)
          → r ≡ ok a
          → IsOrdered (k a (send (event receipt n OperationEventKind.progress) ∷ h)))
      → IsOrdered ((report outside receipt phase n r >>= k) h)
  unfolding report notify
  after_report phase n (ok a) k h x goes_on = after_block IsOrdered _ _ _ h (
      after_perform IsOrdered _ _ _ h (λ e p. never _ e _ p)
        λ _ p. after_pure IsOrdered a k _ (goes_on a refl))
  after_report phase n (err e) k h x goes_on = after_fail phase n e k h x
