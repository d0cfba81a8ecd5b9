-- ===== src/Delete/Retirement.antt =====
-- crates/application/src/delete_operation.rs: what the retirement of an instance rests on.
use compose_nest.Common.{
  ◌≡◌, refl, ◌⊎◌, inl, inr, Bool, true, false, none, List, [], ◌∷◌, Result, ok, err, arith, perform,
  ◌>>=◌, after_perform, after_attempt, Bool-cases, map_err, eq_iff, Heeds, Stops-Heeds,
}
use compose_nest.Instance.Operation.{OperationKind, OperationStatus, executing}
use compose_nest.Journal.{StoreConflict, OperationIntent, RequestReceipt}
use compose_nest.Lifecycle.{LifecycleEffectError, failure_status}
use compose_nest.Delete.Heeding.{Grants, run_locked-Stops}
use compose_nest.Delete.{
  StorageCheck, DeleteError, outcome_unknown, store, Call, accept, delete_pending, set_status,
  remove_runtime, inspect_storage, runtime_absent, complete_delete, Outside, is_refused,
  failure_error, run_stages, conclude, run_pending, run_locked,
}

-- A request that confirms the retention of the data and agrees with its intent.
pub record IsConfirmed (intent : OperationIntent) (receipt : RequestReceipt) (retain : Bool)
    : Type 0 where
  pub retained : retain ≡ true
  pub kind : intent.kind ≡ OperationKind.delete
  pub no_plan : receipt.plan_id ≡ none
  pub same_instance : intent.instance_id ≡ receipt.instance_id
  pub same_operation : intent.id ≡ receipt.operation_id
  pub same_revision : intent.expected_revision ≡ receipt.confirmed_revision
  pub no_old : intent.old_spec_revision ≡ none
  pub no_new : intent.new_spec_revision ≡ none

refused_iff :
    (intent : OperationIntent) (receipt : RequestReceipt) (retain : Bool)
    → is_refused intent receipt retain ≡ false
    → IsConfirmed intent receipt retain
unfolding is_refused
refused_iff intent receipt retain h =
    ground
      (arith, eq_iff intent.instance_id receipt.instance_id, eq_iff intent.id receipt.operation_id)

module _ (outside : Outside) where
  -- The histories of a deletion, the newest call first, up to each of its stages.
  abbrev pub marked : OperationIntent → RequestReceipt → RequestReceipt → List Call
  marked intent receipt accepted =
      set_status accepted.operation_id executing "remove_runtime"
      ∷ delete_pending accepted
      ∷ accept intent receipt
      ∷ []

  abbrev pub removed : OperationIntent → RequestReceipt → RequestReceipt → List Call
  removed intent receipt accepted = remove_runtime accepted ∷ marked intent receipt accepted

  abbrev pub inspected : OperationIntent → RequestReceipt → RequestReceipt → List Call
  inspected intent receipt accepted = inspect_storage ∷ removed intent receipt accepted

  abbrev pub confirmed : OperationIntent → RequestReceipt → RequestReceipt → List Call
  confirmed intent receipt accepted = runtime_absent ∷ inspected intent receipt accepted

  -- What the last call of a history may be, given the ones before it.
  abbrev pub Rests : OperationIntent → RequestReceipt → Bool → Call → List Call → Type 0
  Rests intent receipt retain (complete_delete accepted storage) h =
      (h ≡ confirmed intent receipt accepted)
      × (outside.accept intent receipt (accept intent receipt ∷ []) ≡ ok accepted)
      × (outside.delete_pending accepted (delete_pending accepted ∷ accept intent receipt ∷ [])
          ≡ ok true)
      × (outside.remove_runtime accepted (removed intent receipt accepted) ≡ ok tt)
      × (outside.inspect_storage (inspected intent receipt accepted) ≡ ok storage)
      × (outside.runtime_absent (confirmed intent receipt accepted) ≡ ok tt)
  Rests intent receipt retain _ h = Unit

  abbrev pub AllRest : OperationIntent → RequestReceipt → Bool → List Call → Type 0
  AllRest intent receipt retain [] = Unit
  AllRest intent receipt retain (c ∷ h) =
      IsConfirmed intent receipt retain
      × Rests intent receipt retain c h
      × AllRest intent receipt retain h

  pub record IsSound (intent : OperationIntent) (receipt : RequestReceipt) (retain : Bool)
      (r : Result RequestReceipt DeleteError × List Call) : Type 0 where
    pub rests : AllRest intent receipt retain r.1
    pub on_ok :
        (accepted : RequestReceipt)
        → r.0 ≡ ok accepted
        → (outside.accept intent receipt (accept intent receipt ∷ []) ≡ ok accepted)
          × ((outside.delete_pending accepted (delete_pending accepted ∷ accept intent receipt ∷ [])
                ≡ ok false)
              ⊎ ((storage : List StorageCheck) × (r.1
                    ≡ complete_delete accepted storage ∷ confirmed intent receipt accepted)
                  × (outside.complete_delete accepted storage r.1 ≡ ok tt)))
    pub on_unknown :
        r.0 ≡ err outcome_unknown
        → (accepted : RequestReceipt) × (h : List Call) × (r.1
            ≡ set_status accepted.operation_id OperationStatus.outcome_unknown "delete_check" ∷ h)
          × (outside.set_status accepted.operation_id OperationStatus.outcome_unknown "delete_check"
                r.1
              ≡ ok tt)
    -- A rejected request made no call, or its failure is on record.
    pub on_rejected :
        r.0 ≡ err DeleteError.rejected
        → (r.1 ≡ [])
          ⊎ ((accepted : RequestReceipt) × (h : List Call) × (r.1
                ≡ set_status accepted.operation_id OperationStatus.failed "delete_check" ∷ h)
              × (outside.set_status accepted.operation_id OperationStatus.failed "delete_check" r.1
                  ≡ ok tt))

  module _ (intent : OperationIntent) (receipt : RequestReceipt) (retain : Bool)
      (valid : IsConfirmed intent receipt retain) where
    abbrev Q : Result RequestReceipt DeleteError × List Call → Type 0
    Q = IsSound intent receipt retain

    not_stored :
        {A : Type 0} (o : Result A StoreConflict) (e : DeleteError) (h : List Call)
        → AllRest intent receipt retain h
        → map_err store o ≡ err e
        → Q (err e, h)
    not_stored (ok a) e h r x = cc
    not_stored (err c) e h r x = record {
      rests = r;
      on_ok = λ a y. cc;
      on_unknown = λ y. cc;
      on_rejected = λ y. cc;
    }

    was_ok : {A : Type 0} (o : Result A StoreConflict) (a : A) → map_err store o ≡ ok a → o ≡ ok a
    was_ok (ok b) a x = cc
    was_ok (err c) a x = cc

    -- The failure of a stage is recorded before it is reported.
    stage_failed :
        (accepted : RequestReceipt) (e : LifecycleEffectError) (h : List Call)
        → AllRest intent receipt retain h
        → Q (conclude outside accepted (err e) h)
    unfolding conclude failure_error failure_status
    stage_failed accepted LifecycleEffectError.rejected h r =
        after_perform Q _ _ _ h (λ e x. not_stored _ e _ (valid, tt, r) x)
          λ _ x. record {
            rests = (valid, tt, r);
            on_ok = λ a y. cc;
            on_unknown = λ y. cc;
            on_rejected = λ y. inr (accepted, h, refl, was_ok _ tt x);
          }
    stage_failed accepted LifecycleEffectError.outcome_unknown h r =
        after_perform Q _ _ _ h (λ e x. not_stored _ e _ (valid, tt, r) x)
          λ _ x. record {
            rests = (valid, tt, r);
            on_ok = λ a y. cc;
            on_unknown = λ y. (accepted, h, refl, was_ok _ tt x);
            on_rejected = λ y. cc;
          }

    module _ (accepted : RequestReceipt)
        (was_accepted : outside.accept intent receipt (accept intent receipt ∷ [])
          ≡ ok accepted) where
      start_rests : AllRest intent receipt retain (marked intent receipt accepted)
      start_rests = (valid, tt, (valid, tt, (valid, tt, tt)))

      completed :
          (storage : List StorageCheck)
          → outside.delete_pending accepted (delete_pending accepted ∷ accept intent receipt ∷ [])
            ≡ ok true
          → outside.remove_runtime accepted (removed intent receipt accepted) ≡ ok tt
          → outside.inspect_storage (inspected intent receipt accepted) ≡ ok storage
          → outside.runtime_absent (confirmed intent receipt accepted) ≡ ok tt
          → Q (conclude outside accepted (ok storage) (confirmed intent receipt accepted))
      unfolding conclude
      completed storage p gone looked absent =
          after_perform Q _ _ _ _ (λ e x. not_stored _ e _ rests x)
            λ _ x. record {
              rests = rests;
              on_ok = λ a y.
                  let same : accepted ≡ a = cc in
                  rw (← same) (was_accepted, inr (storage, refl, was_ok _ tt x));
              on_unknown = λ y. cc;
              on_rejected = λ y. cc;
            }
        where
          rests :
              AllRest intent receipt retain
                (complete_delete accepted storage ∷ confirmed intent receipt accepted)
          rests = (
            valid,
            (refl, was_accepted, p, gone, looked, absent),
            (valid, tt, (valid, tt, (valid, tt, start_rests))),
          )

      run_pending-IsSound :
          (pending : Bool)
          → outside.delete_pending accepted (delete_pending accepted ∷ accept intent receipt ∷ [])
            ≡ ok pending
          → Q (
              run_pending outside accepted pending
                (delete_pending accepted ∷ accept intent receipt ∷ []))
      unfolding run_pending run_stages
      run_pending-IsSound false p = record {
        rests = (valid, tt, (valid, tt, tt));
        on_ok = λ a y. let same : accepted ≡ a = cc in rw (← same) (was_accepted, inl p);
        on_unknown = λ y. cc;
        on_rejected = λ y. cc;
      }
      run_pending-IsSound true p =
          after_perform Q _ _ _ _ (λ e x. not_stored _ e _ start_rests x)
            λ _ x.
              after_attempt Q (run_stages outside accepted) (conclude outside accepted) _ stages
        where
          After : Result (List StorageCheck) LifecycleEffectError × List Call → Type 0
          After r = Q (conclude outside accepted r.0 r.1)

          stages : After (run_stages outside accepted (marked intent receipt accepted))
          stages =
              after_perform After _ _ _ _
                (λ e x. stage_failed accepted e _ (valid, tt, start_rests))
                λ _ gone.
                  after_perform After _ _ _ _
                    (λ e x. stage_failed accepted e _ (valid, tt, (valid, tt, start_rests)))
                    λ storage looked.
                      after_perform After _ _ _ _
                        (λ e x.
                          stage_failed accepted e _
                            (valid, tt, (valid, tt, (valid, tt, start_rests))))
                        λ _ absent. completed storage p gone looked absent

  sound :
      (intent : OperationIntent) (receipt : RequestReceipt) (retain : Bool)
      → IsSound intent receipt retain (run_locked outside intent receipt retain [])
  unfolding run_locked
  sound intent receipt retain = elim (Bool-cases (is_refused intent receipt retain)) [
    | inl bad ↦ rw bad (record {
      rests = tt;
      on_ok = λ a y. cc;
      on_unknown = λ y. cc;
      on_rejected = λ y. inl refl;
    })
    | inr good ↦ rw good (body (refused_iff intent receipt retain good))
  ]
    where
      body :
          IsConfirmed intent receipt retain
          → IsSound intent receipt retain (
              ◌>>=◌
                (perform
                  (accept intent receipt)
                  λ h. map_err store (outside.accept intent receipt h))
                (λ accepted.
                  perform
                    (delete_pending accepted)
                    (λ h. map_err store (outside.delete_pending accepted h))
                  >>= λ pending. run_pending outside accepted pending)
                [])
      body v =
          after_perform (IsSound intent receipt retain) _ _ _ []
            (λ e x. not_stored intent receipt retain v _ e _ (v, tt, tt) x)
            λ accepted x.
              after_perform (IsSound intent receipt retain) _ _ _ _
                (λ e y. not_stored intent receipt retain v _ e _ (v, tt, (v, tt, tt)) y)
                λ pending y.
                  run_pending-IsSound intent receipt retain v accepted
                    (was_ok intent receipt retain v _ accepted x) pending
                    (was_ok intent receipt retain v _ pending y)

  -- Whatever the outside answers: without a confirmed, consistent request a deletion makes no call
  -- at all. The retirement is completed only for the accepted receipt, still pending, directly
  -- after the runtime was removed, every storage allocation inspected and the absence of the
  -- runtime confirmed once more, with the storage that was found. The journal took each of its calls
  -- before any further one was made. A receipt is returned only when it was accepted, and was either
  -- no longer pending or completed in this way; an unknown outcome is reported only when the journal
  -- took that status, and a rejection only when it took the status of a failure or no call was made.
  pub run_locked-IsSound :
      (intent : OperationIntent) (receipt : RequestReceipt) (retain : Bool)
      → let (reply, calls) = run_locked outside intent receipt retain [] in
        IsSound intent receipt retain (reply, calls) × Heeds (Grants outside) calls
  run_locked-IsSound intent receipt retain = (
    sound intent receipt retain,
    Stops-Heeds _ _ (run_locked-Stops outside intent receipt retain),
  )
