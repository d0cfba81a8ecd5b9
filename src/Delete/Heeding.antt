-- ===== src/Delete/Heeding.antt =====
-- crates/application/src/delete_operation.rs: a refusal of the journal ends a deletion.
use compose_nest.Common.{
  ◌≡◌, Bool, true, false, List, Result, ok, err, is_ok, Exec, AllGranted, Stops, perform-Stops,
  bind-Stops, attempt-Stops, pure-Stops, raise-Stops, if-Stops, map_err-is_ok, ◌∷◌, after_perform,
}
use compose_nest.Journal.{OperationIntent, RequestReceipt}
use compose_nest.Lifecycle.{LifecycleEffectError}
use compose_nest.Delete.{
  StorageCheck, DeleteError, Call, accept, delete_pending, set_status, complete_delete, Outside,
  is_refused, run_stages, conclude, run_pending, run_locked,
}

module _ (outside : Outside) where
  -- The journal took the call; a call of another kind is free.
  abbrev pub Grants : Call → List Call → Type 0
  Grants (accept intent receipt) h =
      is_ok (outside.accept intent receipt (accept intent receipt ∷ h)) ≡ true
  Grants (delete_pending accepted) h =
      is_ok (outside.delete_pending accepted (delete_pending accepted ∷ h)) ≡ true
  Grants (set_status id status phase) h =
      is_ok (outside.set_status id status phase (set_status id status phase ∷ h)) ≡ true
  Grants (complete_delete accepted storage) h =
      is_ok (outside.complete_delete accepted storage (complete_delete accepted storage ∷ h)) ≡ true
  Grants _ h = Unit

  abbrev Safe : {A : Type 0} → Exec Call DeleteError A → Type 0
  Safe m = Stops Grants m

  -- The stages call nothing that the journal could refuse.
  run_stages-AllGranted :
      (accepted : RequestReceipt) (h : List Call)
      → AllGranted Grants h
      → AllGranted Grants (run_stages outside accepted h).1
  unfolding run_stages
  run_stages-AllGranted accepted h g =
      after_perform Q _ _ _ h (λ e x. (tt, g))
        λ _ x.
          after_perform Q _ _ _ _ (λ e x. (tt, (tt, g)))
            λ _ x. after_perform Q _ _ _ _ (λ e x. (tt, (tt, (tt, g)))) λ _ x. (tt, (tt, (tt, g)))
    where
      Q : Result (List StorageCheck) LifecycleEffectError × List Call → Type 0
      Q r = AllGranted Grants r.1

  conclude-Stops :
      (accepted : RequestReceipt) (r : Result (List StorageCheck) LifecycleEffectError)
      → Safe (conclude outside accepted r)
  unfolding conclude
  conclude-Stops accepted (ok storage) =
      bind-Stops Grants _ _ (perform-Stops Grants _ _ λ h a e. map_err-is_ok _ _ a e)
        λ _. pure-Stops Grants _
  conclude-Stops accepted (err e) =
      bind-Stops Grants _ _ (perform-Stops Grants _ _ λ h a x. map_err-is_ok _ _ a x)
        λ _. raise-Stops Grants _

  run_pending-Stops :
      (accepted : RequestReceipt) (pending : Bool) → Safe (run_pending outside accepted pending)
  unfolding run_pending
  run_pending-Stops accepted false = pure-Stops Grants _
  run_pending-Stops accepted true =
      bind-Stops Grants _ _ (perform-Stops Grants _ _ λ h a e. map_err-is_ok _ _ a e) λ _.
        attempt-Stops Grants (run_stages outside accepted) _ (run_stages-AllGranted accepted)
          λ r. conclude-Stops accepted r

  pub run_locked-Stops :
      (intent : OperationIntent) (receipt : RequestReceipt) (retain : Bool)
      → Safe (run_locked outside intent receipt retain)
  unfolding run_locked
  run_locked-Stops intent receipt retain =
      if-Stops Grants (is_refused intent receipt retain) (raise-Stops Grants _) (
        bind-Stops Grants _ _ (perform-Stops Grants _ _ λ h a e. map_err-is_ok _ _ a e) λ accepted.
          bind-Stops Grants _ _ (perform-Stops Grants _ _ λ h a e. map_err-is_ok _ _ a e)
            λ pending. run_pending-Stops accepted pending)
