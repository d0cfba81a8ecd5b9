-- ===== src/Create/Heeding.antt =====
-- crates/application/src/create_operation.rs: a refusal of the journal or the state ends a creation.
use compose_nest.Common.{
  ℕ, ◌≡◌, String, List, Result, ok, err, is_ok, Stops, perform-Stops, bind-Stops, pure-Stops,
  raise-Stops, if-Stops, map_err-is_ok, ◌∷◌, true,
}
use compose_nest.Instance.Operation.{OperationStatus}
use compose_nest.Journal.{RequestReceipt}
use compose_nest.Runner.Step.{OperationEventKind}
use compose_nest.Create.{
  ConfirmedCreate, CreateEffectError, Stage, Call, Outside, Run, confirmed_create, set_status,
  record_step, finish_step, mark_may_have_initialized, complete_ready, mark, notify, fail, or_fail,
  report, stage, run_started, run_stages, run_accepted, differs, run_confirmed, run_locked,
}

module _ (outside : Outside) (receipt : RequestReceipt) where
  -- The journal and the state took the call; a call of another kind is free.
  abbrev pub Grants : Call → List Call → Type 0
  Grants (confirmed_create r) h = is_ok (outside.confirmed_create r (confirmed_create r ∷ h)) ≡ true
  Grants (set_status id status phase) h =
      is_ok (outside.set_status id status phase (set_status id status phase ∷ h)) ≡ true
  Grants (record_step intent) h = is_ok (outside.record_step intent (record_step intent ∷ h)) ≡ true
  Grants (finish_step id sequence outcome) h =
      is_ok (outside.finish_step id sequence outcome (finish_step id sequence outcome ∷ h)) ≡ true
  Grants (mark_may_have_initialized id) h =
      is_ok (outside.mark_may_have_initialized id (mark_may_have_initialized id ∷ h)) ≡ true
  Grants (complete_ready id container) h =
      is_ok (outside.complete_ready id container (complete_ready id container ∷ h)) ≡ true
  Grants _ h = Unit

  abbrev Safe : {A : Type 0} → Run A → Type 0
  Safe m = Stops Grants m

  mark-Stops :
      (status : OperationStatus) (phase : String) → Safe (mark outside receipt status phase)
  unfolding mark
  mark-Stops status phase = perform-Stops Grants _ _ λ h a e. map_err-is_ok _ _ a e

  notify-Stops : (n : ℕ) (kind : OperationEventKind) → Safe (notify outside receipt n kind)
  unfolding notify
  notify-Stops n kind = perform-Stops Grants _ _ λ h a e. tt

  fail-Stops :
      {A : Type 0} (phase : String) (n : ℕ) (e : CreateEffectError)
      → Safe {A = A} (fail outside receipt phase n e)
  unfolding fail
  fail-Stops phase n e =
      bind-Stops Grants _ _ (mark-Stops _ _)
        λ _. bind-Stops Grants _ _ (notify-Stops _ _) λ _. raise-Stops Grants _

  or_fail-Stops :
      {A : Type 0} (phase : String) (n : ℕ) (r : Result A CreateEffectError)
      → Safe (or_fail outside receipt phase n r)
  unfolding or_fail
  or_fail-Stops phase n (ok a) = pure-Stops Grants a
  or_fail-Stops phase n (err e) = fail-Stops phase n e

  report-Stops :
      {A : Type 0} (phase : String) (n : ℕ) (r : Result A CreateEffectError)
      → Safe (report outside receipt phase n r)
  unfolding report
  report-Stops phase n (ok a) = bind-Stops Grants _ _ (notify-Stops _ _) λ _. pure-Stops Grants a
  report-Stops phase n (err e) = fail-Stops phase n e

  stage-Stops :
      {A : Type 0} (n : ℕ) (s : Stage) (id : String) (work : List Call → Result A CreateEffectError)
      → Safe (stage outside receipt n s id work)
  unfolding stage
  stage-Stops n s id work =
      bind-Stops Grants _ _ (perform-Stops Grants _ _ λ h a e. map_err-is_ok _ _ a e) λ _.
        bind-Stops Grants _ _ (mark-Stops _ _) λ _.
          bind-Stops Grants _ _ (perform-Stops Grants _ _ λ h a e. tt) λ result.
            bind-Stops Grants _ _ (perform-Stops Grants _ _ λ h a e. map_err-is_ok _ _ a e)
              λ _. report-Stops _ _ result

  run_started-Stops : (n : ℕ) (id : String) → Safe (run_started outside receipt n id)
  unfolding run_started
  run_started-Stops n id = bind-Stops Grants _ _ (stage-Stops _ _ _ _) λ _.
      bind-Stops Grants _ _ (stage-Stops _ _ _ _) λ _.
        bind-Stops Grants _ _ (perform-Stops Grants _ _ λ h a e. map_err-is_ok _ _ a e)
          λ _. bind-Stops Grants _ _ (notify-Stops _ _) λ _. pure-Stops Grants _

  run_stages-Stops : (c : ConfirmedCreate) (n : ℕ) → Safe (run_stages outside receipt c n)
  unfolding run_stages
  run_stages-Stops c n = bind-Stops Grants _ _ (stage-Stops _ _ _ _) λ _.
      bind-Stops Grants _ _ (stage-Stops _ _ _ _) λ _.
        bind-Stops Grants _ _ (stage-Stops _ _ _ _) λ _.
          bind-Stops Grants _ _ (stage-Stops _ _ _ _) λ _.
            bind-Stops Grants _ _ (stage-Stops _ _ _ _) λ id.
              bind-Stops Grants _ _ (perform-Stops Grants _ _ λ h a e. map_err-is_ok _ _ a e)
                λ _. run_started-Stops _ id

  run_accepted-Stops : (c : ConfirmedCreate) → Safe (run_accepted outside receipt c)
  unfolding run_accepted
  run_accepted-Stops c = bind-Stops Grants _ _ (mark-Stops _ _) λ _.
      bind-Stops Grants _ _ (perform-Stops Grants _ _ λ h a e. tt)
        λ prepared. bind-Stops Grants _ _ (or_fail-Stops _ _ prepared) λ n. run_stages-Stops c n

  run_confirmed-Stops : (c : ConfirmedCreate) → Safe (run_confirmed outside receipt c)
  unfolding run_confirmed
  run_confirmed-Stops c =
      if-Stops Grants (differs outside receipt c) (raise-Stops Grants _) (run_accepted-Stops c)

  pub run_locked-Stops : Safe (run_locked outside receipt)
  unfolding run_locked
  run_locked-Stops =
      bind-Stops Grants _ _ (perform-Stops Grants _ _ λ h a e. map_err-is_ok _ _ a e)
        λ c. run_confirmed-Stops c
