-- ===== src/Lifecycle/Heeding.antt =====
-- crates/application/src/lifecycle_operation.rs: a refusal of the journal or the state ends an
-- operation.
use compose_nest.Common.{
  ℕ, ◌≡◌, String, List, Result, ok, err, is_ok, not, ◌&&◌, perform, true, Stops, perform-Stops,
  bind-Stops, attempt-Stops, pure-Stops, raise-Stops, if-Stops, map_err-is_ok, ◌∷◌,
  AllGranted-Heeds,
}
use compose_nest.Instance.{RuntimeStatus}
use compose_nest.Instance.Operation.{OperationKind, OperationStatus}
use compose_nest.Journal.{RequestReceipt}
use compose_nest.Lifecycle.{
  LifecycleObservation, LifecycleEffectError, Stage, Call, Outside, Run, snapshot, set_status,
  record_step, finish_step, complete, is_absent, is_stopped, is_unknown, mark, fail, suggest_start,
  or_fail, check, step,
}
use compose_nest.Lifecycle.Locked.{
  finish, start_container, run_start, confirm_stopped, run_stop, run_restart, dispatch, run_locked,
}

module _ (outside : Outside) where
  -- The journal and the state took the call; a call of another kind is free.
  abbrev pub Grants : Call → List Call → Type 0
  Grants (snapshot receipt kind) h =
      is_ok (outside.snapshot receipt kind (snapshot receipt kind ∷ h)) ≡ true
  Grants (set_status id status phase) h =
      is_ok (outside.set_status id status phase (set_status id status phase ∷ h)) ≡ true
  Grants (record_step intent) h = is_ok (outside.record_step intent (record_step intent ∷ h)) ≡ true
  Grants (finish_step id sequence outcome) h =
      is_ok (outside.finish_step id sequence outcome (finish_step id sequence outcome ∷ h)) ≡ true
  Grants (complete id container status) h =
      is_ok (outside.complete id container status (complete id container status ∷ h)) ≡ true
  Grants _ h = Unit

  abbrev Safe : {A : Type 0} → Run A → Type 0
  Safe m = Stops Grants m

  mark-Stops :
      (id : String) (status : OperationStatus) (phase : String)
      → Safe (mark outside id status phase)
  unfolding mark
  mark-Stops id status phase = perform-Stops Grants _ _ λ h a e. map_err-is_ok _ _ a e

  module _ (receipt : RequestReceipt) where
    fail-Stops :
        {A : Type 0} (phase : String) (e : LifecycleEffectError)
        → Safe {A = A} (fail outside receipt phase e)
    unfolding fail
    fail-Stops phase e = bind-Stops Grants _ _ (mark-Stops _ _ _) λ _. raise-Stops Grants _

    suggest_start-Stops : {A : Type 0} → Safe {A = A} (suggest_start outside receipt)
    unfolding suggest_start
    suggest_start-Stops = bind-Stops Grants _ _ (mark-Stops _ _ _) λ _. raise-Stops Grants _

    or_fail-Stops :
        {A : Type 0} (phase : String) (r : Result A LifecycleEffectError)
        → Safe (or_fail outside receipt phase r)
    unfolding or_fail
    or_fail-Stops phase (ok a) = pure-Stops Grants a
    or_fail-Stops phase (err e) = fail-Stops phase e

    check-Stops :
        {A : Type 0} (phase : String) (c : Call)
        (answer : List Call → Result A LifecycleEffectError)
        → ((h : List Call) → Grants c h)
        → Safe (check outside receipt phase c answer)
    unfolding check perform
    check-Stops phase c answer free =
        attempt-Stops Grants (perform c answer) _ (λ h g. (free h, g)) λ r. or_fail-Stops phase r

    step-Stops :
        {A : Type 0} (sequence : ℕ) (stage : Stage) (id : String)
        (work : List Call → Result A LifecycleEffectError)
        → Safe (step outside receipt sequence stage id work)
    unfolding step
    step-Stops sequence stage id work =
        bind-Stops Grants _ _ (perform-Stops Grants _ _ λ h a e. map_err-is_ok _ _ a e) λ _.
          bind-Stops Grants _ _ (mark-Stops _ _ _) λ _.
            bind-Stops Grants _ _ (perform-Stops Grants _ _ λ h a e. tt) λ result.
              bind-Stops Grants _ _ (perform-Stops Grants _ _ λ h a e. map_err-is_ok _ _ a e)
                λ _. or_fail-Stops _ result

    finish-Stops : (id : String) (status : RuntimeStatus) → Safe (finish outside receipt id status)
    unfolding finish
    finish-Stops id status =
        bind-Stops Grants _ _ (perform-Stops Grants _ _ λ h a e. map_err-is_ok _ _ a e)
          λ _. pure-Stops Grants _

    start_container-Stops : (n : ℕ) (id : String) → Safe (start_container outside receipt n id)
    unfolding start_container
    start_container-Stops n id =
        bind-Stops Grants _ _ (step-Stops _ _ _ _)
          λ _. bind-Stops Grants _ _ (check-Stops _ _ _ λ h. tt) λ _. finish-Stops _ _

    run_start-Stops :
        (saved : String) (current : LifecycleObservation)
        → Safe (run_start outside receipt saved current)
    unfolding run_start
    run_start-Stops saved current = bind-Stops Grants _ _ (check-Stops _ _ _ λ h. tt) λ _.
        bind-Stops Grants _ _ (check-Stops _ _ _ λ h. tt) λ _.
          if-Stops Grants (is_absent current.status)
            (bind-Stops Grants _ _ (step-Stops _ _ _ _) λ id. start_container-Stops _ id)
            (bind-Stops Grants _ _ (or_fail-Stops _ _) λ _.
              if-Stops Grants (not (is_stopped current.status)) (fail-Stops _ _)
                (start_container-Stops _ _))

    confirm_stopped-Stops :
        (id : String) (after : LifecycleObservation)
        → Safe (confirm_stopped outside receipt id after)
    unfolding confirm_stopped
    confirm_stopped-Stops id after = if-Stops Grants _ (fail-Stops _ _) (finish-Stops _ _)

    run_stop-Stops :
        (saved : String) (current : LifecycleObservation)
        → Safe (run_stop outside receipt saved current)
    unfolding run_stop
    run_stop-Stops saved current = if-Stops Grants (is_absent current.status) (finish-Stops _ _) (
        if-Stops Grants (not current.owned && not (is_unknown current.status)) (fail-Stops _ _) (
          if-Stops Grants (is_unknown current.status) (fail-Stops _ _) (
            bind-Stops Grants _ _ (step-Stops _ _ _ _) λ _.
              bind-Stops Grants _ _ (perform-Stops Grants _ _ λ h a e. tt)
                λ after. confirm_stopped-Stops _ after)))

    run_restart-Stops :
        (saved : String) (current : LifecycleObservation)
        → Safe (run_restart outside receipt saved current)
    unfolding run_restart
    run_restart-Stops saved current =
        if-Stops Grants (is_absent current.status) suggest_start-Stops (
          bind-Stops Grants _ _ (or_fail-Stops _ _) λ _.
            bind-Stops Grants _ _ (check-Stops _ _ _ λ h. tt) λ _.
              bind-Stops Grants _ _ (step-Stops _ _ _ _)
                λ _. bind-Stops Grants _ _ (check-Stops _ _ _ λ h. tt) λ _. finish-Stops _ _)

    dispatch-Stops :
        (kind : OperationKind) (saved : String) (current : LifecycleObservation)
        → Safe (dispatch outside receipt kind saved current)
    unfolding dispatch
    dispatch-Stops OperationKind.start = run_start-Stops
    dispatch-Stops OperationKind.stop = run_stop-Stops
    dispatch-Stops OperationKind.restart = run_restart-Stops
    dispatch-Stops _ = λ _ _. record { from = λ h g. AllGranted-Heeds Grants h g }

    pub run_locked-Stops : (kind : OperationKind) → Safe (run_locked outside receipt kind)
    unfolding run_locked
    run_locked-Stops kind =
        bind-Stops Grants _ _ (perform-Stops Grants _ _ λ h a e. map_err-is_ok _ _ a e) λ saved.
          bind-Stops Grants _ _ (mark-Stops _ _ _) λ _.
            bind-Stops Grants _ _ (perform-Stops Grants _ _ λ h a e. tt)
              λ current. dispatch-Stops kind _ current
