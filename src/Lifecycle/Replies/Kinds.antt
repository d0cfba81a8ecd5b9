-- ===== src/Lifecycle/Replies/Kinds.antt =====
-- crates/application/src/lifecycle_operation.rs: what the replies of Start, Stop and Restart rest on.
use compose_nest.Common.{
  ℕ, refl, inl, inr, String, not, ◌&&◌, ◌||◌, List, [], after_perform, Bool-cases,
}
use compose_nest.Instance.{RuntimeStatus}
use compose_nest.Instance.Operation.{OperationKind}
use compose_nest.Journal.{RequestReceipt}
use compose_nest.Lifecycle.{
  LifecycleObservation, Stage, Call, Outside, is_absent, is_stopped, is_unknown, mark,
  suggest_start,
}
use compose_nest.Lifecycle.Locked.{
  start_container, run_start, confirm_stopped, run_stop, run_restart, dispatch, run_locked,
}
use compose_nest.Lifecycle.Replies.{
  IsHonest, refused_store, never, after_or_fail, after_check, after_step, fail-IsHonest,
  finish-IsHonest, map_err-ok,
}

module _ (outside : Outside) (receipt : RequestReceipt) where
  start_container-IsHonest :
      (sequence : ℕ) (id : String) (h : List Call)
      → IsHonest outside receipt (start_container outside receipt sequence id h)
  unfolding start_container
  start_container-IsHonest sequence id h =
      after_step outside receipt sequence Stage.start id _ _ h λ _ h'.
        after_check outside receipt "ready" _ _ _ h'
          λ _. finish-IsHonest outside receipt id RuntimeStatus.ready _

  run_start-IsHonest :
      (saved : String) (current : LifecycleObservation) (h : List Call)
      → IsHonest outside receipt (run_start outside receipt saved current h)
  unfolding run_start
  run_start-IsHonest saved current h = after_check outside receipt "storage" _ _ _ h λ _.
      after_check outside receipt "artifact" _ _ _ _ λ _.
        elim (Bool-cases (is_absent current.status)) [
          | inl gone ↦ rw gone (
              after_step outside receipt 1 Stage.recreate receipt.instance_id _ _ _
                λ id h'. start_container-IsHonest 2 id h')
          | inr there ↦ rw there (
              after_or_fail outside receipt "inspect" _ _ _ λ _.
                elim (Bool-cases (is_stopped current.status)) [
                  | inl stopped ↦ rw stopped (start_container-IsHonest 1 saved _)
                  | inr other ↦ rw other (fail-IsHonest outside receipt "inspect" _ _)
                ])
        ]

  confirm_stopped-IsHonest :
      (id : String) (after : LifecycleObservation) (h : List Call)
      → IsHonest outside receipt (confirm_stopped outside receipt id after h)
  unfolding confirm_stopped
  confirm_stopped-IsHonest id after h =
      elim (Bool-cases (
        not (is_stopped after.status || is_absent after.status)
        || (not (is_absent after.status) && not after.owned))) [
          | inl wrong ↦ rw wrong (fail-IsHonest outside receipt "observe" _ _)
          | inr right ↦ rw right (finish-IsHonest outside receipt id after.status _)
        ]

  run_stop-IsHonest :
      (saved : String) (current : LifecycleObservation) (h : List Call)
      → IsHonest outside receipt (run_stop outside receipt saved current h)
  unfolding run_stop
  run_stop-IsHonest saved current h = elim (Bool-cases (is_absent current.status)) [
    | inl gone ↦ rw gone (finish-IsHonest outside receipt saved RuntimeStatus.absent _)
    | inr there ↦ elim (Bool-cases (not current.owned && not (is_unknown current.status))) [
      | inl foreign ↦ rw (there, foreign) (fail-IsHonest outside receipt "inspect" _ _)
      | inr owned ↦ elim (Bool-cases (is_unknown current.status)) [
        | inl unsure ↦ rw (there, owned, unsure) (fail-IsHonest outside receipt "inspect" _ _)
        | inr sure ↦
            rw (there, owned, sure)
              (after_step outside receipt 1 Stage.stop saved _ _ _ λ _ h'.
                after_perform (IsHonest outside receipt) _ _ _ h'
                  (λ x p. never outside receipt _ x _ p)
                  λ after p. confirm_stopped-IsHonest saved after _)
      ]
    ]
  ]

  run_restart-IsHonest :
      (saved : String) (current : LifecycleObservation) (h : List Call)
      → IsHonest outside receipt (run_restart outside receipt saved current h)
  unfolding run_restart suggest_start mark
  run_restart-IsHonest saved current h = elim (Bool-cases (is_absent current.status)) [
    | inl gone ↦ rw gone (
        after_perform (IsHonest outside receipt) _ _ _ h
          (λ x p. refused_store outside receipt _ x _ p) λ _ p. (refl, refl, map_err-ok _ p))
    | inr there ↦ rw there (
        after_or_fail outside receipt "inspect" _ _ _ λ _.
          after_check outside receipt "artifact" _ _ _ _ λ _.
            after_step outside receipt 1 Stage.restart saved _ _ _ λ _ h'.
              after_check outside receipt "ready" _ _ _ h'
                λ _. finish-IsHonest outside receipt saved RuntimeStatus.ready _)
  ]

  dispatch-IsHonest :
      (kind : OperationKind) (saved : String) (current : LifecycleObservation) (h : List Call)
      → IsHonest outside receipt (dispatch outside receipt kind saved current h)
  unfolding dispatch
  dispatch-IsHonest OperationKind.start saved current h = run_start-IsHonest saved current h
  dispatch-IsHonest OperationKind.stop saved current h = run_stop-IsHonest saved current h
  dispatch-IsHonest OperationKind.restart saved current h = run_restart-IsHonest saved current h
  dispatch-IsHonest _ saved current h = tt

  -- Whatever the outside answers: a container ID is returned only directly after the operation was
  -- completed with it; the errors `Rejected` and `StartSuggested` only directly after the operation
  -- was marked as failed, and `OutcomeUnknown` directly after it was so marked, each taken by the
  -- journal. Otherwise the error is that of the store.
  pub run_locked-IsHonest :
      (kind : OperationKind) → IsHonest outside receipt (run_locked outside receipt kind [])
  unfolding run_locked mark
  run_locked-IsHonest kind =
      after_perform (IsHonest outside receipt) _ _ _ []
        (λ x p. refused_store outside receipt _ x _ p)
        λ saved p.
          after_perform (IsHonest outside receipt) _ _ _ _
            (λ x p. refused_store outside receipt _ x _ p)
            λ _ p.
              after_perform (IsHonest outside receipt) _ _ _ _
                (λ x p. never outside receipt _ x _ p)
                λ current p. dispatch-IsHonest kind saved.container_id current _
