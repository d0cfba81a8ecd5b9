-- ===== src/Lifecycle/Locked.antt =====
-- crates/application/src/lifecycle_operation.rs: the body of an operation, and its two entrances.
use compose_nest.Common.{
  ℕ, String, Bool, true, false, not, ◌&&◌, ◌||◌, List, Result, ok, err, map_err, perform, pure,
  ◌>>=◌, ◌>>◌, if◌then◌else◌,
}
use compose_nest.Instance.{RuntimeStatus}
use compose_nest.Instance.Operation.{OperationKind, OperationStatus}
use compose_nest.Journal.{invalid_input, RequestReceipt}
use compose_nest.Runner.{RunnerError, Active, run_exclusive, run_reserved}
use compose_nest.Lifecycle.{
  LifecycleObservation, LifecycleEffectError, LifecycleOperationError, Stage, Call, snapshot,
  observe, verify_storage, verify_artifact, wait_ready, complete, Outside, is_absent, is_stopped,
  is_unknown, require_matching, Run, mark, fail, suggest_start, or_fail, check, step,
}

module _ (outside : Outside) (receipt : RequestReceipt) where
  -- The end of `run_locked`.
  unfoldable pub finish : String → RuntimeStatus → Run String
  finish container_id result = do
    perform (complete receipt.operation_id container_id result) λ h.
        map_err LifecycleOperationError.store
          (outside.complete receipt.operation_id container_id result h)
    pure container_id

  -- Start from the point where the container is known and stopped.
  unfoldable pub start_container : ℕ → String → Run String
  start_container sequence container_id = do
    step outside receipt sequence Stage.start container_id (outside.change Stage.start container_id)
    check outside receipt "ready" (wait_ready container_id) (outside.wait_ready container_id)
    finish container_id RuntimeStatus.ready

  unfoldable pub run_start : String → LifecycleObservation → Run String
  run_start saved current = do
    check outside receipt "storage" verify_storage outside.verify_storage
    check outside receipt "artifact" verify_artifact outside.verify_artifact
    if is_absent current.status
        then (do
          container_id ← step outside receipt 1 Stage.recreate receipt.instance_id outside.recreate
          start_container 2 container_id)
        else (do
          or_fail outside receipt "inspect" (require_matching current)
          if not (is_stopped current.status)
              then fail outside receipt "inspect" LifecycleEffectError.rejected
              else start_container 1 saved)

  -- The observation after the stop.
  unfoldable pub confirm_stopped : String → LifecycleObservation → Run String
  confirm_stopped container_id after =
      if not (is_stopped after.status || is_absent after.status)
        || (not (is_absent after.status) && not after.owned)
      then fail outside receipt "observe" LifecycleEffectError.outcome_unknown
      else finish container_id after.status

  unfoldable pub run_stop : String → LifecycleObservation → Run String
  run_stop saved current =
      if is_absent current.status
      then finish saved RuntimeStatus.absent
      else if not current.owned && not (is_unknown current.status)
      then fail outside receipt "inspect" LifecycleEffectError.rejected
      else if is_unknown current.status
      then fail outside receipt "inspect" LifecycleEffectError.outcome_unknown
      else (do
        step outside receipt 1 Stage.stop saved (outside.change Stage.stop saved)
        after ← perform (observe saved) λ h. ok (outside.observe saved h)
        confirm_stopped saved after)

  unfoldable pub run_restart : String → LifecycleObservation → Run String
  run_restart saved current =
      if is_absent current.status then suggest_start outside receipt else (do
        or_fail outside receipt "inspect" (require_matching current)
        check outside receipt "artifact" verify_artifact outside.verify_artifact
        step outside receipt 1 Stage.restart saved (outside.change Stage.restart saved)
        check outside receipt "ready" (wait_ready saved) (outside.wait_ready saved)
        finish saved RuntimeStatus.ready)

  -- `match kind`; the other kinds are unreachable, since both entrances refuse them.
  unfoldable pub dispatch : OperationKind → String → LifecycleObservation → Run String
  dispatch OperationKind.start = run_start
  dispatch OperationKind.stop = run_stop
  dispatch OperationKind.restart = run_restart
  dispatch _ = λ _ _ h. (err (LifecycleOperationError.store invalid_input), h)

  unfoldable pub run_locked : OperationKind → Run String
  run_locked kind = do
    saved ←
        perform (snapshot receipt kind)
          λ h. map_err LifecycleOperationError.store (outside.snapshot receipt kind h)
    mark outside receipt.operation_id OperationStatus.executing "inspect"
    current ← perform (observe saved.container_id) λ h. ok (outside.observe saved.container_id h)
    dispatch kind saved.container_id current

  abbrev is_lifecycle : OperationKind → Bool
  is_lifecycle OperationKind.start = true
  is_lifecycle OperationKind.stop = true
  is_lifecycle OperationKind.restart = true
  is_lifecycle _ = false

  -- `.map_err(LifecycleOperationError::Runner)?`
  unfoldable pub flatten :
      List Call
      → Result (Result String LifecycleOperationError × List Call) RunnerError × Active
      → Result String LifecycleOperationError × Active × List Call
  flatten h (ok (result, h'), active) = (result, active, h')
  flatten h (err e, active) = (err (LifecycleOperationError.runner e), active, h)

  -- What other tasks do to the gate meanwhile is the argument `others`.
  unfoldable pub run :
      OperationKind
      → (Active → Active)
      → Active
      → List Call
      → Result String LifecycleOperationError × Active × List Call
  unfolding flatten run_exclusive
  run kind others active h =
      if not (is_lifecycle kind)
      then (err (LifecycleOperationError.store invalid_input), active, h)
      else flatten h (run_exclusive receipt.instance_id (λ a. (run_locked kind h, others a)) active)

  unfoldable pub run_with_reservation :
      OperationKind
      → Bool
      → (Active → Active)
      → Active
      → List Call
      → Result String LifecycleOperationError × Active × List Call
  unfolding flatten run_reserved
  run_with_reservation kind same_runner others active h =
      if not (is_lifecycle kind)
      then (err (LifecycleOperationError.store invalid_input), active, h)
      else flatten h
          (run_reserved same_runner receipt.instance_id (λ a. (run_locked kind h, others a)) active)
