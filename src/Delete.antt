-- ===== src/Delete.antt =====
-- crates/application/src/delete_operation.rs: data-preserving deletion of an instance. The state,
-- the journal and the runtime stages answer from outside.
pub mod Heeding
pub mod Retirement
use compose_nest.Common.{
  ℕ, String, Bool, true, false, not, ◌&&◌, ◌||◌, Option, none, some, List, [], ◌∷◌, Result, ok, err,
  map_err, Exec, perform, pure, raise, attempt, ◌>>=◌, ◌>>◌, if◌then◌else◌, ◌==◌, str_eq, is_some,
}
use compose_nest.Instance.{StoragePresence}
use compose_nest.Instance.Operation.{OperationKind, OperationStatus, executing}
use compose_nest.Journal.{StoreConflict, OperationIntent, RequestReceipt}
use compose_nest.Runner.{RunnerError, Active, run_exclusive, run_reserved}
use compose_nest.Lifecycle.{LifecycleEffectError, failure_status}

pub record StorageCheck : Type 0 where
  pub slot : String
  pub presence : StoragePresence

pub data DeleteError : Type 0 where
  rejected outcome_unknown : DeleteError
  store : StoreConflict → DeleteError
  runner : RunnerError → DeleteError

pub data Call : Type 0 where
  accept : OperationIntent → RequestReceipt → Call
  delete_pending : RequestReceipt → Call
  set_status : String → OperationStatus → String → Call
  remove_runtime : RequestReceipt → Call
  inspect_storage runtime_absent : Call
  complete_delete : RequestReceipt → List StorageCheck → Call

-- `DeleteState`, `OperationJournal` and `DeleteStages`, as far as this module uses them.
pub record Outside : Type 0 where
  pub accept : OperationIntent → RequestReceipt → List Call → Result RequestReceipt StoreConflict
  pub delete_pending : RequestReceipt → List Call → Result Bool StoreConflict
  pub set_status : String → OperationStatus → String → List Call → Result (Unit {0}) StoreConflict
  pub remove_runtime : RequestReceipt → List Call → Result (Unit {0}) LifecycleEffectError
  pub inspect_storage : List Call → Result (List StorageCheck) LifecycleEffectError
  pub runtime_absent : List Call → Result (Unit {0}) LifecycleEffectError
  pub complete_delete :
      RequestReceipt → List StorageCheck → List Call → Result (Unit {0}) StoreConflict

abbrev pub is_delete : OperationKind → Bool
is_delete OperationKind.delete = true
is_delete _ = false

-- The first test of `run_locked`.
unfoldable pub is_refused : OperationIntent → RequestReceipt → Bool → Bool
is_refused intent receipt retain_data_confirmed =
    not retain_data_confirmed
    || not (is_delete intent.kind)
    || is_some receipt.plan_id
    || not (str_eq intent.instance_id receipt.instance_id)
    || not (str_eq intent.id receipt.operation_id)
    || not (intent.expected_revision == receipt.confirmed_revision)
    || is_some intent.old_spec_revision
    || is_some intent.new_spec_revision

unfoldable pub failure_error : LifecycleEffectError → DeleteError
failure_error LifecycleEffectError.rejected = rejected
failure_error LifecycleEffectError.outcome_unknown = outcome_unknown

module _ (outside : Outside) where
  -- The `async` block, whose errors are those of the stages.
  unfoldable pub run_stages : RequestReceipt → Exec Call LifecycleEffectError (List StorageCheck)
  run_stages accepted = do
    perform (remove_runtime accepted) (outside.remove_runtime accepted)
    storage ← perform inspect_storage outside.inspect_storage
    perform runtime_absent outside.runtime_absent
    pure storage

  -- `match result`, and the completion.
  unfoldable pub conclude :
      RequestReceipt
      → Result (List StorageCheck) LifecycleEffectError
      → Exec Call DeleteError RequestReceipt
  conclude accepted (ok storage) = do
    perform (complete_delete accepted storage)
        λ h. map_err store (outside.complete_delete accepted storage h)
    pure accepted
  conclude accepted (err error) = do
    perform (set_status accepted.operation_id (failure_status error) "delete_check") λ h.
        map_err store
          (outside.set_status accepted.operation_id (failure_status error) "delete_check" h)
    raise (failure_error error)

  unfoldable pub run_pending : RequestReceipt → Bool → Exec Call DeleteError RequestReceipt
  run_pending accepted false = pure accepted
  run_pending accepted true = do
    perform (set_status accepted.operation_id executing "remove_runtime")
        λ h. map_err store (outside.set_status accepted.operation_id executing "remove_runtime" h)
    attempt (run_stages accepted) λ result. conclude accepted result

  unfoldable pub run_locked :
      OperationIntent → RequestReceipt → Bool → Exec Call DeleteError RequestReceipt
  run_locked intent receipt retain_data_confirmed =
      if is_refused intent receipt retain_data_confirmed then raise rejected else (do
        accepted ←
            perform (accept intent receipt) λ h. map_err store (outside.accept intent receipt h)
        pending ←
            perform (delete_pending accepted) λ h. map_err store (outside.delete_pending accepted h)
        run_pending accepted pending)

  -- `.map_err(DeleteError::Runner)?`
  unfoldable pub flatten :
      List Call
      → Result (Result RequestReceipt DeleteError × List Call) RunnerError × Active
      → Result RequestReceipt DeleteError × Active × List Call
  flatten h (ok (result, h'), active) = (result, active, h')
  flatten h (err e, active) = (err (runner e), active, h)

  -- What other tasks do to the gate meanwhile is the argument `others`.
  unfoldable pub run :
      OperationIntent
      → RequestReceipt
      → Bool
      → (Active → Active)
      → Active
      → List Call
      → Result RequestReceipt DeleteError × Active × List Call
  unfolding flatten run_exclusive
  run intent receipt retain_data_confirmed others active h = flatten h (
      run_exclusive receipt.instance_id
        (λ a. (run_locked intent receipt retain_data_confirmed h, others a)) active)

  unfoldable pub run_with_reservation :
      OperationIntent
      → RequestReceipt
      → Bool
      → Bool
      → (Active → Active)
      → Active
      → List Call
      → Result RequestReceipt DeleteError × Active × List Call
  unfolding flatten run_reserved
  run_with_reservation intent receipt retain_data_confirmed same_runner others active h =
      flatten h (
        run_reserved same_runner receipt.instance_id
          (λ a. (run_locked intent receipt retain_data_confirmed h, others a)) active)
