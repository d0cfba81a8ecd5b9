-- ===== src/Recovery/Safety.antt =====
-- crates/application/src/operation_recovery.rs: which evidence each decision rests on.
use compose_nest.Common.{
  ℕ, ◌≡◌, ◌≢◌, ◌⊎◌, refl, String, true, false, List, [], ◌∷◌, Result, ok, arith, any, all, is_some,
  All, after_perform, after_block, after_pure, perform, inl, inr, Bool-cases,
}
use compose_nest.Instance.Operation.{OperationKind, OperationStatus}
use compose_nest.Journal.{StoreConflict, StepRecord}
use compose_nest.Recovery.{
  RecoverableOperation, CurrentRuntime, RecoveryEvidence, complete, retry_allowed, hold, is_delete,
  makes_ready, is_ready_command, is_stop_command, classify_recovery, Call, recoverable, inspect,
  retry, abandon_verified, Outside, is_safe, is_open_status, is_conclusive, retry_if,
  RecoveryDecision, retry_operation, abandon_inspected, abandon_loaded, abandon_operation,
}

-- What every decision but Hold rests on.
pub record IsGrounded (operation : RecoverableOperation) (evidence : RecoveryEvidence)
    : Type 0 where
  pub exited : evidence.previous_cli_exited ≡ true
  pub target : evidence.target_matches ≡ true
  pub docker : evidence.docker_verified ≡ true
  pub data_checked :
      (operation.kind ≡ OperationKind.stop)
      ⊎ ((evidence.artifact_matches ≡ true) × (evidence.storage_verified ≡ true))

-- Completing or retrying an interrupted operation rests on verified evidence: the earlier command
-- has exited, the target and the Docker state are verified and, except for Stop, the artifact and
-- the storage are. Completion also needs a runtime in the operation's own final state, and a
-- recorded step of its own that may have caused it; a retry needs a failed Start whose container is
-- stopped and whose recorded steps all have an outcome.
pub classify_sound :
    (operation : RecoverableOperation) (evidence : RecoveryEvidence)
    → (classify_recovery operation evidence ≢ hold → IsGrounded operation evidence)
      × (classify_recovery operation evidence ≡ complete
          → ((evidence.runtime ≡ CurrentRuntime.ready)
              × (makes_ready operation.kind ≡ true)
              × (any (λ (s : StepRecord). is_ready_command s.command_kind) operation.steps ≡ true))
            ⊎ ((operation.kind ≡ OperationKind.stop)
                × ((evidence.runtime ≡ CurrentRuntime.stopped)
                    ⊎ (evidence.runtime ≡ CurrentRuntime.absent))
                × (any (λ (s : StepRecord). is_stop_command s.command_kind) operation.steps
                    ≡ true)))
      × (classify_recovery operation evidence ≡ retry_allowed
          → (operation.kind ≡ OperationKind.start)
            × (operation.status ≡ OperationStatus.failed)
            × (evidence.runtime ≡ CurrentRuntime.stopped)
            × (operation.steps ≢ [])
            × (all (λ (s : StepRecord). is_some s.outcome) operation.steps ≡ true))
unfolding classify_recovery
classify_sound operation evidence = (λ h. ground arith, λ h. ground arith, λ h. ground arith)

module _ (outside : Outside) where
  -- The evidence that a probe collects on an operation just loaded.
  abbrev pub evidence_on : String → RecoverableOperation → RecoveryEvidence
  evidence_on id op = outside.inspect op (inspect op ∷ recoverable id ∷ [])

  abbrev pub loaded : String → Result RecoverableOperation StoreConflict
  loaded id = outside.recoverable id (recoverable id ∷ [])

  -- What a call of the journal that changes an operation rests on.
  abbrev pub RetryRests : String → Call → Type 0
  RetryRests id (retry i phase) =
      (op : RecoverableOperation) × (loaded id ≡ ok op)
      × (i ≡ id)
      × (phase ≡ op.phase)
      × (op.kind ≡ OperationKind.start)
      × (op.status ≡ OperationStatus.failed)
      × IsGrounded op (evidence_on id op)
      × ((evidence_on id op).runtime ≡ CurrentRuntime.stopped)
  RetryRests id (abandon_verified v) = ⊥
  RetryRests id _ = Unit

  retry_if-rests :
      (id : String) (op : RecoverableOperation) (d : RecoveryDecision)
      → loaded id ≡ ok op
      → classify_recovery op (evidence_on id op) ≡ d
      → All (RetryRests id) (retry_if outside d id op.phase (inspect op ∷ recoverable id ∷ [])).1
  unfolding retry_if perform
  retry_if-rests id op retry_allowed x d =
      let (grounded, completed, retried) = classify_sound op (evidence_on id op) in
      let (kind, status, stopped, steps, outcomes) = retried d in
      ((op, x, refl, refl, kind, status, grounded (λ h. cc), stopped), (tt, (tt, tt)))
  retry_if-rests id op _ x d = (tt, (tt, tt))

  -- A new attempt is asked of the journal only for the operation that was requested, with the phase
  -- that it is recorded in, and only if it is a failed Start that fresh, verified evidence shows as
  -- stopped; a retry never abandons.
  pub retry_needs_evidence : (id : String) → All (RetryRests id) (retry_operation outside id []).1
  unfolding retry_operation
  retry_needs_evidence id =
      let Q : Result ℕ StoreConflict × List Call → Type 0 = λ r. All (RetryRests id) r.1 in
      after_block Q _ _ _ [] (
        after_perform Q _ _ _ [] (λ e x. (tt, tt))
          λ op x. after_block Q _ _ _ (recoverable id ∷ []) (
            after_perform Q _ _ _ (recoverable id ∷ []) (λ e y. (tt, (tt, tt)))
              λ evidence y.
                after_pure Q _ _ _ (retry_if-rests id op (classify_recovery op evidence) x (cc))))

  abbrev pub AbandonRests : String → Call → Type 0
  AbandonRests id (abandon_verified v) =
      (op : RecoverableOperation) × (loaded id ≡ ok op)
      × (v.operation_id ≡ op.id)
      × (v.attempt ≡ op.attempt)
      × (op.kind ≢ OperationKind.delete)
      × (is_open_status op.status ≡ true)
      × IsGrounded op (evidence_on id op)
      × ((evidence_on id op).artifact_matches ≡ true)
      × ((evidence_on id op).storage_verified ≡ true)
      × ((evidence_on id op).runtime ≡ CurrentRuntime.absent)
      × (all (λ (s : StepRecord). is_conclusive s.outcome) op.steps ≡ true)
  AbandonRests id (retry i phase) = ⊥
  AbandonRests id _ = Unit

  is_safe-rests :
      (op : RecoverableOperation) (e : RecoveryEvidence)
      → is_safe op e ≡ true
      → (is_open_status op.status ≡ true)
        × IsGrounded op e
        × (e.artifact_matches ≡ true)
        × (e.storage_verified ≡ true)
        × (e.runtime ≡ CurrentRuntime.absent)
        × (all (λ (s : StepRecord). is_conclusive s.outcome) op.steps ≡ true)
  unfolding is_safe
  is_safe-rests op e h = ground arith

  abandon_inspected-rests :
      (id : String) (op : RecoverableOperation)
      → loaded id ≡ ok op
      → op.kind ≢ OperationKind.delete
      → All
          (AbandonRests id)
          (abandon_inspected outside op (evidence_on id op) (inspect op ∷ recoverable id ∷ [])).1
  unfolding abandon_inspected perform
  abandon_inspected-rests id op x k = elim (Bool-cases (is_safe op (evidence_on id op))) [
    | inl safe ↦
        let (status, grounded, artifact, storage, absent, steps) =
          is_safe-rests op (evidence_on id op) safe in
        rw safe (
          (op, x, refl, refl, k, status, grounded, artifact, storage, absent, steps),
          (tt, (tt, tt)),
        )
    | inr unsafe ↦ rw unsafe (tt, (tt, tt))
  ]

  not_delete : (k : OperationKind) → is_delete k ≡ false → k ≢ OperationKind.delete
  not_delete k h = ground arith

  abandon_loaded-rests :
      (id : String) (op : RecoverableOperation)
      → loaded id ≡ ok op
      → All (AbandonRests id) (abandon_loaded outside op (recoverable id ∷ [])).1
  unfolding abandon_loaded
  abandon_loaded-rests id op x = elim (Bool-cases (is_delete op.kind)) [
    | inl d ↦ rw d (tt, tt)
    | inr k ↦
        let Q : Result (Unit {0}) StoreConflict × List Call → Type 0 =
          λ r. All (AbandonRests id) r.1 in
        rw k (
          after_perform Q _ _ _ (recoverable id ∷ []) (λ e y. (tt, (tt, tt)))
            λ evidence y.
              let same : evidence ≡ evidence_on id op = cc in
              rw same (abandon_inspected-rests id op x (not_delete op.kind k)))
  ]

  -- An operation is reported as abandoned to the journal only if it is not a Delete, is unresolved
  -- and not executing, fresh evidence verifies everything and shows the runtime as absent, and
  -- every step has a conclusive outcome; the report names that operation and its attempt.
  pub abandon_needs_evidence :
      (id : String) → All (AbandonRests id) (abandon_operation outside id []).1
  unfolding abandon_operation
  abandon_needs_evidence id =
      let Q : Result (Unit {0}) StoreConflict × List Call → Type 0 =
        λ r. All (AbandonRests id) r.1 in
      after_perform Q _ _ _ [] (λ e x. (tt, tt)) λ op x. abandon_loaded-rests id op x
