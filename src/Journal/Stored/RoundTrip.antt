-- ===== src/Journal/Stored/RoundTrip.antt =====
-- Every spelling is read back as what was written, and nothing else is read as it.
use mathlib.Core.Option
use compose_nest.Common.{
  String, ◌≡◌, refl, ◌↔◌, Option, if◌then◌else◌, str_eq, none, some, arith, eq_iff,
}
use compose_nest.Instance.Operation.{
  OperationKind, create, clone, start, stop, restart, rename, edit_port, delete, recover,
  OperationStatus, accepted, executing, failed, awaiting_decision, outcome_unknown, succeeded,
  abandoned,
}
use compose_nest.Journal.{
  StepCommand, generate_artifact, resolve_image, create_bind, create_volume, compose_create,
  compose_start, compose_stop, compose_restart, remove_container, remove_network, observe,
  ExpectedResult, artifact_ready, image_resolved, bind_created, volume_created, container_created,
  container_running, container_stopped, container_absent, state_observed, StepOutcome, command_text,
  expected_text, outcome_text,
}
use compose_nest.Journal.Stored.{
  kind_name, operation_kind, status_name, operation_status, step_command, expected_result,
  step_outcome,
}

-- One test of a reader, and its end.
module _ {A : Type 0} (text : A → String) (s : String) (d : A) where
  peel :
      (c : A) (rest : Option A)
      → (rest ≡ some d → text d ≡ s)
      → (if str_eq s (text c) then some c else rest) ≡ some d
      → text d ≡ s
  peel c rest k h = ground (arith, eq_iff s (text c))

  nothing : none ≡ some d → text d ≡ s
  nothing h = cc

operation_kind-kind_name : (c : OperationKind) → operation_kind (kind_name c) ≡ some c
unfolding operation_kind kind_name
operation_kind-kind_name create = refl
operation_kind-kind_name clone = refl
operation_kind-kind_name start = refl
operation_kind-kind_name stop = refl
operation_kind-kind_name restart = refl
operation_kind-kind_name rename = refl
operation_kind-kind_name edit_port = refl
operation_kind-kind_name delete = refl
operation_kind-kind_name recover = refl

operation_kind-eq-some :
    (s : String) (c : OperationKind) → operation_kind s ≡ some c → kind_name c ≡ s
unfolding operation_kind kind_name
operation_kind-eq-some s d h =
    peel kind_name s d create _
      (peel kind_name s d clone _ (
        peel kind_name s d start _ (
          peel kind_name s d stop _ (
            peel kind_name s d restart _ (
              peel kind_name s d rename _ (
                peel kind_name s d edit_port _ (
                  peel kind_name s d delete _
                    (peel kind_name s d recover _ (nothing kind_name s d)))))))))
      h

operation_kind_iff :
    (s : String) (c : OperationKind) → (operation_kind s ≡ some c) ↔ (kind_name c ≡ s)
operation_kind_iff s c = (operation_kind-eq-some s c, λ e. rw (← e) (operation_kind-kind_name c))

operation_status-status_name : (c : OperationStatus) → operation_status (status_name c) ≡ some c
unfolding operation_status status_name
operation_status-status_name accepted = refl
operation_status-status_name executing = refl
operation_status-status_name failed = refl
operation_status-status_name awaiting_decision = refl
operation_status-status_name outcome_unknown = refl
operation_status-status_name succeeded = refl
operation_status-status_name abandoned = refl

operation_status-eq-some :
    (s : String) (c : OperationStatus) → operation_status s ≡ some c → status_name c ≡ s
unfolding operation_status status_name
operation_status-eq-some s d h =
    peel status_name s d accepted _
      (peel status_name s d executing _ (
        peel status_name s d failed _ (
          peel status_name s d awaiting_decision _ (
            peel status_name s d outcome_unknown _ (
              peel status_name s d succeeded _
                (peel status_name s d abandoned _ (nothing status_name s d)))))))
      h

operation_status_iff :
    (s : String) (c : OperationStatus) → (operation_status s ≡ some c) ↔ (status_name c ≡ s)
operation_status_iff s c =
    (operation_status-eq-some s c, λ e. rw (← e) (operation_status-status_name c))

step_command-command_text : (c : StepCommand) → step_command (command_text c) ≡ some c
unfolding step_command command_text
step_command-command_text generate_artifact = refl
step_command-command_text resolve_image = refl
step_command-command_text create_bind = refl
step_command-command_text create_volume = refl
step_command-command_text compose_create = refl
step_command-command_text compose_start = refl
step_command-command_text compose_stop = refl
step_command-command_text compose_restart = refl
step_command-command_text remove_container = refl
step_command-command_text remove_network = refl
step_command-command_text observe = refl

step_command-eq-some : (s : String) (c : StepCommand) → step_command s ≡ some c → command_text c ≡ s
unfolding step_command command_text
step_command-eq-some s d h =
    peel command_text s d generate_artifact _
      (peel command_text s d resolve_image _ (
        peel command_text s d create_bind _ (
          peel command_text s d create_volume _ (
            peel command_text s d compose_create _ (
              peel command_text s d compose_start _ (
                peel command_text s d compose_stop _ (
                  peel command_text s d compose_restart _ (
                    peel command_text s d remove_container _ (
                      peel command_text s d remove_network _
                        (peel command_text s d observe _ (nothing command_text s d)))))))))))
      h

step_command_iff : (s : String) (c : StepCommand) → (step_command s ≡ some c) ↔ (command_text c ≡ s)
step_command_iff s c = (step_command-eq-some s c, λ e. rw (← e) (step_command-command_text c))

expected_result-expected_text : (c : ExpectedResult) → expected_result (expected_text c) ≡ some c
unfolding expected_result expected_text
expected_result-expected_text artifact_ready = refl
expected_result-expected_text image_resolved = refl
expected_result-expected_text bind_created = refl
expected_result-expected_text volume_created = refl
expected_result-expected_text container_created = refl
expected_result-expected_text container_running = refl
expected_result-expected_text container_stopped = refl
expected_result-expected_text container_absent = refl
expected_result-expected_text state_observed = refl

expected_result-eq-some :
    (s : String) (c : ExpectedResult) → expected_result s ≡ some c → expected_text c ≡ s
unfolding expected_result expected_text
expected_result-eq-some s d h =
    peel expected_text s d artifact_ready _
      (peel expected_text s d image_resolved _ (
        peel expected_text s d bind_created _ (
          peel expected_text s d volume_created _ (
            peel expected_text s d container_created _ (
              peel expected_text s d container_running _ (
                peel expected_text s d container_stopped _ (
                  peel expected_text s d container_absent _
                    (peel expected_text s d state_observed _ (nothing expected_text s d)))))))))
      h

expected_result_iff :
    (s : String) (c : ExpectedResult) → (expected_result s ≡ some c) ↔ (expected_text c ≡ s)
expected_result_iff s c =
    (expected_result-eq-some s c, λ e. rw (← e) (expected_result-expected_text c))

step_outcome-text : (o : StepOutcome) → step_outcome (some (outcome_text o)) ≡ some (some o)
unfolding step_outcome outcome_text
step_outcome-text StepOutcome.succeeded = refl
step_outcome-text StepOutcome.failed = refl
step_outcome-text StepOutcome.unknown = refl

step_outcome-eq-some :
    (s : Option String) (o : Option StepOutcome)
    → step_outcome s ≡ some o
    → Option.map outcome_text o ≡ s
unfolding step_outcome outcome_text
step_outcome-eq-some none none h = refl
step_outcome-eq-some none (some o) h = cc
step_outcome-eq-some (some s) o h =
    ground (arith, eq_iff s "succeeded", eq_iff s "failed", eq_iff s "unknown")

step_outcome-map : (o : Option StepOutcome) → step_outcome (Option.map outcome_text o) ≡ some o
unfolding step_outcome
step_outcome-map none = refl
step_outcome-map (some o) = step_outcome-text o

-- Reading a stored kind, status, command, expected result or outcome gives a value exactly when
-- the text is that value's own spelling; an outcome that is not stored is read as none.
pub stored_iff :
    ((s : String) (c : OperationKind) → (operation_kind s ≡ some c) ↔ (kind_name c ≡ s))
    × ((s : String) (c : OperationStatus) → (operation_status s ≡ some c) ↔ (status_name c ≡ s))
    × ((s : String) (c : StepCommand) → (step_command s ≡ some c) ↔ (command_text c ≡ s))
    × ((s : String) (c : ExpectedResult) → (expected_result s ≡ some c) ↔ (expected_text c ≡ s))
    × ((s : Option String) (o : Option StepOutcome)
        → (step_outcome s ≡ some o) ↔ (Option.map outcome_text o ≡ s))
stored_iff = (
  operation_kind_iff,
  operation_status_iff,
  step_command_iff,
  expected_result_iff,
  λ s o. (step_outcome-eq-some s o, λ e. rw (← e) (step_outcome-map o)),
)
