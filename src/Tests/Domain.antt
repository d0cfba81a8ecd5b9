-- ===== src/Tests/Domain.antt =====
-- crates/domain/src on concrete values.
use compose_nest.Common.{
  ◌≤◌, ◌≡◌, ◌≢◌, ◌↔◌, refl, true, false, List, [], ◌∷◌, ok, err, arith, length, any, u32_max,
  u64_max,
}
use compose_nest.Identity.{
  DisplayName, InstanceId, SlotId, is_control, trim, parse_name, compose_project_name,
}
use compose_nest.Identity.Names.{
  IsNormalization, parse_name-IsCanonical, compose_project_name_injective,
}
use compose_nest.Instance.{
  Lifecycle, retiring, retired, InstanceError, stale_revision, Instance, new_instance, rename,
  begin_retirement, StorageMethod, SpecRevision, PendingChange, new_pending,
}
use compose_nest.Instance.Revision
use compose_nest.Instance.Revision.{
  Change, name_it, begin, finish, apply, after, rank, change_effect, run-new_instance,
  retired_needs_absence, stale_after_change,
}
use compose_nest.Instance.Operation.{
  OperationKind, OperationStatus, Operation, new_operation, is_unresolved,
}
use compose_nest.Instance.Operation.Progress
use compose_nest.Instance.Operation.Progress.{
  started, run-new_operation, resolved_iff, can_be_resolved,
}
use compose_nest.ClonePolicy.Volumes.{named_volume_injective}

-- A normalization that has nothing to do.
plain : IsNormalization (λ s. s)
plain = record { stable = λ s. refl; keeps_control_free = λ s h. h; keeps_trimmed = λ s h. h }

abbrev spelled : DisplayName
spelled = record { text = b'd' ∷ b'b' ∷ [] }

parses : parse_name (λ s. s) (b' ' ∷ b'd' ∷ b'b' ∷ b' ' ∷ []) ≡ ok spelled
unfolding parse_name is_control trim compose_nest.Identity.is_whitespace
parses = refl

parse_name-IsCanonical_example :
    (spelled.text ≡ trim (b' ' ∷ b'd' ∷ b'b' ∷ b' ' ∷ []))
    × (any is_control spelled.text ≡ false)
    × (1 ≤ length spelled.text)
    × (length spelled.text ≤ 100)
    × (parse_name (λ s. s) spelled.text ≡ ok spelled)
parse_name-IsCanonical_example =
    parse_name-IsCanonical plain (b' ' ∷ b'd' ∷ b'b' ∷ b' ' ∷ []) spelled parses

abbrev first : InstanceId
first = record { value = 0xabc }

compose_project_name_injective_example : first ≡ first
compose_project_name_injective_example =
    compose_project_name_injective first first (omega arith) (omega arith) refl

abbrev slot : SlotId
slot = record { bytes = b'd' ∷ [] }

named_volume_injective_example : (first ≡ first) × (slot ≡ slot)
named_volume_injective_example =
    named_volume_injective first first slot slot (omega arith) (omega arith) refl

abbrev renamed : DisplayName
renamed = record { text = b'w' ∷ [] }

abbrev managed_one : Instance
managed_one = record {
  id = first;
  name = spelled;
  target_id = "local";
  revision = 4;
  lifecycle = Lifecycle.managed;
}

renaming_counts : (after managed_one (begin 4)).revision ≢ 4
unfolding begin_retirement
renaming_counts = λ e. omega arith

stale_after_change_example :
    let t = Revision.run (after managed_one (begin 4)) (name_it renamed 5 ∷ []) in
    (rename spelled 4 t ≡ (err stale_revision, t))
    × (begin_retirement 4 t ≡ (err stale_revision, t))
stale_after_change_example =
    stale_after_change managed_one (begin 4) (name_it renamed 5 ∷ []) spelled renaming_counts

run-new_instance_example :
    let s = Revision.run (new_instance first spelled "local") (begin 1 ∷ []) in
    let t = Revision.run s (finish true ∷ []) in
    (t.id ≡ first)
    × (t.target_id ≡ "local")
    × (s.revision ≤ t.revision)
    × (t.revision ≤ u64_max)
    × (rank s.lifecycle ≤ rank t.lifecycle)
run-new_instance_example = run-new_instance first spelled "local" (begin 1 ∷ []) (finish true ∷ [])

abbrev gone : Instance
gone = record managed_one { lifecycle = retired }

not_retired : managed_one.lifecycle ≢ retired
not_retired = λ e. cc

retires : (Revision.run managed_one (begin 4 ∷ finish true ∷ [])).lifecycle ≡ retired
unfolding begin_retirement compose_nest.Instance.finish_retirement
retires = refl

abbrev way : List OperationStatus
way = OperationStatus.executing ∷ OperationStatus.failed ∷ OperationStatus.executing ∷ []

run-new_operation_example :
    let new_one = new_operation 7 first OperationKind.start in
    let op = Progress.run new_one way in
    (op.id ≡ 7)
    × (op.instance_id ≡ first)
    × (op.kind ≡ OperationKind.start)
    × (op.attempt ≡ started new_one way)
    × (op.attempt ≤ u32_max)
    × ((op.status ≢ OperationStatus.accepted) ↔ (1 ≤ op.attempt))
run-new_operation_example = run-new_operation 7 first OperationKind.start way

abbrev waiting : Operation
waiting = record {
  id = 7;
  instance_id = first;
  kind = OperationKind.start;
  status = OperationStatus.awaiting_decision;
  attempt = 1;
}

can_be_resolved_example :
    (ns : List OperationStatus) × (is_unresolved (Progress.run waiting ns).status ≡ false)
can_be_resolved_example = can_be_resolved waiting (omega arith)
