-- ===== src/Instance/Operation.antt =====
-- crates/domain/src/instance.rs: one durable operation intent and its permitted progress.
pub mod Progress
use compose_nest.Common.{
  ℕ, ◌+◌, Bool, true, false, not, ◌||◌, Option, none, some, Result, ok, err, ◌==◌, if◌then◌else◌,
  checked_add, u32_max,
}
use compose_nest.Identity.{InstanceId}

pub data OperationKind : Type 0 where
  create clone start stop restart rename edit_port delete recover : OperationKind

pub data OperationStatus : Type 0 where
  accepted executing succeeded awaiting_decision failed outcome_unknown abandoned : OperationStatus

unfoldable pub is_unresolved : OperationStatus → Bool
is_unresolved succeeded = false
is_unresolved abandoned = false
is_unresolved _ = true

pub data OperationError : Type 0 where
  invalid_transition attempt_exhausted : OperationError

pub record Operation : Type 0 where
  pub id : ℕ  -- u128
  pub instance_id : InstanceId
  pub kind : OperationKind
  pub status : OperationStatus
  pub attempt : ℕ  -- u32

unfoldable pub new_operation : ℕ → InstanceId → OperationKind → Operation
new_operation id instance_id kind = record {
  id = id;
  instance_id = instance_id;
  kind = kind;
  status = accepted;
  attempt = 0;
}

-- The `matches!` of `transition`.
unfoldable pub allowed : OperationStatus → OperationStatus → Bool
allowed accepted executing = true
allowed executing succeeded = true
allowed executing awaiting_decision = true
allowed executing failed = true
allowed executing outcome_unknown = true
allowed outcome_unknown succeeded = true
allowed outcome_unknown failed = true
allowed outcome_unknown awaiting_decision = true
allowed failed executing = true
allowed failed abandoned = true
allowed awaiting_decision executing = true
allowed awaiting_decision abandoned = true
allowed _ _ = false

abbrev pub is_executing : OperationStatus → Bool
is_executing executing = true
is_executing _ = false

unfoldable pub transition :
    OperationStatus → Operation → Result (Unit {0}) OperationError × Operation
unfolding allowed
transition next self =
    if not (allowed self.status next)
    then (err invalid_transition, self)
    else if is_executing next
    then (elim (checked_add u32_max self.attempt 1) [
      | none ↦ (err attempt_exhausted, self)
      | some attempt ↦ (ok tt, record self { attempt = attempt; status = next })
    ])
    else (ok tt, record self { status = next })
