-- ===== src/Instance.antt =====
-- crates/domain/src/instance.rs: the axes of an instance's identity, configuration and observed
-- state, and the progress of one operation. A method on `&mut self` returns its result with the
-- new value, so what an error leaves behind is part of the model.
pub mod Operation
pub mod Revision
use compose_nest.Common.{
  ℕ, ◌+◌, String, Bool, true, false, not, Option, none, some, Result, ok, err, ◌==◌, if◌then◌else◌,
  checked_add, u64_max, Text, leb,
}
use compose_nest.Identity.{DisplayName, InstanceId, name_eq, compose_project_name}

pub data Lifecycle : Type 0 where
  managed retiring retired : Lifecycle

pub data InstanceError : Type 0 where
  stale_revision invalid_lifecycle unverified_absence revision_exhausted : InstanceError

pub record Instance : Type 0 where
  pub id : InstanceId
  pub name : DisplayName
  pub target_id : String
  pub revision : ℕ  -- u64
  pub lifecycle : Lifecycle

unfoldable pub new_instance : InstanceId → DisplayName → String → Instance
new_instance id name target_id = record {
  id = id;
  name = name;
  target_id = target_id;
  revision = 1;
  lifecycle = managed;
}

unfoldable pub project_name : Instance → Text
project_name self = compose_project_name self.id

-- `self.lifecycle != Lifecycle::Managed`, and so on.
abbrev pub lifecycle_eq : Lifecycle → Lifecycle → Bool
lifecycle_eq managed managed = true
lifecycle_eq retiring retiring = true
lifecycle_eq retired retired = true
lifecycle_eq _ _ = false

unfoldable pub check_revision : Instance → ℕ → Result (Unit {0}) InstanceError
check_revision self expected = if self.revision == expected then ok tt else err stale_revision

abbrev pub Update : Type 0
Update = Instance → Result (Unit {0}) InstanceError × Instance

-- The end of each method: `self.revision.checked_add(1)`, then the assignments.
unfoldable pub advance : (ℕ → Instance) → Instance → Result (Unit {0}) InstanceError × Instance
advance assign self = elim (checked_add u64_max self.revision 1) [
  | none ↦ (err revision_exhausted, self)
  | some revision ↦ (ok tt, assign revision)
]

unfoldable pub rename : DisplayName → ℕ → Update
unfolding check_revision advance
rename name expected self = elim (check_revision self expected) [
  | err e ↦ (err e, self)
  | ok _ ↦
      if not (lifecycle_eq self.lifecycle managed)
      then (err invalid_lifecycle, self)
      else if name_eq self.name name
      then (ok tt, self)
      else advance (λ revision. record self { revision = revision; name = name }) self
]

unfoldable pub begin_retirement : ℕ → Update
unfolding check_revision advance
begin_retirement expected self = elim (check_revision self expected) [
  | err e ↦ (err e, self)
  | ok _ ↦
      if not (lifecycle_eq self.lifecycle managed)
      then (err invalid_lifecycle, self)
      else advance (λ revision. record self { revision = revision; lifecycle = retiring }) self
]

unfoldable pub finish_retirement : Bool → Update
unfolding advance
finish_retirement absence_verified self =
    if not (lifecycle_eq self.lifecycle retiring)
    then (err invalid_lifecycle, self)
    else if not absence_verified
    then (err unverified_absence, self)
    else advance (λ revision. record self { revision = revision; lifecycle = retired }) self

pub data StorageMethod : Type 0 where
  bind_mount named_volume : StorageMethod

abbrev pub storage_method_eq : StorageMethod → StorageMethod → Bool
storage_method_eq bind_mount bind_mount = true
storage_method_eq named_volume named_volume = true
storage_method_eq _ _ = false

pub record SpecRevision : Type 0 where
  pub number : ℕ  -- u64
  pub storage_method : StorageMethod

pub record PendingChange : Type 0 where
  pub previous : SpecRevision
  pub candidate : SpecRevision

pub data SpecError : Type 0 where
  invalid_revision storage_method_changed : SpecError

-- `previous.number.checked_add(1) != Some(candidate.number)`
abbrev pub is_number : Option ℕ → ℕ → Bool
is_number none n = false
is_number (some m) n = m == n

-- `PendingChange::new`
unfoldable pub new_pending : SpecRevision → SpecRevision → Result PendingChange SpecError
new_pending previous candidate =
    if not (is_number (checked_add u64_max previous.number 1) candidate.number)
    then err invalid_revision
    else if not (storage_method_eq previous.storage_method candidate.storage_method)
    then err storage_method_changed
    else ok (record { previous = previous; candidate = candidate })

pub data StorageOwnership : Type 0 where
  assigned retained : StorageOwnership

pub data StoragePresence : Type 0 where
  not_materialized present missing unverified : StoragePresence

pub data Initialization : Type 0 where
  not_attempted may_have_initialized ready_observed : Initialization

pub data ObservationFailure : Type 0 where
  not_yet_observed unreachable permission_denied inconclusive : ObservationFailure

pub data RuntimeStatus : Type 0 where
  unknown : ObservationFailure → RuntimeStatus
  absent stopped preparing ready unhealthy : RuntimeStatus

pub record RuntimeObservation : Type 0 where
  pub observed_at_unix_seconds : ℕ
  pub status : RuntimeStatus
