-- ===== src/Lifecycle/Journaled/Kinds.antt =====
-- crates/application/src/lifecycle_operation.rs: what Start, Stop and Restart rest on.
use compose_nest.Common.{Bool, not, ◌&&◌, ◌||◌}
use compose_nest.Journal.{RequestReceipt}
use compose_nest.Lifecycle.{LifecycleObservation, Outside, is_absent, is_stopped}

module _ (outside : Outside) (receipt : RequestReceipt) where
  abbrev is_wrong : LifecycleObservation → Bool
  is_wrong after =
      not (is_stopped after.status || is_absent after.status)
      || (not (is_absent after.status) && not after.owned)
