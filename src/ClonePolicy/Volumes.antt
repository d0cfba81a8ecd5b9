-- ===== src/ClonePolicy/Volumes.antt =====
-- crates/domain/src/clone_policy.rs: the names of volumes.
use compose_nest.Common.{◌<◌, ◌^◌, ◌≡◌, ◌∷◌, sym, ◌∙◌}
use compose_nest.Identity.{InstanceId, SlotId, compose_project_name}
use compose_nest.Identity.Names.{
  append_injective, length-compose_project_name, compose_project_name_injective,
}
use compose_nest.ClonePolicy.{named_volume}

-- The name of a volume determines its instance and its slot, for 128-bit instance IDs.
pub named_volume_injective :
    (a b : InstanceId) (s t : SlotId)
    → a.value < 16 ^ 32
    → b.value < 16 ^ 32
    → named_volume a s ≡ named_volume b t
    → (a ≡ b) × (s ≡ t)
unfolding named_volume
named_volume_injective a b s t p q h =
    let (projects, rest) =
      append_injective (compose_project_name a) (compose_project_name b) (b'-' ∷ s.bytes)
        (b'-' ∷ t.bytes) (length-compose_project_name a ∙ sym (length-compose_project_name b)) h in
    (compose_project_name_injective a b p q projects, cc)
