-- ===== src/Compose/Apart.antt =====
-- crates/domain/src/compose.rs: models of different instances share nothing by name.
use mathlib.Core.List.{Memᴰ}
use compose_nest.Common.{
  ◌<◌, ◌^◌, ◌≡◌, ◌≢◌, sym, ap, ◌∙◌, String, List, [], ◌∷◌, ◌++◌, ok, text_codes, Map,
}
use compose_nest.Identity.{InstanceId, compose_project_name}
use compose_nest.Identity.Names.{
  append_injective, length-compose_project_name, compose_project_name_injective,
}
use compose_nest.Template.{Value}
use compose_nest.Compose.{Storage, bind, volume, ConfirmedCompose, ComposeModel}
use compose_nest.Compose.Allocations.{Paths, volume_name}
use compose_nest.Compose.Generate.{generate}
use compose_nest.Compose.Isolation.{AreOwned, generate-IsIsolated}

along : (v : String) (xs ys : List String) → xs ≡ ys → Memᴰ v xs → Memᴰ v ys
along v xs ys e m = rw (← e) m

-- Each volume of a model is named for its instance and one of its slots.
volumes_named :
    (paths : Paths) (id : InstanceId) (storage : Map Storage) (slots : List (String × Value))
    (mounts : List (Storage × String)) (volumes seen : List String)
    → AreOwned paths id storage slots mounts volumes seen
    → (v : String) → Memᴰ v volumes
    → (slot : String) × (text_codes v ≡ volume_name id slot)
volumes_named paths id storage [] [] volumes seen none_left v m =
    let nothing : Memᴰ v [] = along v volumes [] none_left m in elim nothing [ ]
volumes_named paths id storage [] (x ∷ xs) volumes seen owned v m = absurd owned
volumes_named paths id storage (x ∷ xs) [] volumes seen owned v m = absurd owned
volumes_named paths id storage ((slot, _) ∷ slots) ((bind path, _) ∷ mounts) volumes seen
      (identity, named, rest, _, (_, _, empty), _, split, owned) v m =
    volumes_named paths id storage slots mounts rest (identity ∷ seen) owned v
      (along v volumes rest (split ∙ ap (λ n. n ++ rest) empty) m)
volumes_named paths id storage ((slot, _) ∷ slots) ((volume name _, _) ∷ mounts) volumes seen
      (identity, named, rest, _, (_, same, _, one), _, split, owned) v m =
    go (along v volumes (name ∷ rest) (split ∙ ap (λ n. n ++ rest) one) m)
      (volumes_named paths id storage slots mounts rest (identity ∷ seen) owned v)
  where
    go :
        Memᴰ v (name ∷ rest)
        → (Memᴰ v rest → (slot : String) × (text_codes v ≡ volume_name id slot))
        → (slot : String) × (text_codes v ≡ volume_name id slot)
    go (Memᴰ.head e) later = (slot, ap text_codes e ∙ same)
    go (Memᴰ.tail m) later = later m

-- Models generated for instances with different 128-bit IDs have different projects and share no
-- volume, whatever their templates and records are.
pub generate_apart :
    (paths : Paths) (a b : ConfirmedCompose) (m n : ComposeModel)
    → a.instance_id.value < 16 ^ 32
    → b.instance_id.value < 16 ^ 32
    → a.instance_id ≢ b.instance_id
    → generate paths a ≡ ok m
    → generate paths b ≡ ok n
    → (m.name ≢ n.name) × ((v : String) → Memᴰ v m.volumes → Memᴰ v n.volumes → ⊥)
generate_apart paths a b m n p q different e f =
    let v = generate-IsIsolated paths a m e in
    let w = generate-IsIsolated paths b n f in
    let (_, _, _, _, _, _, _, ours, _) = v.service in
    let (_, _, _, _, _, _, _, theirs, _) = w.service in
    (
      λ same. different (
          compose_project_name_injective a.instance_id b.instance_id p q
            (sym v.project ∙ same ∙ w.project)),
      λ name i j.
          let (s, x) = volumes_named paths a.instance_id _ _ _ _ _ ours name i in
          let (t, y) = volumes_named paths b.instance_id _ _ _ _ _ theirs name j in
          different (owner s t p q (sym x ∙ y)),
    )
  where
    owner :
        (s t : String)
        → a.instance_id.value < 16 ^ 32
        → b.instance_id.value < 16 ^ 32
        → volume_name a.instance_id s ≡ volume_name b.instance_id t
        → a.instance_id ≡ b.instance_id
    owner s t p q same =
        compose_project_name_injective a.instance_id b.instance_id p q
          (append_injective (compose_project_name a.instance_id)
            (compose_project_name b.instance_id) _ _
            (length-compose_project_name a.instance_id
              ∙ sym (length-compose_project_name b.instance_id))
            same).0
