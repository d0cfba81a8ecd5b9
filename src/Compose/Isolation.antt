-- ===== src/Compose/Isolation.antt =====
-- crates/domain/src/compose.rs: what a generated model promises.
use compose_nest.Common.{
  ℕ, ◌≤◌, ◌≡◌, refl, String, Bool, true, false, Option, none, some, List, [], ◌∷◌, ◌++◌, ok, err,
  arith, str_eq, eq_iff, ◌==◌, if◌then◌else◌, text_codes, text_eq, text_eq_iff, any, all, Map,
  lookup,
}
use compose_nest.Identity.{InstanceId, compose_project_name}
use compose_nest.Instance.{present}
use compose_nest.Template.{
  Value, entries, optional, field, refused, Anyhow, Returns, Ends-then, Ends-unless, Ends-ok,
  Ends-err, Ends-weaken, field-Returns, Returns-itself, returned,
}
use compose_nest.Compose.{
  Storage, bind, volume, Version, ConfirmedCompose, ComposeError, invalid_allocation, invalid_image,
  ComposeModel, find_version, check_image, repository_of,
}
use compose_nest.Compose.Digest.{IsPinned, valid_digest-IsPinned}
use compose_nest.Compose.Inputs.{
  has_name, keys_of, check_keys, check_inputs, string_in, resolve_argv, environment_of, command_of,
}
use compose_nest.Compose.Allocations.{
  Paths, allocated, ports_of, volume_name, is_bindable, identity_of, storage_of,
}
use compose_nest.Compose.Generate.{restart_of, found_version, generate_from, generate}

-- The published ports, slot by slot: the reserved port of each, none privileged, and none twice.
abbrev pub ArePublished : Map ℕ → List (String × Value) → List (ℕ × ℕ) → List ℕ → Type 0
ArePublished ports [] [] seen = Unit
ArePublished ports ((slot, _) ∷ rest) ((host, _) ∷ others) seen =
    (lookup slot ports ≡ some host)
    × (1024 ≤ host)
    × (any (λ p. p == host) seen ≡ false)
    × ArePublished ports rest others (host ∷ seen)
ArePublished ports _ _ seen = ⊥

allocated-Returns : {A : Type 0} (o : Option A) → Returns (λ a. o ≡ some a) (allocated o)
allocated-Returns none = Ends-err Anyhow _ _ tt
allocated-Returns (some a) = Ends-ok Anyhow _ a refl

ports_of-ArePublished :
    (slots : List (String × Value)) (ports : Map ℕ) (seen : List ℕ)
    → Returns (λ published. ArePublished ports slots published seen) (ports_of slots ports seen)
unfolding ports_of
ports_of-ArePublished [] ports seen = Ends-ok Anyhow _ [] tt
ports_of-ArePublished ((slot, definition) ∷ rest) ports seen =
    Ends-then Anyhow _ _ _ _ (allocated-Returns (lookup slot ports)) λ host found.
      Ends-then Anyhow _ _ _ _ (Ends-unless Anyhow _ invalid_allocation tt) λ _ fine.
        Ends-then Anyhow _ _ _ _ (Returns-itself (field definition "container")) λ container _.
          Ends-then Anyhow _ _ _ _ (ports_of-ArePublished rest ports (host ∷ seen)) λ others made.
            Ends-ok Anyhow _ _ (found, ground (arith, fine), ground (arith, fine), made)

-- The mounts, slot by slot: the allocation of each, a directory of its own or the present volume of
-- the instance and the slot, none twice; and the volumes among them.
abbrev pub IsOwned : Paths → InstanceId → String → Storage → String → List String → Type 0
IsOwned paths id slot (bind path) identity named =
    (is_bindable paths id path ≡ true) × (identity ≡ path) × (named ≡ [])
IsOwned paths id slot (volume name presence) identity named =
    (presence ≡ present)
    × (text_codes name ≡ volume_name id slot)
    × (identity ≡ name)
    × (named ≡ name ∷ [])

module _ (paths : Paths) (id : InstanceId) where
  abbrev pub AreOwned :
      Map Storage
      → List (String × Value)
      → List (Storage × String)
      → List String
      → List String
      → Type 0
  AreOwned storage [] [] volumes seen = volumes ≡ []
  AreOwned storage ((slot, _) ∷ rest) ((allocation, _) ∷ others) volumes seen =
      (identity : String) × (named : List String) × (remaining : List String) × (lookup slot storage
        ≡ some allocation)
      × IsOwned paths id slot allocation identity named
      × (any (λ s. str_eq s identity) seen ≡ false)
      × (volumes ≡ named ++ remaining)
      × AreOwned storage rest others remaining (identity ∷ seen)
  AreOwned storage _ _ volumes seen = ⊥

  identity_of-IsOwned :
      (slot : String) (allocation : Storage)
      → Returns
          (λ (r : String × List String). IsOwned paths id slot allocation r.0 r.1)
          (identity_of paths id slot allocation)
  unfolding identity_of
  identity_of-IsOwned slot (bind path) = go (is_bindable paths id path) refl
    where
      go :
          (b : Bool)
          → is_bindable paths id path ≡ b
          → Returns
              (λ (r : String × List String). IsOwned paths id slot (bind path) r.0 r.1)
              (if b then ok (path, []) else err (refused invalid_allocation))
      go true e = Ends-ok Anyhow _ _ (e, refl, refl)
      go false e = Ends-err Anyhow _ _ tt
  identity_of-IsOwned slot (volume name present) =
      go (text_eq (text_codes name) (volume_name id slot)) refl
    where
      go :
          (b : Bool)
          → text_eq (text_codes name) (volume_name id slot) ≡ b
          → Returns
              (λ (r : String × List String). IsOwned paths id slot (volume name present) r.0 r.1)
              (if b then ok (name, name ∷ []) else err (refused invalid_allocation))
      go true e =
          Ends-ok Anyhow _ _
            (refl, (text_eq_iff (text_codes name) (volume_name id slot)).0 e, refl, refl)
      go false e = Ends-err Anyhow _ _ tt
  identity_of-IsOwned slot (volume name _) = Ends-err Anyhow _ _ tt

  storage_of-AreOwned :
      (slots : List (String × Value)) (storage : Map Storage) (seen : List String)
      → Returns (λ r. AreOwned storage slots r.0 r.1 seen) (storage_of paths id slots storage seen)
  unfolding storage_of
  storage_of-AreOwned [] storage seen = Ends-ok Anyhow _ _ refl
  storage_of-AreOwned ((slot, definition) ∷ rest) storage seen =
      Ends-then Anyhow _ _ _ _ (allocated-Returns (lookup slot storage)) λ allocation found.
        Ends-then Anyhow _ _ _ _ (identity_of-IsOwned slot allocation) λ r owned.
          Ends-then Anyhow _ _ _ _ (Ends-unless Anyhow _ invalid_allocation tt) λ _ fresh.
            Ends-then Anyhow _ _ _ _ (Returns-itself (field definition "container")) λ container _.
              Ends-then Anyhow _ _ _ _ (Returns-itself (string_in container)) λ target _.
                Ends-then Anyhow _ _ _ _ (storage_of-AreOwned rest storage (r.0 ∷ seen))
                  λ made others.
                    Ends-ok Anyhow _ _
                      (r.0, r.1, made.1, found, owned, ground (arith, fresh), refl, others)

check_keys-Returns :
    (actual expected : List String) (exact : Bool)
    → Returns
        (λ _.
          (all (has_name expected) actual ≡ true)
          × (exact ≡ true → all (has_name actual) expected ≡ true))
        (check_keys actual expected exact)
unfolding check_keys
check_keys-Returns actual expected exact =
    Ends-weaken Anyhow _ _ _ (Ends-unless Anyhow _ invalid_allocation tt)
      λ _ e. (ground (arith, e), λ x. ground (arith, e, x))

found_version-Returns : (o : Option Version) → Returns (λ v. o ≡ some v) (found_version o)
found_version-Returns none = Ends-err Anyhow _ _ tt
found_version-Returns (some v) = Ends-ok Anyhow _ v refl

module _ (paths : Paths) (source : ConfirmedCompose) where
  -- A model that is generated for the confirmed records of an instance, from a service of the
  -- version's document.
  pub record IsIsolated (model : ComposeModel) : Type 0 where
    pub project : model.name ≡ compose_project_name source.instance_id
    pub pinned :
        IsPinned (text_codes model.service.image) (repository_of (text_codes source.source_image))
    pub revised : 1 ≤ source.spec_revision
    pub service :
        (version : Version) × (service : Value) × (find_version source.version source.snapshot
          ≡ some version)
        × (source.source_image ≡ version.definition.image)
        × (optional version.definition.document "service" ≡ some service)
        × ArePublished source.ports (entries (optional service "ports")) model.service.ports []
        × (all (has_name (keys_of (entries (optional service "ports")))) (keys_of source.ports)
            ≡ true)
        × AreOwned paths source.instance_id source.storage
            (entries (optional service "storage"))
            model.service.mounts
            model.volumes
            []
        × (all (has_name (keys_of (entries (optional service "storage")))) (keys_of source.storage)
            ≡ true)

  generate-Returns : Returns IsIsolated (generate paths source)
  unfolding generate check_image generate_from
  generate-Returns =
      Ends-then Anyhow _ _ _ _ (found_version-Returns (find_version source.version source.snapshot))
        λ version found. Ends-then Anyhow _ _ _ _ (Ends-unless Anyhow _ invalid_image tt) λ _ image.
          Ends-then Anyhow _ _ _ _ (Returns-itself (check_inputs _ source.inputs)) λ _ _.
            Ends-then Anyhow _ _ _ _
              (field-Returns ComposeError version.definition.document "service")
              λ service at.
                Ends-then Anyhow _ _ _ _ (Returns-itself (environment_of _ source.inputs [])) λ _ _.
                  Ends-then Anyhow _ _ _ _ (Returns-itself (command_of _ source.inputs)) λ _ _.
                    Ends-then Anyhow _ _ _ _ (Returns-itself (field service "healthcheck"))
                      λ health _.
                        Ends-then Anyhow _ _ _ _ (Returns-itself (field health "command")) λ test _.
                          Ends-then Anyhow _ _ _ _
                            (Returns-itself (resolve_argv test source.inputs))
                            λ _ _.
                              Ends-then Anyhow _ _ _ _
                                (check_keys-Returns (keys_of source.ports) _ true)
                                λ _ known.
                                  Ends-then Anyhow _ _ _ _ (ports_of-ArePublished _ source.ports [])
                                    λ _ published.
                                      Ends-then Anyhow _ _ _ _
                                        (check_keys-Returns (keys_of source.storage) _ true)
                                        λ _ kept.
                                          Ends-then Anyhow _ _ _ _
                                            (storage_of-AreOwned paths source.instance_id _
                                              source.storage [])
                                            λ _ owned.
                                              Ends-then Anyhow _ _ _ _
                                                (Returns-itself (restart_of _))
                                                λ _ _. Ends-ok Anyhow _ _ (record {
                                                  project = refl;
                                                  pinned =
                                                      valid_digest-IsPinned source
                                                        (ground (arith, image));
                                                  revised = ground (arith, image);
                                                  service = (
                                                    version,
                                                    service,
                                                    found,
                                                    (eq_iff source.source_image
                                                          version.definition.image).0
                                                        (ground (arith, image)),
                                                    at,
                                                    published,
                                                    known.0,
                                                    owned,
                                                    kept.0,
                                                  );
                                                })

  -- A model that `generate` returns has the project name of the instance and runs the image of the
  -- version pinned to a sha256 digest of its repository; it publishes, for each port slot of the
  -- service, the confirmed port, none below 1024 and none twice, and no confirmed port is left out;
  -- it mounts, for each storage slot, the confirmed allocation, none twice, each an absolute
  -- directory without parent parts or the present volume that belongs to the instance and slot,
  -- and its volumes are those of the mounts.
  pub generate-IsIsolated :
      (model : ComposeModel) → generate paths source ≡ ok model → IsIsolated model
  generate-IsIsolated model e =
      returned Anyhow IsIsolated (generate paths source) model generate-Returns e
