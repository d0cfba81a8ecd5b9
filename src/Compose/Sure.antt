-- ===== src/Compose/Sure.antt =====
-- crates/domain/src/compose.rs: `generate` on a snapshot whose versions were validated.
use compose_nest.Common.{
  ℕ, ◌≡◌, ◌≢◌, refl, inl, inr, String, Bool, true, false, Option, none, some, List, [], ◌∷◌, ok,
  err, str_eq, All, arith, if◌then◌else◌, Text, Map, lookup, Bool-cases, text_eq, text_codes,
}
use compose_nest.Identity.{InstanceId}
use compose_nest.Instance.{present}
use compose_nest.Template.{
  Value, items_of, entries_in, entries, optional, field, expect, refused, panics, Checked, Ends-ok,
  Ends-err, Ends-then, Ends-unless, returned,
}
use compose_nest.Template.Sound.{Refuses, Sure, Safe, Sure-Safe, Sure-panics, AllValues}
use compose_nest.Template.Structure.{parse_version}
use compose_nest.Template.Accepted.{
  IsText, HasField, IsReferable, IsArgv, IsService, IsAccepted, parse_version-Sure,
}
use compose_nest.Compose.{
  InputValue, Storage, bind, volume, Version, ConfirmedCompose, ComposeError, invalid_spec,
  invalid_image, invalid_allocation, find_version, check_image,
}
use compose_nest.Compose.Inputs.{
  keys_of, check_keys, check_definition, check_definitions, as_spec_error, check_inputs, string_in,
  referred, resolve, provided, resolve_items, resolve_argv, environment_of, put_some, command_of,
}
use compose_nest.Compose.Allocations.{
  Paths, allocated, ports_of, is_bindable, volume_name, identity_of, storage_of,
}
use compose_nest.Compose.Generate.{restart_of, found_version, generate_from, generate}

-- A field that the validation found.
known_field :
    (P : Value → Type 0) (name : String) (node : Value)
    → HasField name P node
    → Sure {E = ComposeError} P (field node name)
known_field P name node (v, found, p) = go (optional node name) found
  where
    go : (o : Option Value) → o ≡ some v → Sure {E = ComposeError} P (expect o)
    go none e = cc
    go (some w) e = let same : w ≡ v = cc in Ends-ok Refuses _ w (rw same p)

string_in-Safe : (v : Value) → IsText v → Safe (string_in v)
string_in-Safe v (s, same) = rw same (Ends-ok Refuses _ s tt)

referred-Safe : (o : Option InputValue) (omitted : Bool) → Safe (referred o omitted)
referred-Safe (some v) omitted = Ends-ok Refuses _ _ tt
referred-Safe none true = Ends-ok Refuses _ _ tt
referred-Safe none false = Ends-err Refuses _ _ tt

resolve-Safe : (v : Value) (inputs : Map InputValue) → IsReferable v → Safe (resolve v inputs)
unfolding resolve
resolve-Safe (Value.string _) inputs r = Ends-ok Refuses _ _ tt
resolve-Safe (Value.integer _) inputs r = Ends-ok Refuses _ _ tt
resolve-Safe (Value.boolean _) inputs r = Ends-ok Refuses _ _ tt
resolve-Safe (Value.sequence _) inputs r = Ends-err Refuses _ _ tt
resolve-Safe (Value.mapping fs) inputs r =
    Ends-then Refuses _ _ _ _ (known_field IsText "input" (Value.mapping fs) r) λ reference is_text.
      Ends-then Refuses _ _ _ _ (string_in-Safe reference is_text) λ name _. referred-Safe _ _

provided-Safe : (o : Option Text) → Safe (provided o)
provided-Safe none = Ends-err Refuses _ _ tt
provided-Safe (some t) = Ends-ok Refuses _ _ tt

resolve_items-Safe :
    (xs : List Value) (inputs : Map InputValue)
    → All IsReferable xs
    → Safe (resolve_items xs inputs)
unfolding resolve_items
resolve_items-Safe [] inputs rs = Ends-ok Refuses _ _ tt
resolve_items-Safe (x ∷ xs) inputs (r, rs) =
    Ends-then Refuses _ _ _ _ (resolve-Safe x inputs r) λ value _.
      Ends-then Refuses _ _ _ _ (provided-Safe value) λ text _.
        Ends-then Refuses _ _ _ _ (resolve_items-Safe xs inputs rs)
          λ texts _. Ends-ok Refuses _ _ tt

resolve_argv-Safe : (v : Value) (inputs : Map InputValue) → IsArgv v → Safe (resolve_argv v inputs)
unfolding resolve_argv
resolve_argv-Safe v inputs (items, same, rs) =
    rw same (resolve_items-Safe (items_of items) inputs rs)

command_of-Safe :
    (o : Option Value) (inputs : Map InputValue)
    → ((v : Value) → o ≡ some v → IsArgv v)
    → Safe (command_of o inputs)
unfolding command_of
command_of-Safe none inputs argv = Ends-ok Refuses _ _ tt
command_of-Safe (some v) inputs argv =
    Ends-then Refuses _ _ _ _ (resolve_argv-Safe v inputs (argv v refl))
      λ _ _. Ends-ok Refuses _ _ tt

environment_of-Safe :
    (es : List (String × Value)) (inputs : Map InputValue) (m : Map Text)
    → AllValues IsReferable es
    → Safe (environment_of es inputs m)
unfolding environment_of
environment_of-Safe [] inputs m rs = Ends-ok Refuses _ _ tt
environment_of-Safe ((key, v) ∷ es) inputs m (r, rs) =
    Ends-then Refuses _ _ _ _ (resolve-Safe v inputs r)
      λ text _. environment_of-Safe es inputs (put_some key text m) rs

check_definitions-Safe :
    (es : List (String × Value)) (inputs : Map InputValue)
    → AllValues (HasField "type" IsText) es
    → Safe (check_definitions es inputs)
unfolding check_definitions check_definition
check_definitions-Safe [] inputs rs = Ends-ok Refuses _ _ tt
check_definitions-Safe ((key, v) ∷ es) inputs (r, rs) =
    Ends-then Refuses _ _ _ _
      (Ends-then Refuses _ _ _ _ (known_field IsText "type" v r) λ type is_text.
        Ends-then Refuses _ _ _ _ (string_in-Safe type is_text)
          λ kind _. Sure-Safe _ _ (Ends-unless Refuses _ invalid_spec tt))
      λ _ _. check_definitions-Safe es inputs rs

check_keys-Safe :
    (actual expected : List String) (exact : Bool) → Safe (check_keys actual expected exact)
unfolding check_keys
check_keys-Safe actual expected exact = Sure-Safe _ _ (Ends-unless Refuses _ invalid_allocation tt)

as_spec_error-Safe : (m : Checked ComposeError (Unit {0})) → Safe m → Safe (as_spec_error m)
as_spec_error-Safe (ok a) s = s
as_spec_error-Safe (err (refused e)) s = Ends-err Refuses _ _ tt
as_spec_error-Safe (err panics) s = s

check_inputs-Safe :
    (es : List (String × Value)) (inputs : Map InputValue)
    → AllValues (HasField "type" IsText) es
    → Safe (check_inputs es inputs)
unfolding check_inputs
check_inputs-Safe es inputs rs =
    Ends-then Refuses _ _ _ _
      (as_spec_error-Safe _ (check_keys-Safe (keys_of inputs) (keys_of es) false))
      λ _ _. check_definitions-Safe es inputs rs

allocated-Safe : {A : Type 0} (o : Option A) → Safe (allocated o)
allocated-Safe none = Ends-err Refuses _ _ tt
allocated-Safe (some a) = Ends-ok Refuses _ _ tt

ports_of-Safe :
    (es : List (String × Value)) (ports : Map ℕ) (seen : List ℕ)
    → AllValues (HasField "container" (λ _. Unit)) es
    → Safe (ports_of es ports seen)
unfolding ports_of
ports_of-Safe [] ports seen rs = Ends-ok Refuses _ _ tt
ports_of-Safe ((slot, v) ∷ es) ports seen (r, rs) =
    Ends-then Refuses _ _ _ _ (allocated-Safe (lookup slot ports)) λ host _.
      Ends-then Refuses _ _ _ _ (Ends-unless Refuses _ invalid_allocation tt) λ _ _.
        Ends-then Refuses _ _ _ _ (known_field (λ _. Unit) "container" v r) λ container _.
          Ends-then Refuses _ _ _ _ (ports_of-Safe es ports (host ∷ seen) rs)
            λ others _. Ends-ok Refuses _ _ tt

either-Safe :
    {A : Type 0} (b : Bool) (a : A) (e : ComposeError) → Safe (if b then ok a else err (refused e))
either-Safe true a e = Ends-ok Refuses _ _ tt
either-Safe false a e = Ends-err Refuses _ _ tt

module _ (paths : Paths) (id : InstanceId) where
  identity_of-Safe : (slot : String) (s : Storage) → Safe (identity_of paths id slot s)
  unfolding identity_of
  identity_of-Safe slot (bind path) = either-Safe (is_bindable paths id path) _ _
  identity_of-Safe slot (volume name present) =
      either-Safe (text_eq (text_codes name) (volume_name id slot)) _ _
  identity_of-Safe slot (volume name _) = Ends-err Refuses _ _ tt

  storage_of-Safe :
      (es : List (String × Value)) (storage : Map Storage) (seen : List String)
      → AllValues (HasField "container" IsText) es
      → Safe (storage_of paths id es storage seen)
  unfolding storage_of
  storage_of-Safe [] storage seen rs = Ends-ok Refuses _ _ tt
  storage_of-Safe ((slot, v) ∷ es) storage seen (r, rs) =
      Ends-then Refuses _ _ _ _ (allocated-Safe (lookup slot storage)) λ allocation _.
        Ends-then Refuses _ _ _ _ (identity_of-Safe slot allocation) λ identity _.
          Ends-then Refuses _ _ _ _ (Ends-unless Refuses _ invalid_allocation tt) λ _ _.
            Ends-then Refuses _ _ _ _ (known_field IsText "container" v r) λ container is_text.
              Ends-then Refuses _ _ _ _ (string_in-Safe container is_text) λ target _.
                Ends-then Refuses _ _ _ _ (storage_of-Safe es storage (identity.0 ∷ seen) rs)
                  λ others _. Ends-ok Refuses _ _ tt

restart_of-Safe : (o : Option Value) → ((v : Value) → o ≡ some v → IsText v) → Safe (restart_of o)
restart_of-Safe none text = Ends-ok Refuses _ _ tt
restart_of-Safe (some v) text = string_in-Safe v (text v refl)

found_version-Sure : (o : Option Version) → Sure (λ v. o ≡ some v) (found_version o)
found_version-Sure none = Ends-err Refuses _ _ tt
found_version-Sure (some v) = Ends-ok Refuses _ v refl

-- The values of an optional mapping.
pub values_of :
    (P : Value → Type 0) (o : Option Value)
    → ((v : Value) → o ≡ some v → AllValues P (entries_in v))
    → AllValues P (entries o)
values_of P none all_of = tt
values_of P (some v) all_of = all_of v refl

-- The versions of a snapshot come from documents that `parse_version` accepted.
abbrev pub AreValidated : List Version → Type 0
AreValidated versions =
    All (λ (v : Version). (document : Value) × (parse_version document ≡ ok v.definition)) versions

validated-IsAccepted :
    (key : String) (versions : List Version) (v : Version)
    → AreValidated versions
    → find_version key versions ≡ some v
    → IsAccepted v.definition.document
validated-IsAccepted key [] v valid e = cc
validated-IsAccepted key (w ∷ ws) v ((document, parsed), valid) e =
    elim (Bool-cases (str_eq w.key key)) [
      | inl same ↦
          let here : w ≡ v = ground (arith, e, same) in
          let (from, accepted) = returned Refuses _ _ _ (parse_version-Sure document) parsed in
          rw (← here) (rw from accepted)
      | inr other ↦ validated-IsAccepted key ws v valid (ground (arith, e, other))
    ]

generate-Safe :
    (paths : Paths) (source : ConfirmedCompose)
    → AreValidated source.snapshot
    → Safe (generate paths source)
unfolding generate check_image generate_from
generate-Safe paths source valid =
    Ends-then Refuses _ _ _ _ (found_version-Sure (find_version source.version source.snapshot))
      λ version found.
        let doc = validated-IsAccepted source.version source.snapshot version valid found in
        Ends-then Refuses _ _ _ _ (Ends-unless Refuses _ invalid_image tt) λ _ _.
          Ends-then Refuses _ _ _ _
            (check_inputs-Safe _ source.inputs
              (values_of _ (optional version.definition.document "inputs") doc.inputs))
            λ _ _.
              Ends-then Refuses _ _ _ _
                (known_field IsService "service" version.definition.document doc.service)
                λ service has.
                  Ends-then Refuses _ _ _ _
                    (environment_of-Safe _ source.inputs []
                      (values_of _ (optional service "environment") has.environment))
                    λ _ _.
                      Ends-then Refuses _ _ _ _
                        (command_of-Safe (optional service "command") source.inputs has.command)
                        λ _ _.
                          Ends-then Refuses _ _ _ _ (known_field _ "healthcheck" service has.health)
                            λ health command.
                              Ends-then Refuses _ _ _ _
                                (known_field IsArgv "command" health command)
                                λ test argv.
                                  Ends-then Refuses _ _ _ _
                                    (resolve_argv-Safe test source.inputs argv)
                                    λ _ _.
                                      Ends-then Refuses _ _ _ _
                                        (check_keys-Safe (keys_of source.ports) _ true)
                                        λ _ _.
                                          Ends-then Refuses _ _ _ _
                                            (ports_of-Safe _ source.ports []
                                              (values_of _ (optional service "ports") has.ports))
                                            λ _ _.
                                              Ends-then Refuses _ _ _ _
                                                (check_keys-Safe (keys_of source.storage) _ true)
                                                λ _ _.
                                                  Ends-then Refuses _ _ _ _
                                                    (storage_of-Safe paths source.instance_id _
                                                      source.storage []
                                                      (values_of _ (optional service "storage")
                                                        has.storage))
                                                    λ _ _.
                                                      Ends-then Refuses _ _ _ _
                                                        (restart_of-Safe
                                                          (optional service "restart") has.restart)
                                                        λ _ _. Ends-ok Refuses _ _ tt

-- On a snapshot whose versions were all accepted by the validation, `generate` never panics,
-- whatever the confirmed records are: no required field is missing, and none has another type than
-- the generator expects.
pub generate_never_panics :
    (paths : Paths) (source : ConfirmedCompose)
    → AreValidated source.snapshot
    → generate paths source ≢ err panics
generate_never_panics paths source valid =
    Sure-panics _ (generate paths source) (generate-Safe paths source valid)
