-- ===== src/Tests/Composing.antt =====
-- crates/domain/src/compose.rs on a database with one port and one volume.
use mathlib.Core.List.{Memᴰ}
use compose_nest.Common.{
  ℕ, Map, Text, Option, List, ◌≡◌, ◌≢◌, ap, refl, none, [], ◌∷◌, ok, err, some, pos, String, true,
  false, arith, text_codes, text_eq,
}
use compose_nest.Identity.{InstanceId, compose_project_name, hex}
use compose_nest.Instance.{StoragePresence}
use compose_nest.Template.{
  panics, optional, entries, ◌>>=◌, Value, no_fields, field_of, no_items, item_of,
}
use compose_nest.Compose.{volume, ConfirmedCompose, ComposeModel, InputValue}
use compose_nest.Compose.Allocations.{Paths}
use compose_nest.Compose.Generate.{generate, labels_of}
use compose_nest.Compose.Isolation.{IsIsolated, generate-IsIsolated}
use compose_nest.Template.Reading.{object, choice, string_length, integer_range}
use compose_nest.Template.Structure.{VersionDefinition, parse_version}
use compose_nest.Template.Accepted.{parse_version_never_panics}
use compose_nest.Template.Semantics.{Patterns, ResolvedVersion}
use compose_nest.Template.Resolution.{resolve_version}
use compose_nest.Compose.Inputs.{check_inputs, environment_of, command_of, resolve_argv}
use compose_nest.Compose.Resolved.{references_resolve}
use compose_nest.Compose.Sure.{generate_never_panics}
use compose_nest.Compose.Apart.{generate_apart}

abbrev paths : Paths
paths = record { is_absolute = λ _. true; has_parent = λ _. false }

abbrev one : String → Value → Value
one key value = Value.mapping (field_of key value no_fields)

abbrev slot_of : String → Value → Value
slot_of label container =
    Value.mapping (field_of "label" (Value.string label) (field_of "container" container no_fields))

abbrev password : Value
password =
    Value.mapping (
      field_of "label" (Value.string "Password")
        (field_of "type" (Value.string "secret") no_fields))

abbrev service : Value
service = Value.mapping (
    field_of "environment" (one "PASSWORD" (one "input" (Value.string "password"))) (
      field_of "ports" (one "sql" (slot_of "SQL" (Value.integer (pos 5432)))) (
        field_of "storage" (one "data" (slot_of "Data" (Value.string "/var/lib/data"))) (
          field_of "healthcheck"
            (one "command" (Value.sequence (item_of (Value.string "ready") no_items))) no_fields))))

abbrev document : Value
document = Value.mapping (
    field_of "image" (Value.string "db:16") (
      field_of "platforms" (Value.sequence (item_of (Value.string "linux/amd64") no_items))
        (field_of "inputs" (one "password" password) (field_of "service" service no_fields))))

abbrev definition : VersionDefinition
definition = record { image = "db:16"; platforms = "linux/amd64" ∷ []; document = document }

parsed : parse_version document ≡ ok definition
unfolding parse_version ◌>>=◌ object choice string_length integer_range
parsed = refl

parse_version_never_panics_example : parse_version (one "image" (Value.string "db:16")) ≢ err panics
parse_version_never_panics_example = parse_version_never_panics (one "image" (Value.string "db:16"))

abbrev image : String
image =
    "docker.io/library/db@sha256:0123456789abcdef0123456789abcdef0123456789abcdef0123456789abcdef"

abbrev records : ℕ → String → ConfirmedCompose
records id name = record {
  snapshot = record { key = "16"; definition = definition } ∷ [];
  version = "16";
  instance_id = record { value = id };
  scope_id = "local";
  spec_revision = 1;
  inputs = ("password", InputValue.string "hidden") ∷ [];
  ports = ("sql", 15432) ∷ [];
  storage = ("data", volume name StoragePresence.present) ∷ [];
  source_image = "db:16";
  execution_image = image;
  platform = "linux/amd64";
}

abbrev model : ℕ → String → ComposeModel
model id name = record {
  name = compose_project_name (record { value = id });
  service = record {
    image = image;
    platform = "linux/amd64";
    environment = ("PASSWORD", text_codes "hidden") ∷ [];
    command = none;
    healthcheck = text_codes "ready" ∷ [];
    health_timing = (pos 5, pos 3, pos 10, pos 12);
    ports = (15432, 5432) ∷ [];
    mounts = (volume name StoragePresence.present, "/var/lib/data") ∷ [];
    restart = "no";
    mem_limit = none;
    labels = labels_of (records id name);
  };
  volumes = name ∷ [];
}

abbrev seven : String
seven = "cn-00000000000000000000000000000007-data"

abbrev eight : String
eight = "cn-00000000000000000000000000000008-data"

seven_generated : generate paths (records 7 seven) ≡ ok (model 7 seven)
unfolding generate ◌>>=◌ text_eq compose_project_name hex
seven_generated = refl

eight_generated : generate paths (records 8 eight) ≡ ok (model 8 eight)
unfolding generate ◌>>=◌ text_eq compose_project_name hex
eight_generated = refl

generate-IsIsolated_example : IsIsolated paths (records 7 seven) (model 7 seven)
generate-IsIsolated_example =
    generate-IsIsolated paths (records 7 seven) (model 7 seven) seven_generated

seven_is_not_eight : ◌≢◌ {A = ℕ} 7 8
seven_is_not_eight e = omega (arith, e)

generate_apart_example :
    ((model 7 seven).name ≢ (model 8 eight).name)
    × ((v : String) → Memᴰ v (seven ∷ []) → Memᴰ v (eight ∷ []) → ⊥)
generate_apart_example =
    generate_apart paths (records 7 seven) (records 8 eight) (model 7 seven) (model 8 eight)
      (omega arith) (omega arith)
      (λ same. seven_is_not_eight (ap (λ (i : InstanceId). i.value) same)) seven_generated
      eight_generated

generate_never_panics_example : generate paths (records 7 "other") ≢ err panics
generate_never_panics_example =
    generate_never_panics paths (records 7 "other") ((document, parsed), tt)

abbrev patterns : Patterns
patterns = record { compiles = λ _. true; matches = λ p s. true }

abbrev resolved_version : ResolvedVersion
resolved_version = record {
  key = "16";
  definition = definition;
  input_policies = ("password", "regenerate") ∷ [];
  unused_inputs = [];
}

abbrev given : Map InputValue
given = ("password", InputValue.string "hidden") ∷ []

resolves :
    resolve_version patterns "16" definition [] ≡ ok (resolved_version, ("password", "secret") ∷ [])
unfolding resolve_version ◌>>=◌ text_eq
resolves = refl

given_fits : check_inputs (entries (optional document "inputs")) given ≡ ok tt
unfolding check_inputs ◌>>=◌
given_fits = refl

references_resolve_example :
    (s : Value) × (optional document "service" ≡ some s)
    × ((n : Map Text) × (environment_of (entries (optional s "environment")) given [] ≡ ok n))
    × ((c : Option (List Text)) × (command_of (optional s "command") given ≡ ok c))
    × ((health : Value) × (test : Value) × (ts : List Text) × (optional s "healthcheck"
          ≡ some health)
        × (optional health "command" ≡ some test)
        × (resolve_argv test given ≡ ok ts))
references_resolve_example =
    references_resolve patterns "16" document definition [] (("password", "secret") ∷ [])
      resolved_version given parsed resolves given_fits
