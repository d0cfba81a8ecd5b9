-- ===== src/Template/Resolution.antt =====
-- crates/domain/src/template/semantics.rs: `resolve_version` and `resolve_template`.
use compose_nest.Common.{
  String, true, false, not, Option, none, some, List, [], ◌∷◌, ok, err, str_eq, if◌then◌else◌, Map,
  lookup, insert, select,
}
use compose_nest.Template.{Value, entries, optional, field, refused, ◌>>=◌, ◌>>◌}
use compose_nest.Template.Reading.{TemplateError, Checking, require, is_among}
use compose_nest.Template.Structure.{VersionDefinition}
use compose_nest.Template.Semantics.{
  Patterns, ResolvedVersion, scalar_of, unwrap_or, validate_input_semantics, validate_references,
  command_items, validate_ports, validate_storage, validate_connections,
}

-- The parts of a manifest that the resolution reads.
pub record TemplateManifest : Type 0 where
  pub versions : List (String × String)
  pub document : Value

pub record ResolvedTemplate : Type 0 where
  pub manifest : TemplateManifest
  pub versions : List ResolvedVersion
  pub version_clone : String
  pub storage_clone : String

unfoldable pub check_type : Option String → String → Checking (Unit {0})
check_type none kind = ok tt
check_type (some previous) kind = require (str_eq previous kind)

abbrev pub with_type : Option String → String → String → Map String → Map String
with_type none name kind types = insert name kind types
with_type (some _) name kind types = types

abbrev pub policy_of : Value → String → String
policy_of input kind =
    unwrap_or (scalar_of (optional input "clone"))
      (if str_eq kind "secret" then "regenerate" else "copy")

abbrev pub values_in : List (String × Value) → List Value
values_in [] = []
values_in ((_, value) ∷ rest) = value ∷ values_in rest

abbrev pub names_in : {A : Type 0} → List (String × A) → List String
names_in [] = []
names_in ((name, _) ∷ rest) = name ∷ names_in rest

module _ (patterns : Patterns) where
  -- The loop over the inputs, with the types that other versions gave them.
  unfoldable pub resolve_inputs :
      List (String × Value) → Map String → Checking (List (String × String) × Map String)
  unfolding check_type validate_input_semantics
  resolve_inputs [] types = ok ([], types)
  resolve_inputs ((name, input) ∷ rest) types = do
    node ← field input "type"
    let kind = unwrap_or (scalar_of (some node)) ""
    check_type (lookup name types) kind
    validate_input_semantics patterns input kind
    (policies, last) ← resolve_inputs rest (with_type (lookup name types) name kind types)
    ok ((name, policy_of input kind) ∷ policies, last)

  unfoldable pub resolve_version :
      String → VersionDefinition → Map String → Checking (ResolvedVersion × Map String)
  unfolding resolve_inputs validate_references validate_ports validate_storage validate_connections
  resolve_version key definition types = do
    let inputs = entries (optional definition.document "inputs")
    (policies, last) ← resolve_inputs inputs types
    service ← field definition.document "service"
    used1 ←
        validate_references (values_in (entries (optional service "environment"))) inputs true []
    used2 ← validate_references (command_items (optional service "command")) inputs false used1
    health ← field service "healthcheck"
    test ← field health "command"
    used ← validate_references (command_items (some test)) inputs false used2
    validate_ports (entries (optional service "ports")) []
    validate_storage (entries (optional service "storage")) []
    validate_connections (entries (optional definition.document "connections"))
        (entries (optional service "ports")) inputs
    ok (
      record {
        key = key;
        definition = definition;
        input_policies = policies;
        unused_inputs = select (λ name. not (is_among used name)) (names_in inputs);
      },
      last,
    )

  abbrev pub definition_of : String → List (String × VersionDefinition) → Checking VersionDefinition
  definition_of key [] = err (refused TemplateError.template_error)
  definition_of key ((provided, definition) ∷ rest) =
      let later = definition_of key rest in if str_eq provided key then ok definition else later

  unfoldable pub resolve_versions :
      List (String × String)
      → List (String × VersionDefinition)
      → Map String
      → Checking (List ResolvedVersion)
  unfolding resolve_version
  resolve_versions [] definitions types = ok []
  resolve_versions ((key, file) ∷ rest) definitions types = do
    definition ← definition_of key definitions
    (version, more) ← resolve_version key definition types
    versions ← resolve_versions rest definitions more
    ok (version ∷ versions)

  -- Each definition is listed, and given once.
  unfoldable pub check_definitions :
      List String → List (String × String) → List String → Checking (Unit {0})
  check_definitions [] listed provided = ok tt
  check_definitions (key ∷ rest) listed provided = do
    require (not (is_among provided key))
    require (is_among (names_in listed) key)
    check_definitions rest listed (key ∷ provided)

  unfoldable pub resolve_template :
      TemplateManifest → List (String × VersionDefinition) → Checking ResolvedTemplate
  unfolding resolve_versions check_definitions
  resolve_template manifest definitions = do
    versions ← resolve_versions manifest.versions definitions []
    check_definitions (names_in definitions) manifest.versions []
    ok (record {
      manifest = manifest;
      versions = versions;
      version_clone = unwrap_or (scalar_of (optional manifest.document "versionClone")) "copy";
      storage_clone = unwrap_or (scalar_of (optional manifest.document "storageClone")) "copy";
    })
