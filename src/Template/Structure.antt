-- ===== src/Template/Structure.antt =====
-- crates/domain/src/template/structure.rs: `parse_version`, once the third-party reader of YAML has
-- made a value of the bytes.
use compose_nest.Common.{String, false, not, List, [], ◌∷◌, ok, str_eq, length, ◌++◌}
use compose_nest.Template.{Value, ◌>>=◌, ◌>>◌, optional, field}
use compose_nest.Template.Reading.{
  Checking, require, is_among, as_string, as_sequence, object, is_within, choice,
}
use compose_nest.Template.Validation.{
  when_some, named_map, validate_input, validate_service, validate_connection,
}

pub record VersionDefinition : Type 0 where
  pub image : String
  pub platforms : List String
  pub document : Value

abbrev pub known_platforms : List String
known_platforms = "linux/amd64" ∷ "linux/arm64" ∷ []

-- The platforms in the author's order, each once.
unfoldable pub platforms_of : List Value → List String → Checking (List String)
platforms_of [] platforms = ok platforms
platforms_of (node ∷ rest) platforms = do
  value ← choice node known_platforms
  require (not (is_among platforms value))
  platforms_of rest (platforms ++ (value ∷ []))

unfoldable pub parse_version : Value → Checking VersionDefinition
unfolding platforms_of named_map validate_input validate_service validate_connection
parse_version document = do
  _ ← object document ("image" ∷ "platforms" ∷ "service" ∷ []) ("inputs" ∷ "connections" ∷ [])
  node ← field document "image"
  image ← as_string node
  require (not (str_eq image ""))
  platforms_node ← field document "platforms"
  platform_nodes ← as_sequence platforms_node
  require (is_within 1 2 (length platform_nodes))
  platforms ← platforms_of platform_nodes []
  when_some (optional document "inputs") λ v. named_map false v 64 validate_input
  service ← field document "service"
  validate_service service
  when_some (optional document "connections") λ v. named_map false v 16 validate_connection
  ok (record { image = image; platforms = platforms; document = document })
