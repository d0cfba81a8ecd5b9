-- ===== src/Template/Validation.antt =====
-- crates/domain/src/template/validation.rs: `validate_input`, `validate_service` and
-- `validate_connection`. Whether a path lies in the environment is a flag.
use compose_nest.Common.{
  ℕ, ℤ, pos, negsuc, String, Bool, true, false, not, ◌&&◌, ◌||◌, Option, none, some, List, [], ◌∷◌,
  ok, err, str_eq, leb, if◌then◌else◌, Text, text_codes, all, length, ◌==◌,
}
use compose_nest.Template.{Value, refused, ◌>>=◌, ◌>>◌, optional, field, expect}
use compose_nest.Template.Reading.{
  TemplateError, Checking, require, each, is_among, as_map, as_sequence, as_string, as_boolean,
  object, is_within, string_length, integer_range, choice,
}

-- 2^53 - 1 and its negation
abbrev pub safe_max : ℤ
safe_max = pos 9007199254740991

abbrev pub safe_min : ℤ
safe_min = negsuc 9007199254740990

-- `if let Some(value) = ..`
abbrev pub when_some : Option Value → (Value → Checking (Unit {0})) → Checking (Unit {0})
when_some none check = ok tt
when_some (some value) check = check value

abbrev pub ignore : {A : Type 0} → Checking A → Checking (Unit {0})
ignore m = m >>= λ _. ok tt

abbrev pub default_matches : Value → String → Bool
default_matches (Value.string _) kind = str_eq kind "string" || str_eq kind "select"
default_matches (Value.integer _) kind = str_eq kind "integer"
default_matches (Value.boolean _) kind = str_eq kind "boolean"
default_matches _ kind = false

unfoldable pub validate_default : String → Value → Checking (Unit {0})
validate_default kind value = do
  require (default_matches value kind)
  if str_eq kind "integer" then ignore (integer_range value safe_min safe_max) else ok tt

unfoldable pub validate_option : Value → Checking (Unit {0})
validate_option item = do
  _ ← object item ("value" ∷ "label" ∷ []) []
  value ← field item "value"
  _ ← string_length value 1 256
  label ← field item "label"
  ignore (string_length label 1 100)

unfoldable pub validate_options : String → Option Value → Checking (Unit {0})
unfolding validate_option
validate_options kind none = require (not (str_eq kind "select"))
validate_options kind (some value) = do
  require (str_eq kind "select")
  items ← as_sequence value
  require (is_within 1 128 (length items))
  each validate_option items

abbrev pub allowed_rules : String → List String
allowed_rules kind =
    if str_eq kind "string" || str_eq kind "secret"
    then "minLength" ∷ "maxLength" ∷ "pattern" ∷ []
    else if str_eq kind "integer"
    then "min" ∷ "max" ∷ []
    else []

abbrev pub rule_bounds : String → ℤ × ℤ
rule_bounds key =
    if str_eq key "minLength"
    then (pos 0, pos 4096)
    else if str_eq key "maxLength"
    then (pos 1, pos 4096)
    else (safe_min, safe_max)

unfoldable pub validate_pattern : Value → Checking (Unit {0})
validate_pattern item = do pattern ← as_string item; require (leb (length (text_codes pattern)) 256)

unfoldable pub validate_rule : String × Value → Checking (Unit {0})
unfolding validate_pattern
validate_rule (key, item) =
    if str_eq key "pattern"
    then validate_pattern item
    else ignore (integer_range item (rule_bounds key).0 (rule_bounds key).1)

unfoldable pub validate_rules : String → Value → Checking (Unit {0})
unfolding validate_rule
validate_rules kind value = do
  _ ← object value [] (allowed_rules kind)
  rules ← as_map value
  each validate_rule rules

abbrev pub clone_values : String → List String
clone_values kind =
    if str_eq kind "secret"
    then "copy" ∷ "regenerate" ∷ "clear" ∷ "ask" ∷ []
    else "copy" ∷ "clear" ∷ "ask" ∷ []

unfoldable pub validate_initial : String → Value → Checking (Unit {0})
validate_initial kind value = do
  require (str_eq kind "secret")
  ignore (choice value ("generate" ∷ "ask" ∷ []))

abbrev pub input_keys : List String
input_keys =
    "description" ∷ "required" ∷ "default" ∷ "options" ∷ "validation" ∷ "clone" ∷ "initial"
    ∷ "advanced" ∷ []

abbrev pub input_kinds : List String
input_kinds = "string" ∷ "integer" ∷ "boolean" ∷ "select" ∷ "secret" ∷ []

unfoldable pub validate_input : Value → Checking (Unit {0})
unfolding validate_default validate_options validate_rules validate_initial
validate_input node = do
  _ ← object node ("label" ∷ "type" ∷ []) input_keys
  label ← field node "label"
  _ ← string_length label 1 100
  type ← field node "type"
  kind ← choice type input_kinds
  when_some (optional node "description") λ value. ignore (as_string value)
  when_some (optional node "required") λ value. ignore (as_boolean value)
  when_some (optional node "advanced") λ value. ignore (as_boolean value)
  when_some (optional node "default") (validate_default kind)
  validate_options kind (optional node "options")
  when_some (optional node "validation") (validate_rules kind)
  when_some (optional node "clone") λ value. ignore (choice value (clone_values kind))
  when_some (optional node "initial") (validate_initial kind)

unfoldable pub validate_missing : Bool → Value → Checking (Unit {0})
validate_missing environment value = do require environment; ignore (choice value ("omit" ∷ []))

unfoldable pub validate_reference : Bool → Value → Checking (Unit {0})
unfolding validate_missing
validate_reference environment node = do
  _ ← object node ("input" ∷ []) ("onMissing" ∷ [])
  input ← field node "input"
  _ ← as_string input
  when_some (optional node "onMissing") (validate_missing environment)

unfoldable pub validate_value : Bool → Value → Checking (Unit {0})
unfolding validate_reference
validate_value environment (Value.string _) = ok tt
validate_value environment (Value.integer _) = ok tt
validate_value environment (Value.boolean _) = ok tt
validate_value environment (Value.mapping fields) =
    validate_reference environment (Value.mapping fields)
validate_value environment (Value.sequence _) = err (refused TemplateError.template_error)

abbrev pub first_of : List Value → Option Value
first_of [] = none
first_of (x ∷ xs) = some x

unfoldable pub validate_command : Value → Checking (Unit {0})
unfolding validate_value
validate_command node = do
  items ← as_sequence node
  require (is_within 1 64 (length items))
  each (validate_value false) items
  program ← expect (first_of items)
  ignore (string_length program 1 16384)

unfoldable pub validate_port : Value → Checking (Unit {0})
validate_port node = do
  _ ← object node ("label" ∷ "container" ∷ []) ("defaultHost" ∷ [])
  label ← field node "label"
  _ ← string_length label 1 100
  container ← field node "container"
  _ ← integer_range container (pos 1) (pos 65535)
  when_some (optional node "defaultHost")
      λ value. ignore (integer_range value (pos 1024) (pos 65535))

unfoldable pub validate_storage : Value → Checking (Unit {0})
validate_storage node = do
  _ ← object node ("label" ∷ "container" ∷ []) []
  label ← field node "label"
  _ ← string_length label 1 100
  container ← field node "container"
  ignore (as_string container)

abbrev pub seen_before : List String → String → Bool
seen_before seen key = is_among seen key

unfoldable pub distinct_inputs : List Value → List String → Checking (Unit {0})
distinct_inputs [] seen = ok tt
distinct_inputs (item ∷ rest) seen = do
  key ← as_string item
  require (not (seen_before seen key))
  distinct_inputs rest (key ∷ seen)

unfoldable pub validate_connection_inputs : Value → Checking (Unit {0})
unfolding distinct_inputs
validate_connection_inputs value = do items ← as_sequence value; distinct_inputs items []

unfoldable pub validate_connection : Value → Checking (Unit {0})
unfolding validate_connection_inputs
validate_connection node = do
  _ ← object node ("label" ∷ "port" ∷ []) ("inputs" ∷ [])
  label ← field node "label"
  _ ← string_length label 1 100
  port ← field node "port"
  _ ← as_string port
  when_some (optional node "inputs") validate_connection_inputs

abbrev pub is_lower : ℕ → Bool
is_lower c = leb b'a' c && leb c b'z'

abbrev pub is_upper : ℕ → Bool
is_upper c = leb b'A' c && leb c b'Z'

abbrev pub is_numeral : ℕ → Bool
is_numeral c = leb b'0' c && leb c b'9'

abbrev pub is_variable_name : Text → Bool
is_variable_name [] = false
is_variable_name (c ∷ cs) =
    (is_lower c || is_upper c || c == b'_')
    && all (λ d. is_lower d || is_upper d || is_numeral d || d == b'_') cs

abbrev pub is_map_key : Text → Bool
is_map_key [] = false
is_map_key (c ∷ cs) =
    leb (length cs) 31 && is_lower c && all (λ d. is_lower d || is_numeral d || d == b'-') cs

abbrev pub is_key_for : Bool → Text → Bool
is_key_for environment key = if environment then is_variable_name key else is_map_key key

unfoldable pub validate_entry :
    Bool → (Value → Checking (Unit {0})) → String × Value → Checking (Unit {0})
validate_entry environment check (key, value) = do
  require (is_key_for environment (text_codes key))
  check value

unfoldable pub named_map : Bool → Value → ℕ → (Value → Checking (Unit {0})) → Checking (Unit {0})
unfolding validate_entry
named_map environment node maximum check = do
  entries ← as_map node
  require (is_within 0 maximum (length entries))
  each (validate_entry environment check) entries

unfoldable pub validate_health : Value → Checking (Unit {0})
unfolding validate_command
validate_health health = do
  _ ←
      object health ("command" ∷ [])
        ("intervalSeconds" ∷ "timeoutSeconds" ∷ "startPeriodSeconds" ∷ "retries" ∷ [])
  command ← field health "command"
  validate_command command
  when_some (optional health "intervalSeconds") λ v. ignore (integer_range v (pos 1) (pos 300))
  when_some (optional health "timeoutSeconds") λ v. ignore (integer_range v (pos 1) (pos 300))
  when_some (optional health "startPeriodSeconds") λ v. ignore (integer_range v (pos 0) (pos 600))
  when_some (optional health "retries") λ v. ignore (integer_range v (pos 1) (pos 120))

abbrev pub restart_values : List String
restart_values = "no" ∷ "on-failure" ∷ "always" ∷ "unless-stopped" ∷ []

abbrev pub service_keys : List String
service_keys = "environment" ∷ "command" ∷ "ports" ∷ "storage" ∷ "restart" ∷ "memoryLimitMiB" ∷ []

unfoldable pub validate_service : Value → Checking (Unit {0})
unfolding named_map validate_value validate_command validate_port validate_storage validate_health
validate_service node = do
  _ ← object node ("healthcheck" ∷ []) service_keys
  when_some (optional node "environment") λ v. named_map true v 128 (validate_value true)
  when_some (optional node "command") validate_command
  when_some (optional node "ports") λ v. named_map false v 16 validate_port
  when_some (optional node "storage") λ v. named_map false v 16 validate_storage
  health ← field node "healthcheck"
  validate_health health
  when_some (optional node "restart") λ v. ignore (choice v restart_values)
  when_some (optional node "memoryLimitMiB") λ v. ignore (integer_range v (pos 16) (pos 1048576))
