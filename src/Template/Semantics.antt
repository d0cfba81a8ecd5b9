-- ===== src/Template/Semantics.antt =====
-- crates/domain/src/template/semantics.rs: the checks of a version across its parts, which
-- `resolve_version` makes. Regular expressions are a third-party engine's.
use compose_nest.Common.{
  ℕ, ℤ, pos, String, Bool, true, false, not, ◌&&◌, ◌||◌, Option, none, some, List, [], ◌∷◌, ok, err,
  str_eq, ltb, leb, if◌then◌else◌, Text, text_codes, text_eq, any, length, ◌==◌, int_eq, is_some,
}
use compose_nest.Template.{Value, items_of, entries, entry, optional, field, refused, ◌>>=◌, ◌>>◌}
use compose_nest.Template.Reading.{TemplateError, Checking, require, each, int_le, is_among}
use compose_nest.Template.Validation.{safe_min, safe_max}
use compose_nest.Template.Structure.{VersionDefinition}

-- `Regex`: whether a pattern compiles, and whether it matches a text from end to end.
pub record Patterns : Type 0 where
  pub compiles : String → Bool
  pub matches : String → String → Bool

-- Of a warning, the input that it names.
pub record ResolvedVersion : Type 0 where
  pub key : String
  pub definition : VersionDefinition
  pub input_policies : List (String × String)
  pub unused_inputs : List String

abbrev pub scalar_of : Option Value → Option String
scalar_of (some (Value.string value)) = some value
scalar_of _ = none

abbrev pub number_of : Option Value → Option ℤ
number_of (some (Value.integer value)) = some value
number_of _ = none

abbrev pub unwrap_or : {A : Type 0} → Option A → A → A
unwrap_or none default = default
unwrap_or (some a) default = a

-- `validation.and_then(|v| optional(v, key))`
abbrev pub rule_of : Option Value → String → Option Value
rule_of none key = none
rule_of (some rules) key = optional rules key

abbrev pub sequence_in : Option Value → Option (List Value)
sequence_in (some (Value.sequence items)) = some (items_of items)
sequence_in _ = none

abbrev pub is_value : Value → Option String → Bool
is_value node none = false
is_value node (some value) = elim (scalar_of (some node)) [ some s ↦ str_eq s value | none ↦ false ]

unfoldable pub distinct_options : List Value → List String → Checking (Unit {0})
distinct_options [] seen = ok tt
distinct_options (item ∷ rest) seen = do
  node ← field item "value"
  require (not (is_among seen (unwrap_or (scalar_of (some node)) "")))
  distinct_options rest (unwrap_or (scalar_of (some node)) "" ∷ seen)

unfoldable pub any_option : List Value → String → Checking Bool
any_option [] value = ok false
any_option (item ∷ rest) value = do
  node ← field item "value"
  let later = any_option rest value
  if is_value node (some value) then ok true else later

-- The rules of an input, with what holds when one is left out.
pub record Rules : Type 0 where
  pub minimum : ℤ
  pub maximum : ℤ
  pub low : ℤ
  pub high : ℤ
  pub pattern : Option Value

abbrev pub rules_of : Option Value → String → Rules
rules_of validation kind = record {
  minimum =
      unwrap_or (number_of (rule_of validation "minLength"))
        (if str_eq kind "secret" then pos 1 else pos 0);
  maximum = unwrap_or (number_of (rule_of validation "maxLength")) (pos 4096);
  low = unwrap_or (number_of (rule_of validation "min")) safe_min;
  high = unwrap_or (number_of (rule_of validation "max")) safe_max;
  pattern = rule_of validation "pattern";
}

abbrev pub is_control : ℕ → Bool
is_control c = ltb c 32 || leb 127 c && ltb c 160

abbrev pub check_options : Option (List Value) → Checking (Unit {0})
check_options none = ok tt
check_options (some items) = distinct_options items []

abbrev pub select_default : Option (List Value) → String → Checking (Unit {0})
select_default none value = require false
select_default (some items) value = any_option items value >>= λ found. require found

module _ (patterns : Patterns) where
  abbrev pub pattern_compiles : Option Value → Bool
  pattern_compiles none = true
  pattern_compiles (some node) = patterns.compiles (unwrap_or (scalar_of (some node)) "")

  abbrev pub pattern_matches : Option Value → String → Bool
  pattern_matches none value = true
  pattern_matches (some node) value = patterns.matches (unwrap_or (scalar_of (some node)) "") value

  abbrev pub string_fits : Rules → String → Bool
  string_fits rules value =
      int_le rules.minimum (pos (length (text_codes value)))
      && int_le (pos (length (text_codes value))) rules.maximum
      && not (any is_control (text_codes value))
      && pattern_matches rules.pattern value

  unfoldable pub check_default :
      String → Rules → Option (List Value) → Option Value → Checking (Unit {0})
  check_default kind rules options none = ok tt
  check_default kind rules options (some (Value.string value)) =
      if str_eq kind "string"
      then require (string_fits rules value)
      else if str_eq kind "select"
      then select_default options value
      else require false
  check_default kind rules options (some (Value.integer value)) =
      require (str_eq kind "integer" && int_le rules.low value && int_le value rules.high)
  check_default kind rules options (some (Value.boolean _)) = require (str_eq kind "boolean")
  check_default kind rules options (some _) = require false

  abbrev pub secret_fits : Value → Rules → Bool
  secret_fits input rules =
      not (
        str_eq (unwrap_or (scalar_of (optional input "initial")) "generate") "generate"
        || str_eq (unwrap_or (scalar_of (optional input "clone")) "regenerate") "regenerate")
      || int_le rules.minimum (pos 32)
        && int_le (pos 32) rules.maximum
        && not (is_some rules.pattern)

  unfoldable pub validate_input_semantics : Value → String → Checking (Unit {0})
  unfolding distinct_options check_default
  validate_input_semantics input kind = do
    let rules = rules_of (optional input "validation") kind
    require (int_le rules.minimum rules.maximum && int_le rules.low rules.high)
    require (pattern_compiles rules.pattern)
    check_options (sequence_in (optional input "options"))
    check_default kind rules (sequence_in (optional input "options")) (optional input "default")
    require (not (str_eq kind "secret") || secret_fits input rules)

abbrev pub is_required : Option Value → Bool
is_required (some (Value.boolean false)) = false
is_required _ = true

unfoldable pub check_reference :
    Bool → Bool → Option Value → String → List String → Checking (List String)
check_reference environment omit none name used = err (refused TemplateError.template_error)
check_reference environment omit (some input) name used = do
  require (not (is_required (optional input "required") && omit))
  require (is_required (optional input "required") || environment && omit)
  ok (name ∷ used)

-- The reference of a value, with the inputs that were used before.
unfoldable pub validate_reference :
    Value → List (String × Value) → Bool → List String → Checking (List String)
unfolding check_reference
validate_reference (Value.mapping fs) inputs environment used = do
  reference ← field (Value.mapping fs) "input"
  check_reference environment (is_some (optional (Value.mapping fs) "onMissing"))
      (entry (unwrap_or (scalar_of (some reference)) "") inputs)
      (unwrap_or (scalar_of (some reference)) "") used
validate_reference _ inputs environment used = ok used

unfoldable pub validate_references :
    List Value → List (String × Value) → Bool → List String → Checking (List String)
unfolding validate_reference
validate_references [] inputs environment used = ok used
validate_references (value ∷ rest) inputs environment used = do
  more ← validate_reference value inputs environment used
  validate_references rest inputs environment more

abbrev pub command_items : Option Value → List Value
command_items (some (Value.sequence items)) = items_of items
command_items _ = []

unfoldable pub validate_ports : List (String × Value) → List ℤ → Checking (Unit {0})
validate_ports [] seen = ok tt
validate_ports ((name, port) ∷ rest) seen = do
  node ← field port "container"
  require (not (any (int_eq (unwrap_or (number_of (some node)) (pos 0))) seen))
  validate_ports rest (unwrap_or (number_of (some node)) (pos 0) ∷ seen)

-- `split('/')`
abbrev pub split_path : Text → List Text
split_path [] = [] ∷ []
split_path (c ∷ cs) = elim (split_path cs) [
  | [] ↦ []
  | part ∷ parts ↦ if c == b'/' then [] ∷ part ∷ parts else (c ∷ part) ∷ parts
]

abbrev pub segments_of : List Text → List Text
segments_of [] = []
segments_of (part ∷ parts) =
    let rest = segments_of parts in
    if text_eq part [] || text_eq part (b'.' ∷ []) then rest else part ∷ rest

abbrev pub starts_with : List Text → List Text → Bool
starts_with [] path = true
starts_with (part ∷ parts) [] = false
starts_with (part ∷ parts) (other ∷ others) = text_eq part other && starts_with parts others

abbrev pub is_rooted : Text → Bool
is_rooted [] = false
is_rooted (c ∷ cs) = c == b'/'

abbrev pub is_nil : List Text → Bool
is_nil [] = true
is_nil (x ∷ xs) = false

abbrev pub is_target : Text → Bool
is_target path =
    is_rooted path
    && not (is_nil (segments_of (split_path path)))
    && not (any (text_eq (b'.' ∷ b'.' ∷ [])) (split_path path))
    && not (any is_control path)

abbrev pub overlaps : List Text → List Text → Bool
overlaps segments other = starts_with other segments || starts_with segments other

unfoldable pub validate_storage : List (String × Value) → List (List Text) → Checking (Unit {0})
validate_storage [] paths = ok tt
validate_storage ((name, slot) ∷ rest) paths = do
  target ← field slot "container"
  let path = text_codes (unwrap_or (scalar_of (some target)) "")
  require (is_target path)
  require (not (any (overlaps (segments_of (split_path path))) paths))
  validate_storage rest (segments_of (split_path path) ∷ paths)

abbrev pub names_one : List (String × Value) → Option String → Bool
names_one entries none = false
names_one entries (some name) = any (λ (e : String × Value). str_eq e.0 name) entries

unfoldable pub validate_connections :
    List (String × Value) → List (String × Value) → List (String × Value) → Checking (Unit {0})
validate_connections [] ports inputs = ok tt
validate_connections ((name, connection) ∷ rest) ports inputs = do
  port ← field connection "port"
  require (names_one ports (scalar_of (some port)))
  each (λ item. require (names_one inputs (scalar_of (some item))))
      (command_items (optional connection "inputs"))
  validate_connections rest ports inputs
