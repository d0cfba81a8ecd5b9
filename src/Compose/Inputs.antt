-- ===== src/Compose/Inputs.antt =====
-- crates/domain/src/compose.rs: the inputs of `generate`, and the texts that refer to them.
use compose_nest.Common.{
  ℤ, String, Bool, true, false, not, ◌&&◌, ◌||◌, Option, none, some, List, [], ◌∷◌, ok, err, str_eq,
  if◌then◌else◌, Text, text_codes, any, all, Map, lookup, insert, is_some,
}
use compose_nest.Template.{
  Value, items_of, optional, field, Checked, refused, panics, ◌>>=◌, ◌>>◌, unless,
}
use compose_nest.Compose.{
  InputValue, ComposeError, invalid_spec, invalid_allocation, input_text, decimal_int, truth,
}

abbrev pub keys_of : {A : Type 0} → List (String × A) → List String
keys_of [] = []
keys_of ((key, _) ∷ rest) = key ∷ keys_of rest

abbrev pub has_name : List String → String → Bool
has_name names key = any (λ n. str_eq n key) names

unfoldable pub check_keys : List String → List String → Bool → Checked ComposeError (Unit {0})
check_keys actual expected exact =
    unless (all (has_name expected) actual && (not exact || all (has_name actual) expected))
      invalid_allocation

abbrev pub string_in : Value → Checked ComposeError String
string_in (Value.string value) = ok value
string_in _ = err panics

abbrev pub integer_in : Option Value → ℤ → ℤ
integer_in (some (Value.integer value)) default = value
integer_in _ default = default

abbrev pub is_false : Option Value → Bool
is_false (some (Value.boolean false)) = true
is_false _ = false

-- Whether a value may stand for an input of a kind, or may be left out.
abbrev pub valid_input : String → Option InputValue → Bool → Bool
valid_input kind (some (InputValue.string _)) omissible =
    str_eq kind "string" || str_eq kind "select" || str_eq kind "secret"
valid_input kind (some (InputValue.integer _)) omissible = str_eq kind "integer"
valid_input kind (some (InputValue.boolean _)) omissible = str_eq kind "boolean"
valid_input kind none omissible = omissible

unfoldable pub check_definition : String → Value → Map InputValue → Checked ComposeError (Unit {0})
check_definition key definition inputs = do
  type ← field definition "type"
  kind ← string_in type
  unless (valid_input kind (lookup key inputs) (is_false (optional definition "required")))
      invalid_spec

unfoldable pub check_definitions :
    List (String × Value) → Map InputValue → Checked ComposeError (Unit {0})
unfolding check_definition
check_definitions [] inputs = ok tt
check_definitions ((key, definition) ∷ rest) inputs = do
  check_definition key definition inputs
  check_definitions rest inputs

abbrev pub as_spec_error : Checked ComposeError (Unit {0}) → Checked ComposeError (Unit {0})
as_spec_error (err (refused _)) = err (refused invalid_spec)
as_spec_error r = r

unfoldable pub check_inputs :
    List (String × Value) → Map InputValue → Checked ComposeError (Unit {0})
unfolding check_keys check_definitions
check_inputs definitions inputs = do
  as_spec_error (check_keys (keys_of inputs) (keys_of definitions) false)
  check_definitions definitions inputs

-- `inputs.get(name)` of a reference.
abbrev pub referred : Option InputValue → Bool → Checked ComposeError (Option Text)
referred (some value) omitted = ok (some (input_text value))
referred none omitted = if omitted then ok none else err (refused invalid_spec)

unfoldable pub resolve : Value → Map InputValue → Checked ComposeError (Option Text)
resolve (Value.string value) inputs = ok (some (text_codes value))
resolve (Value.integer value) inputs = ok (some (decimal_int value))
resolve (Value.boolean value) inputs = ok (some (truth value))
resolve (Value.mapping fields) inputs = do
  reference ← field (Value.mapping fields) "input"
  name ← string_in reference
  referred (lookup name inputs) (is_some (optional (Value.mapping fields) "onMissing"))
resolve (Value.sequence _) inputs = err (refused invalid_spec)

abbrev pub provided : Option Text → Checked ComposeError Text
provided (some value) = ok value
provided none = err (refused invalid_spec)

unfoldable pub resolve_items : List Value → Map InputValue → Checked ComposeError (List Text)
unfolding resolve
resolve_items [] inputs = ok []
resolve_items (item ∷ rest) inputs = do
  value ← resolve item inputs
  text ← provided value
  texts ← resolve_items rest inputs
  ok (text ∷ texts)

unfoldable pub resolve_argv : Value → Map InputValue → Checked ComposeError (List Text)
unfolding resolve_items
resolve_argv (Value.sequence items) inputs = resolve_items (items_of items) inputs
resolve_argv _ inputs = err (refused invalid_spec)

abbrev pub put_some : String → Option Text → Map Text → Map Text
put_some key (some value) m = insert key value m
put_some key none m = m

-- The loop over the environment of the service.
unfoldable pub environment_of :
    List (String × Value) → Map InputValue → Map Text → Checked ComposeError (Map Text)
unfolding resolve
environment_of [] inputs environment = ok environment
environment_of ((key, value) ∷ rest) inputs environment = do
  text ← resolve value inputs
  environment_of rest inputs (put_some key text environment)

unfoldable pub command_of :
    Option Value → Map InputValue → Checked ComposeError (Option (List Text))
unfolding resolve_argv
command_of none inputs = ok none
command_of (some node) inputs = do argv ← resolve_argv node inputs; ok (some argv)
