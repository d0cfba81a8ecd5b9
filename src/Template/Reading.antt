-- ===== src/Template/Reading.antt =====
-- crates/domain/src/template/validation.rs: the checks that the validation is built from. An error
-- has no content here: where it stands and what it says is left out.
use compose_nest.Common.{
  ℕ, ℤ, pos, negsuc, String, Bool, true, false, ◌&&◌, ◌||◌, List, [], ◌∷◌, ok, err, str_eq, leb,
  text_codes, any, all, length,
}
use compose_nest.Template.{Value, items_of, fields_of, Checked, refused, ◌>>=◌, ◌>>◌, unless}

pub data TemplateError : Type 0 where
  template_error : TemplateError

abbrev pub Checking : Type 0 → Type 0
Checking = Checked TemplateError

abbrev pub require : Bool → Checking (Unit {0})
require b = unless b template_error

-- A loop that stops at the first refusal.
abbrev pub each {ℓ} : {A : Type ℓ} → (A → Checking (Unit {0})) → List A → Checking (Unit {0})
each check [] = ok tt
each check (x ∷ xs) = check x >> each check xs

abbrev pub int_le : ℤ → ℤ → Bool
int_le (pos a) (pos b) = leb a b
int_le (pos a) (negsuc b) = false
int_le (negsuc a) (pos b) = true
int_le (negsuc a) (negsuc b) = leb b a

abbrev pub is_among : List String → String → Bool
is_among names key = any (λ n. str_eq n key) names

abbrev pub as_map : Value → Checking (List (String × Value))
as_map (Value.mapping fields) = ok (fields_of fields)
as_map _ = err (refused template_error)

abbrev pub as_sequence : Value → Checking (List Value)
as_sequence (Value.sequence items) = ok (items_of items)
as_sequence _ = err (refused template_error)

abbrev pub as_string : Value → Checking String
as_string (Value.string value) = ok value
as_string _ = err (refused template_error)

abbrev pub as_integer : Value → Checking ℤ
as_integer (Value.integer value) = ok value
as_integer _ = err (refused template_error)

abbrev pub as_boolean : Value → Checking Bool
as_boolean (Value.boolean value) = ok value
as_boolean _ = err (refused template_error)

abbrev pub has_entry : List (String × Value) → String → Bool
has_entry entries key = any (λ (e : String × Value). str_eq e.0 key) entries

-- A mapping with no key but the required and the optional ones, and with each required one.
unfoldable pub object : Value → List String → List String → Checking (List (String × Value))
object node required optional_keys = do
  entries ← as_map node
  require
      (all (λ (e : String × Value). is_among required e.0 || is_among optional_keys e.0) entries)
  require (all (has_entry entries) required)
  ok entries

abbrev pub is_within : ℕ → ℕ → ℕ → Bool
is_within minimum maximum count = leb minimum count && leb count maximum

unfoldable pub string_length : Value → ℕ → ℕ → Checking String
string_length node minimum maximum = do
  value ← as_string node
  require (is_within minimum maximum (length (text_codes value)))
  ok value

unfoldable pub integer_range : Value → ℤ → ℤ → Checking ℤ
integer_range node minimum maximum = do
  value ← as_integer node
  require (int_le minimum value && int_le value maximum)
  ok value

unfoldable pub choice : Value → List String → Checking String
choice node values = do value ← as_string node; require (is_among values value); ok value
