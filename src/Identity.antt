-- ===== src/Identity.antt =====
-- crates/domain/src/identity.rs: validated display names, instance IDs and slot IDs. A display name
-- is a list of code points; a slot ID is the list of its UTF-8 bytes. Unicode normalization is a
-- third-party crate and comes in as the parameter `nfc`.
pub mod Names
use compose_nest.Common.{
  ℕ, zero, suc, ◌+◌, ◌-◌, ◌*◌, ◌/◌, ◌%◌, Bool, true, false, not, ◌&&◌, ◌||◌, Option, none, some,
  List, [], ◌∷◌, ◌++◌, Result, ok, err, ltb, leb, ◌==◌, if◌then◌else◌, length, any, all, Text,
  text_eq,
}
use mathlib.Core.List.{reverse}

pub data DisplayNameError : Type 0 where
  empty too_long control_character : DisplayNameError

-- The newtype around the canonical spelling.
pub record DisplayName : Type 0 where
  pub text : Text

-- `char::is_control`: the general category Cc.
unfoldable pub is_control : ℕ → Bool
is_control c = leb c 0x1f || (leb 0x7f c && leb c 0x9f)

-- `char::is_whitespace`: the property White_Space.
unfoldable pub is_whitespace : ℕ → Bool
is_whitespace c =
    (leb 0x9 c && leb c 0xd)
    || c == 0x20
    || c == 0x85
    || c == 0xa0
    || c == 0x1680
    || (leb 0x2000 c && leb c 0x200a)
    || c == 0x2028
    || c == 0x2029
    || c == 0x202f
    || c == 0x205f
    || c == 0x3000

unfoldable pub trim_start : Text → Text
trim_start [] = []
trim_start (c ∷ s) = let rest = trim_start s in if is_whitespace c then rest else c ∷ s

unfoldable pub trim_end : Text → Text
trim_end [] = []
trim_end (c ∷ s) = elim (trim_end s) [
  | [] ↦ if is_whitespace c then [] else c ∷ []
  | d ∷ t ↦ c ∷ d ∷ t
]

unfoldable pub trim : Text → Text
unfolding trim_start trim_end
trim s = trim_end (trim_start s)

unfoldable pub check_name : Text → Result DisplayName DisplayNameError
check_name normalized =
    if length normalized == 0
    then err empty
    else if ltb 100 (length normalized)
    then err too_long
    else ok (record { text = normalized })

-- `DisplayName::parse`
unfoldable pub parse_name : (Text → Text) → Text → Result DisplayName DisplayNameError
unfolding check_name
parse_name nfc input =
    if any is_control input then err control_character else check_name (nfc (trim input))

-- The derived equality.
unfoldable pub name_eq : DisplayName → DisplayName → Bool
name_eq a b = text_eq a.text b.text

-- The newtype around `u128`.
pub record InstanceId : Type 0 where
  pub value : ℕ

-- The lower-case digit of a value below 16.
unfoldable pub hex_digit : ℕ → ℕ
hex_digit d = if ltb d 10 then b'0' + d else b'a' + (d - 10)

-- The `n` last digits in base 16, most significant first: `{:032x}` at a value below `16 ^ n`.
unfoldable pub hex : ℕ → ℕ → Text
unfolding hex_digit
hex zero v = []
hex (suc n) v = hex n (v / 16) ++ hex_digit (v % 16) ∷ []

unfoldable pub compose_project_name : InstanceId → Text
compose_project_name id = b'c' ∷ b'n' ∷ b'-' ∷ hex 32 id.value

pub record SlotId : Type 0 where
  pub bytes : Text

pub data SlotIdError : Type 0 where
  slot_id_error : SlotIdError

unfoldable pub is_ascii_lowercase : ℕ → Bool
is_ascii_lowercase b = leb b'a' b && leb b b'z'

unfoldable pub is_ascii_digit : ℕ → Bool
is_ascii_digit b = leb b'0' b && leb b b'9'

unfoldable pub slot_byte : ℕ → Bool
unfolding is_ascii_lowercase is_ascii_digit
slot_byte b = is_ascii_lowercase b || is_ascii_digit b || b == b'-'

-- `SlotId::parse` on the bytes of its input.
unfoldable pub parse_slot : Text → Result SlotId SlotIdError
unfolding is_ascii_lowercase slot_byte
parse_slot [] = err slot_id_error
parse_slot (b ∷ bytes) =
    if ltb 32 (length (b ∷ bytes)) || not (is_ascii_lowercase b)
    then err slot_id_error
    else if not (all slot_byte bytes)
    then err slot_id_error
    else ok (record { bytes = b ∷ bytes })
