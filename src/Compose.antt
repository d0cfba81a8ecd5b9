-- ===== src/Compose.antt =====
-- crates/domain/src/compose.rs: `generate`, which builds a Compose model from a template snapshot
-- and the records that were confirmed.
pub mod Inputs
pub mod Allocations
pub mod Generate
pub mod Isolation
pub mod Digest
pub mod Apart
pub mod Sure
pub mod Scalar
pub mod Resolved
use compose_nest.Common.{
  ℕ, zero, suc, ◌+◌, ◌-◌, ◌*◌, ◌/◌, ◌%◌, ◌^◌, ℤ, pos, negsuc, String, Bool, true, false, not, ◌&&◌,
  ◌||◌, Option, none, some, List, [], ◌∷◌, ◌++◌, Result, ok, err, str_eq, ◌==◌, ltb, leb,
  if◌then◌else◌, Text, text_codes, text_eq, any, all, length, Map, lookup, insert, map, is_some,
}
use compose_nest.Identity.{InstanceId, compose_project_name, hex}
use compose_nest.Instance.{StoragePresence}
use compose_nest.Template.Structure.{VersionDefinition}
use compose_nest.Template.{
  Value, Items, items_of, entries, optional, field, Checked, refused, panics, ◌>>=◌, ◌>>◌, unless,
  expect,
}

-- `to_string` of an unsigned integer of 64 bits, which has at most twenty digits.
abbrev pub digits : ℕ → ℕ → Text
digits zero n = []
digits (suc fuel) n =
    let higher = digits fuel (n / 10) in
    if ltb n 10 then (b'0' + n) ∷ [] else higher ++ ((b'0' + n % 10) ∷ [])

abbrev pub decimal : ℕ → Text
decimal n = digits 20 n

abbrev pub decimal_int : ℤ → Text
decimal_int (pos n) = decimal n
decimal_int (negsuc n) = b'-' ∷ decimal (n + 1)

pub data InputValue : Type 0 where
  string : String → InputValue
  integer : ℤ → InputValue
  boolean : Bool → InputValue

abbrev pub truth : Bool → Text
truth b = if b then text_codes "true" else text_codes "false"

abbrev pub input_text : InputValue → Text
input_text (InputValue.string value) = text_codes value
input_text (InputValue.integer value) = decimal_int value
input_text (InputValue.boolean value) = truth value

pub data Storage : Type 0 where
  bind : String → Storage
  volume : String → StoragePresence → Storage

-- A version of the snapshot; its other parts play no role here.
pub record Version : Type 0 where
  pub key : String
  pub definition : VersionDefinition

pub record ConfirmedCompose : Type 0 where
  pub snapshot : List Version
  pub version : String
  pub instance_id : InstanceId
  pub scope_id : String
  pub spec_revision : ℕ
  pub inputs : Map InputValue
  pub ports : Map ℕ
  pub storage : Map Storage
  pub source_image : String
  pub execution_image : String
  pub platform : String

pub data ComposeError : Type 0 where
  missing_version invalid_spec invalid_image invalid_allocation serialization : ComposeError

pub record ComposeService : Type 0 where
  pub image : String
  pub platform : String
  pub environment : Map Text
  pub command : Option (List Text)
  pub healthcheck : List Text
  pub health_timing : ℤ × ℤ × ℤ × ℤ
  pub ports : List (ℕ × ℕ)
  pub mounts : List (Storage × String)
  pub restart : String
  pub mem_limit : Option ℤ
  pub labels : Map Text

pub record ComposeModel : Type 0 where
  pub name : Text
  pub service : ComposeService
  pub volumes : List String

abbrev pub find_version : String → List Version → Option Version
find_version key [] = none
find_version key (v ∷ vs) =
    let rest = find_version key vs in if str_eq v.key key then some v else rest

-- `split(c).next()`
abbrev pub before_first : ℕ → Text → Text
before_first c [] = []
before_first c (x ∷ xs) = let rest = before_first c xs in if x == c then [] else x ∷ rest

-- `rsplit_once(c)`
abbrev pub rsplit_once : ℕ → Text → Option (Text × Text)
rsplit_once c [] = none
rsplit_once c (x ∷ xs) = elim (rsplit_once c xs) [
  | some (a, b) ↦ some (x ∷ a, b)
  | none ↦ if x == c then some ([], xs) else none
]

abbrev pub strip_prefix : Text → Text → Option Text
strip_prefix [] s = some s
strip_prefix (p ∷ ps) [] = none
strip_prefix (p ∷ ps) (x ∷ xs) = let rest = strip_prefix ps xs in if p == x then rest else none

-- `split_once(pattern)`
abbrev pub split_once : Text → Text → Option (Text × Text)
split_once pattern [] = none
split_once pattern (x ∷ xs) =
    let later = split_once pattern xs in
    elim (strip_prefix pattern (x ∷ xs)) [
      | some rest ↦ some ([], rest)
      | none ↦ elim later [ some (a, b) ↦ some (x ∷ a, b) | none ↦ none ]
    ]

abbrev pub has_char : ℕ → Text → Bool
has_char c s = any (λ x. x == c) s

-- The repository of an image reference: without its digest, and without a tag.
abbrev pub without_tag : Text → Option (Text × Text) → Text
without_tag reference none = reference
without_tag reference (some (name, suffix)) = if has_char b'/' suffix then reference else name

unfoldable pub repository_of : Text → Text
repository_of image =
    without_tag (before_first b'@' image) (rsplit_once b':' (before_first b'@' image))

abbrev pub is_hex_digit : ℕ → Bool
is_hex_digit c = leb b'0' c && leb c b'9' || leb b'a' c && leb c b'f' || leb b'A' c && leb c b'F'

abbrev pub is_name_of : Text → Text → Bool
is_name_of repository name =
    text_eq name repository
    || text_eq name (text_codes "docker.io/" ++ repository)
    || not (has_char b'/' repository)
      && text_eq name (text_codes "docker.io/library/" ++ repository)

unfoldable pub is_pinned : Text → Option (Text × Text) → Bool
is_pinned repository none = false
is_pinned repository (some (name, digest)) =
    is_name_of repository name && length digest == 64 && all is_hex_digit digest

unfoldable pub valid_digest : ConfirmedCompose → Bool
unfolding repository_of is_pinned
valid_digest source =
    is_pinned (repository_of (text_codes source.source_image))
      (split_once (text_codes "@sha256:") (text_codes source.execution_image))

unfoldable pub check_image : ConfirmedCompose → Version → Checked ComposeError (Unit {0})
unfolding valid_digest
check_image source version =
    unless
      (not (source.spec_revision == 0)
        && not (str_eq source.scope_id "")
        && str_eq source.source_image version.definition.image
        && any (λ p. str_eq p source.platform) version.definition.platforms
        && valid_digest source)
      invalid_image
