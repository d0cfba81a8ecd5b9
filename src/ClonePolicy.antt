-- ===== src/ClonePolicy.antt =====
-- crates/domain/src/clone_policy.rs: the Clone policies of schema version 1 and the fields that are
-- evaluated by them. A text is the list of its characters, as `chars()` gives them.
pub mod Secret
pub mod Field
pub mod Volumes
use compose_nest.Common.{
  ℕ, ℤ, int_eq, Bool, true, false, not, ◌&&◌, ◌||◌, Option, none, some, Result, ok, err, leb, ltb,
  if◌then◌else◌, length, Text, text_eq, is_some, List, ◌++◌, ◌∷◌,
}
use compose_nest.Identity.{InstanceId, SlotId, compose_project_name}

pub data RandomError : Type 0 where
  random_error : RandomError

pub data Policy : Type 0 where
  copy regenerate next_available clear ask : Policy

pub data FieldKind : Type 0 where
  string integer boolean select secret display_name host_port container_port : FieldKind
  instance_id project storage storage_method service_version image service_name : FieldKind

unfoldable pub default_policy : FieldKind → Policy
default_policy string = copy
default_policy integer = copy
default_policy boolean = copy
default_policy select = copy
default_policy container_port = copy
default_policy storage_method = copy
default_policy service_version = copy
default_policy image = copy
default_policy service_name = copy
default_policy secret = regenerate
default_policy instance_id = regenerate
default_policy project = regenerate
default_policy storage = regenerate
default_policy host_port = next_available
default_policy display_name = ask

abbrev pub policy_eq : Policy → Policy → Bool
policy_eq copy copy = true
policy_eq regenerate regenerate = true
policy_eq next_available next_available = true
policy_eq clear clear = true
policy_eq ask ask = true
policy_eq _ _ = false

-- `matches!(policy, Copy | Clear | Ask)`
abbrev pub is_copy_clear_ask : Policy → Bool
is_copy_clear_ask p = policy_eq p copy || policy_eq p clear || policy_eq p ask

unfoldable pub permits : FieldKind → Policy → Bool
permits string p = is_copy_clear_ask p
permits integer p = is_copy_clear_ask p
permits boolean p = is_copy_clear_ask p
permits select p = is_copy_clear_ask p
permits secret p = is_copy_clear_ask p || policy_eq p regenerate
permits display_name p = policy_eq p ask
permits host_port p = policy_eq p next_available
permits container_port p = policy_eq p copy
permits service_name p = policy_eq p copy
permits storage_method p = policy_eq p copy || policy_eq p ask
permits service_version p = policy_eq p copy || policy_eq p ask
permits instance_id p = policy_eq p regenerate
permits project p = policy_eq p regenerate
permits storage p = policy_eq p regenerate
permits image p = false

pub data Value : Type 0 where
  string : Text → Value
  integer : ℤ → Value
  boolean : Bool → Value
  select : Text → Value
  secret : Text → Value

abbrev pub bool_eq : Bool → Bool → Bool
bool_eq true b = b
bool_eq false b = not b

-- The derived equality.
unfoldable pub value_eq : Value → Value → Bool
value_eq (Value.string a) (Value.string b) = text_eq a b
value_eq (Value.integer a) (Value.integer b) = int_eq a b
value_eq (Value.boolean a) (Value.boolean b) = bool_eq a b
value_eq (Value.select a) (Value.select b) = text_eq a b
value_eq (Value.secret a) (Value.secret b) = text_eq a b
value_eq _ _ = false

pub record SecretRule : Type 0 where
  pub min_length : ℕ
  pub max_length : ℕ
  pub accepts_generator_alphabet : Bool

unfoldable pub accepts_generator : SecretRule → Bool
accepts_generator rule =
    leb rule.min_length 32 && leb 32 rule.max_length && rule.accepts_generator_alphabet

unfoldable pub accepts_input : SecretRule → Text → Bool
accepts_input rule value = leb rule.min_length (length value) && leb (length value) rule.max_length

pub data PolicyError : Type 0 where
  not_allowed invalid_definition generator_incompatible invalid_value : PolicyError
  invalid_answer generation_failed availability_unknown : PolicyError

pub record FieldDefinition : Type 0 where
  pub kind : FieldKind
  pub required : Bool
  pub policy : Option Policy
  pub secret_rule : Option SecretRule

abbrev pub is_secret : FieldKind → Bool
is_secret FieldKind.secret = true
is_secret _ = false

-- `self.policy.unwrap_or(self.kind.default_policy())`
abbrev pub policy_or : Option Policy → Policy → Policy
policy_or none d = d
policy_or (some p) d = p

-- The checks on a secret's rule.
unfoldable pub check_rule : Option SecretRule → Policy → Result Policy PolicyError
check_rule none p = err invalid_definition
check_rule (some rule) p =
    if ltb rule.max_length rule.min_length
    then err invalid_definition
    else if policy_eq p regenerate && not (accepts_generator rule)
    then err generator_incompatible
    else ok p

unfoldable pub effective_policy : FieldDefinition → Result Policy PolicyError
unfolding check_rule default_policy permits
effective_policy self =
    let p = policy_or self.policy (default_policy self.kind) in
    if is_some self.policy && not (permits self.kind p)
    then err not_allowed
    else if is_secret self.kind
    then check_rule self.secret_rule p
    else if is_some self.secret_rule
    then err invalid_definition
    else ok p

-- `is_some_and`
abbrev pub rule_accepts : Option SecretRule → Text → Bool
rule_accepts none value = false
rule_accepts (some rule) value = accepts_input rule value

-- The `match` of `accepts`, on the kind and the value.
unfoldable pub kind_accepts : FieldKind → Option SecretRule → Value → Bool
kind_accepts FieldKind.string rule (Value.string _) = true
kind_accepts FieldKind.integer rule (Value.integer _) = true
kind_accepts FieldKind.boolean rule (Value.boolean _) = true
kind_accepts FieldKind.select rule (Value.select _) = true
kind_accepts FieldKind.secret rule (Value.secret s) = rule_accepts rule s
kind_accepts _ rule _ = false

unfoldable pub accepts : FieldDefinition → Value → Bool
unfolding kind_accepts
accepts self value = kind_accepts self.kind self.secret_rule value

unfoldable pub named_volume : InstanceId → SlotId → Text
named_volume id slot = compose_project_name id ++ b'-' ∷ slot.bytes
