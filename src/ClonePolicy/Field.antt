-- ===== src/ClonePolicy/Field.antt =====
-- crates/domain/src/clone_policy.rs: one field of a plan, from its evaluation through the answers.
pub mod Kept
pub mod Confirmed
use compose_nest.Common.{
  ℕ, Bool, true, false, not, ◌&&◌, ◌||◌, Option, none, some, List, [], ◌∷◌, Result, ok, err, Exec,
  perform, pure, raise, ◌>>=◌, if◌then◌else◌, Text, is_some,
}
use compose_nest.ClonePolicy.{
  Policy, regenerate, ask, policy_eq, FieldKind, Value, value_eq, SecretRule, accepts_generator,
  PolicyError, not_allowed, invalid_answer, FieldDefinition, is_secret, effective_policy, accepts,
}
use compose_nest.ClonePolicy.Secret.{Call, Outside, generate_secret}

pub data Answer : Type 0 where
  copy generate clear : Answer
  input : Value → Answer

pub record EvaluatedField : Type 0 where
  pub definition : FieldDefinition
  pub source : Option Value
  pub candidate : Option Value
  pub answered : Bool
  pub inheritance_confirmed : Bool

abbrev pub option_eq : Option Value → Option Value → Bool
option_eq none none = true
option_eq (some a) (some b) = value_eq a b
option_eq _ _ = false

unfoldable pub inherits_secret : EvaluatedField → Bool
inherits_secret self =
    is_secret self.definition.kind && is_some self.candidate && option_eq self.candidate self.source

unfoldable pub is_ready : EvaluatedField → Bool
is_ready self =
    self.answered
    && (not self.definition.required || is_some self.candidate)
    && (not (inherits_secret self) || self.inheritance_confirmed)

unfoldable pub needs_secret_confirmation : EvaluatedField → Bool
unfolding inherits_secret
needs_secret_confirmation self = inherits_secret self && not self.inheritance_confirmed

abbrev pub secret_text : Value → Option Text
secret_text (Value.secret value) = some value
secret_text _ = none

-- `self.source.as_ref().and_then(secret_text)`
abbrev pub previous : Option Value → Option Text
previous none = none
previous (some value) = secret_text value

-- The kinds that `evaluate` takes.
unfoldable pub is_input : FieldKind → Bool
is_input FieldKind.string = true
is_input FieldKind.integer = true
is_input FieldKind.boolean = true
is_input FieldKind.select = true
is_input FieldKind.secret = true
is_input _ = false

-- `source.is_none_or(|value| definition.accepts(value))`, and the same with `is_some_and`.
abbrev pub none_or_accepted : FieldDefinition → Option Value → Bool
none_or_accepted definition none = true
none_or_accepted definition (some value) = accepts definition value

abbrev pub some_and_accepted : FieldDefinition → Option Value → Bool
some_and_accepted definition none = false
some_and_accepted definition (some value) = accepts definition value

abbrev pub generator_fits : FieldDefinition → Option SecretRule → Bool
generator_fits definition none = false
generator_fits definition (some rule) = is_secret definition.kind && accepts_generator rule

module _ (outside : Outside) where
  unfoldable pub fresh : Option Value → List Text → Exec Call PolicyError (Option Value)
  fresh source others = do
    text ← generate_secret outside (previous source) others
    pure (some (Value.secret text))

  -- `match policy`
  unfoldable pub first_candidate :
      Policy → Bool → Option Value → List Text → Exec Call PolicyError (Option Value)
  first_candidate Policy.copy valid_source source others =
      pure (if valid_source then source else none)
  first_candidate regenerate valid_source source others = fresh source others
  first_candidate _ valid_source source others = pure none

  -- `evaluate`, once the policy is known.
  unfoldable pub evaluate_by :
      FieldDefinition
      → Option Value
      → List Text
      → Result Policy PolicyError
      → Exec Call PolicyError EvaluatedField
  evaluate_by definition source others (err e) = raise e
  evaluate_by definition source others (ok policy) =
      if not (is_input definition.kind) then raise not_allowed else (do
        candidate ← first_candidate policy (none_or_accepted definition source) source others
        pure (record {
          definition = definition;
          source = source;
          candidate = candidate;
          answered =
              not (policy_eq policy ask)
              && (not (policy_eq policy Policy.copy) || none_or_accepted definition source);
          inheritance_confirmed = false;
        }))

  unfoldable pub evaluate :
      FieldDefinition → Option Value → List Text → Exec Call PolicyError EvaluatedField
  unfolding evaluate_by
  evaluate definition source others =
      evaluate_by definition source others (effective_policy definition)

  -- `match answer`
  unfoldable pub answer_candidate :
      EvaluatedField → Answer → List Text → Exec Call PolicyError (Option Value)
  answer_candidate self Answer.copy others =
      if some_and_accepted self.definition self.source
      then pure self.source
      else raise invalid_answer
  answer_candidate self generate others =
      if generator_fits self.definition self.definition.secret_rule
      then fresh self.source others
      else raise invalid_answer
  answer_candidate self (input value) others =
      if accepts self.definition value then pure (some value) else raise invalid_answer
  answer_candidate self clear others =
      if not self.definition.required then pure none else raise invalid_answer

  -- On an error the field stays as it was: it is assigned only at the end.
  unfoldable pub answer : EvaluatedField → Answer → List Text → Exec Call PolicyError EvaluatedField
  answer self given others = do
    candidate ← answer_candidate self given others
    pure (record self { candidate = candidate; answered = true; inheritance_confirmed = false })

unfoldable pub confirm_secret_inheritance : EvaluatedField → Result EvaluatedField PolicyError
confirm_secret_inheritance self =
    if not (inherits_secret self)
    then err invalid_answer
    else ok (record self { inheritance_confirmed = true })
