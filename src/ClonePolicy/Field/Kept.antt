-- ===== src/ClonePolicy/Field/Kept.antt =====
-- crates/domain/src/clone_policy.rs: what a field keeps through its evaluation and every answer.
use compose_nest.Common.{
  ◌+◌, ◌≡◌, refl, true, false, not, ◌&&◌, ◌||◌, Option, none, some, List, Result, ok, err, arith,
  length, Text, pure, ◌>>=◌, Bool-cases, inl, inr, Option-cases, if◌then◌else◌, resume,
}
use compose_nest.ClonePolicy.{
  Policy, regenerate, ask, policy_eq, FieldKind, Value, SecretRule, PolicyError, FieldDefinition,
  effective_policy, accepts, accepts_generator, accepts_input,
}
use compose_nest.ClonePolicy.Secret.{Call, Outside, generate_secret}
use compose_nest.ClonePolicy.Secret.Fresh.{FillsBuffer, IsFresh, generate_secret-IsFresh}
use compose_nest.ClonePolicy.Field.{
  Answer, generate, clear, input, EvaluatedField, inherits_secret, previous, is_input,
  none_or_accepted, some_and_accepted, generator_fits, fresh, first_candidate, evaluate_by,
  evaluate, answer_candidate, answer,
}

-- The candidate, if there is one, satisfies the definition.
abbrev pub Fits : FieldDefinition → Option Value → Type 0
Fits definition none = Unit
Fits definition (some value) = accepts definition value ≡ true

-- What holds of a field at any time: its candidate satisfies its definition, and a confirmation
-- stands only while the candidate is the source's own secret.
pub record IsKept (f : EvaluatedField) : Type 0 where
  pub typed : Fits f.definition f.candidate
  pub confirmed : f.inheritance_confirmed ≡ true → inherits_secret f ≡ true

secret_fits :
    (definition : FieldDefinition) (rule : SecretRule) (s : Text)
    → definition.kind ≡ FieldKind.secret
    → definition.secret_rule ≡ some rule
    → accepts_generator rule ≡ true
    → length s ≡ 32
    → accepts definition (Value.secret s) ≡ true
unfolding accepts accepts_generator accepts_input
secret_fits definition rule s k r g full = ground arith

copy-Fits :
    (definition : FieldDefinition) (source : Option Value)
    → some_and_accepted definition source ≡ true
    → Fits definition source
copy-Fits definition none h = tt
copy-Fits definition (some v) h = h

copy_or_none-Fits :
    (definition : FieldDefinition) (source : Option Value)
    → Fits definition (if none_or_accepted definition source then source else none)
copy_or_none-Fits definition none = tt
copy_or_none-Fits definition (some v) = elim (Bool-cases (accepts definition v)) [
  | inl yes_it_is ↦ rw yes_it_is yes_it_is
  | inr not_it ↦ rw not_it tt
]

-- A field is generated for only if it is a secret whose rule the generator satisfies.
regenerate_needs :
    (definition : FieldDefinition)
    → effective_policy definition ≡ ok regenerate
    → is_input definition.kind ≡ true
    → (definition.kind ≡ FieldKind.secret)
      × ((rule : SecretRule) × (definition.secret_rule ≡ some rule)
          × (accepts_generator rule ≡ true))
unfolding effective_policy is_input
regenerate_needs definition e i = elim (Option-cases definition.secret_rule) [
  | inl no_rule ↦ absurd (ground arith)
  | inr (rule, r) ↦ (ground arith, (rule, r, ground arith))
]

generator_needs :
    (definition : FieldDefinition)
    → generator_fits definition definition.secret_rule ≡ true
    → (definition.kind ≡ FieldKind.secret)
      × ((rule : SecretRule) × (definition.secret_rule ≡ some rule)
          × (accepts_generator rule ≡ true))
generator_needs definition g = elim (Option-cases definition.secret_rule) [
  | inl no_rule ↦ absurd (ground arith)
  | inr (rule, r) ↦ (ground arith, (rule, r, ground arith))
]

module _ (outside : Outside) (fills : FillsBuffer outside) where
  -- The states in which `evaluate` and `answer` may leave a field.
  abbrev pub AllKept : Result EvaluatedField PolicyError × List Call → Type 0
  AllKept (ok f, h) = IsKept f × (f.inheritance_confirmed ≡ false)
  AllKept (err e, h) = Unit

  abbrev AllFit : FieldDefinition → Result (Option Value) PolicyError × List Call → Type 0
  AllFit definition (ok c, h) = Fits definition c
  AllFit definition (err e, h) = Unit

  fresh-AllFit :
      (definition : FieldDefinition) (rule : SecretRule) (source : Option Value)
      (others : List Text) (h : List Call)
      → definition.kind ≡ FieldKind.secret
      → definition.secret_rule ≡ some rule
      → accepts_generator rule ≡ true
      → AllFit definition (fresh outside source others h)
  unfolding fresh ◌>>=◌
  fresh-AllFit definition rule source others h k r g =
      go (generate_secret outside (previous source) others h)
        (generate_secret-IsFresh outside fills (previous source) others h)
    where
      go :
          (x : Result Text PolicyError × List Call)
          → IsFresh outside fills (previous source) others (length h + 8) x
          → AllFit definition (resume (λ text. pure (some (Value.secret text))) x)
      go (ok s, h') f = secret_fits definition rule s k r g (f.size s refl)
      go (err e, h') f = tt

  first_candidate-AllFit :
      (definition : FieldDefinition) (policy : Policy) (source : Option Value) (others : List Text)
      (h : List Call)
      → effective_policy definition ≡ ok policy
      → is_input definition.kind ≡ true
      → AllFit definition
          (first_candidate outside policy (none_or_accepted definition source) source others h)
  unfolding first_candidate
  first_candidate-AllFit definition Policy.copy source others h e i =
      copy_or_none-Fits definition source
  first_candidate-AllFit definition regenerate source others h e i =
      let (kind, (rule, r, g)) = regenerate_needs definition e i in
      fresh-AllFit definition rule source others h kind r g
  first_candidate-AllFit definition _ source others h e i = tt

  answer_candidate-AllFit :
      (f : EvaluatedField) (given : Answer) (others : List Text) (h : List Call)
      → AllFit f.definition (answer_candidate outside f given others h)
  unfolding answer_candidate
  answer_candidate-AllFit f Answer.copy others h =
      elim (Bool-cases (some_and_accepted f.definition f.source)) [
        | inl good ↦ rw good (copy-Fits f.definition f.source good)
        | inr bad ↦ rw bad tt
      ]
  answer_candidate-AllFit f generate others h =
      elim (Bool-cases (generator_fits f.definition f.definition.secret_rule)) [
        | inl good ↦
            let (kind, (rule, r, g)) = generator_needs f.definition good in
            rw good (fresh-AllFit f.definition rule f.source others h kind r g)
        | inr bad ↦ rw bad tt
      ]
  answer_candidate-AllFit f (input value) others h =
      elim (Bool-cases (accepts f.definition value)) [
        | inl good ↦ rw good good
        | inr bad ↦ rw bad tt
      ]
  answer_candidate-AllFit f clear others h = elim (Bool-cases f.definition.required) [
    | inl needed ↦ rw needed tt
    | inr free ↦ rw free tt
  ]

  -- Whatever is drawn: an evaluated field has no candidate, or one that satisfies its definition,
  -- and no inherited secret counts as confirmed.
  pub evaluate-AllKept :
      (definition : FieldDefinition) (source : Option Value) (others : List Text) (h : List Call)
      → AllKept (evaluate outside definition source others h)
  unfolding evaluate evaluate_by ◌>>=◌
  evaluate-AllKept definition source others h = by_policy (effective_policy definition) refl
    where
      go :
          (policy : Policy) (x : Result (Option Value) PolicyError × List Call)
          → AllFit definition x
          → AllKept (
              resume
                (λ c. pure (record {
                  definition = definition;
                  source = source;
                  candidate = c;
                  answered =
                      not (policy_eq policy ask)
                      && (not (policy_eq policy Policy.copy) || none_or_accepted definition source);
                  inheritance_confirmed = false;
                }))
                x)
      go policy (ok c, h') fit = (record { typed = fit; confirmed = λ y. cc }, refl)
      go policy (err e, h') fit = tt

      by_policy :
          (r : Result Policy PolicyError)
          → effective_policy definition ≡ r
          → AllKept (evaluate_by outside definition source others r h)
      by_policy (err e) x = tt
      by_policy (ok policy) x = elim (Bool-cases (is_input definition.kind)) [
        | inl fits_kind ↦ rw fits_kind (
            go policy
              (first_candidate outside policy (none_or_accepted definition source) source others h)
              (first_candidate-AllFit definition policy source others h x fits_kind))
        | inr other ↦ rw other tt
      ]

  -- Whatever is drawn: a field to which an answer was accepted has no candidate, or one that
  -- satisfies its definition, and an earlier confirmation of an inherited secret is withdrawn.
  pub answer-AllKept :
      (f : EvaluatedField) (given : Answer) (others : List Text) (h : List Call)
      → AllKept (answer outside f given others h)
  unfolding answer ◌>>=◌
  answer-AllKept f given others h =
      go (answer_candidate outside f given others h) (answer_candidate-AllFit f given others h)
    where
      go :
          (x : Result (Option Value) PolicyError × List Call)
          → AllFit f.definition x
          → AllKept (
              resume
                (λ c.
                  pure (record f { candidate = c; answered = true; inheritance_confirmed = false }))
                x)
      go (ok c, h') fit = (record { typed = fit; confirmed = λ y. cc }, refl)
      go (err e, h') fit = tt
