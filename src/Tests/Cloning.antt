-- ===== src/Tests/Cloning.antt =====
-- crates/domain/src/clone_policy.rs with a concrete source of randomness.
use compose_nest.Common.{
  ℕ, zero, suc, ◌+◌, ◌≤◌, ◌<◌, ◌≡◌, refl, Bool, true, false, Option, none, some, List, [], ◌∷◌,
  Result, ok, err, arith, length, All, Text,
}
use compose_nest.ClonePolicy.{FieldKind, Policy, Value, SecretRule, PolicyError, FieldDefinition}
use compose_nest.ClonePolicy.Secret.{Outside, generate_secret, generate_identity}
use compose_nest.ClonePolicy.Secret.Fresh.{FillsBuffer, IsFresh, generate_secret-IsFresh}
use compose_nest.ClonePolicy.Secret.Checked.{IsChecked, generate_identity-IsChecked}
use compose_nest.ClonePolicy.Field.{
  Answer, generate, EvaluatedField, inherits_secret, is_ready, evaluate, answer,
  confirm_secret_inheritance,
}
use compose_nest.ClonePolicy.Field.Kept.{AllKept, evaluate-AllKept, answer-AllKept}

-- A source that draws one byte all the time, and finds every identity available.
unfoldable repeat : ℕ → List ℕ
repeat zero = []
repeat (suc n) = 65 ∷ repeat n

abbrev outside : Outside
outside = record { fill_bytes = λ n h. ok (repeat n); is_available = λ id h. ok true }

length-repeat : (n : ℕ) → length (repeat n) ≡ n
unfolding repeat
length-repeat zero = refl
length-repeat (suc n) = omega (arith, length-repeat n)

repeat-bytes : (n : ℕ) → All (λ b. b < 256) (repeat n)
unfolding repeat
repeat-bytes zero = tt
repeat-bytes (suc n) = (omega arith, repeat-bytes n)

fills : FillsBuffer outside
fills n h bytes e =
    let same : repeat n ≡ bytes = cc in rw (← same) (length-repeat n, repeat-bytes n)

generate_secret-IsFresh_example :
    IsFresh outside fills none
      ((b'x' ∷ []) ∷ [])
      8
      (generate_secret outside none ((b'x' ∷ []) ∷ []) [])
generate_secret-IsFresh_example = generate_secret-IsFresh outside fills none ((b'x' ∷ []) ∷ []) []

generate_identity-IsChecked_example : IsChecked outside fills 16 (generate_identity outside [])
generate_identity-IsChecked_example = generate_identity-IsChecked outside fills []

abbrev password : FieldDefinition
password = record {
  kind = FieldKind.secret;
  required = true;
  policy = some Policy.copy;
  secret_rule =
      some (record { min_length = 1; max_length = 64; accepts_generator_alphabet = true });
}

abbrev old : Option Value
old = some (Value.secret (b'x' ∷ []))

abbrev inherited : EvaluatedField
inherited = record {
  definition = password;
  source = old;
  candidate = old;
  answered = true;
  inheritance_confirmed = false;
}

evaluate-AllKept_example : AllKept outside fills (evaluate outside password old [] [])
evaluate-AllKept_example = evaluate-AllKept outside fills password old [] []

answer-AllKept_example : AllKept outside fills (answer outside inherited generate [] [])
answer-AllKept_example = answer-AllKept outside fills inherited generate [] []

evaluates : (evaluate outside password old [] []).0 ≡ ok inherited
unfolding evaluate compose_nest.ClonePolicy.effective_policy compose_nest.ClonePolicy.Field.is_input
    compose_nest.Common.◌>>=◌ compose_nest.ClonePolicy.Field.first_candidate
    compose_nest.ClonePolicy.accepts compose_nest.ClonePolicy.accepts_input
evaluates = refl
