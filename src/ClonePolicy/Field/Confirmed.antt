-- ===== src/ClonePolicy/Field/Confirmed.antt =====
-- crates/domain/src/clone_policy.rs: the confirmation of an inherited secret.
use compose_nest.Common.{◌≡◌, true, false, ok, arith}
use compose_nest.ClonePolicy.Field.{
  EvaluatedField, inherits_secret, is_ready, confirm_secret_inheritance,
}
use compose_nest.ClonePolicy.Field.Kept.{IsKept}

confirmed-IsKept :
    (f : EvaluatedField)
    → IsKept f
    → inherits_secret f ≡ true
    → IsKept (record f { inheritance_confirmed = true })
unfolding inherits_secret
confirmed-IsKept f k i = record { typed = k.typed; confirmed = λ y. i }

confirm-ok :
    (f g : EvaluatedField)
    → confirm_secret_inheritance f ≡ ok g
    → (inherits_secret f ≡ true) × (g ≡ record f { inheritance_confirmed = true })
unfolding confirm_secret_inheritance
confirm-ok f g e = (ground arith, ground arith)

-- While an inherited secret is not confirmed, the field is not ready; confirming changes nothing
-- else, makes the field keep its invariant, and is refused when no secret is inherited.
pub confirm_effect :
    (f : EvaluatedField)
    → (inherits_secret f ≡ true → f.inheritance_confirmed ≡ false → is_ready f ≡ false)
      × ((g : EvaluatedField)
          → confirm_secret_inheritance f ≡ ok g
          → (inherits_secret f ≡ true)
            × (g ≡ record f { inheritance_confirmed = true })
            × (IsKept f → IsKept g))
unfolding is_ready
confirm_effect f = (
  λ i c. ground arith,
  λ g e.
      let (inherited, same) = confirm-ok f g e in
      (inherited, same, λ k. rw same (confirmed-IsKept f k inherited)),
)
