-- ===== src/ClonePolicy/Secret/Checked.antt =====
-- crates/domain/src/clone_policy.rs: what a generated identity is.
use native.Mathlib.Nat.{pow-suc}
use compose_nest.Common.{
  ℕ, zero, suc, ◌+◌, ◌*◌, ◌^◌, ◌≤◌, ◌<◌, ◌≡◌, ◌⊎◌, inl, inr, refl, Bool, true, false, List, [], ◌∷◌,
  Result, ok, err, arith, length, All, pure, after_perform,
}
use compose_nest.Identity.{InstanceId}
use compose_nest.ClonePolicy.{PolicyError, generation_failed}
use compose_nest.ClonePolicy.Secret.{
  Call, is_available, Outside, from_be_bytes, draw, identity_rounds, generate_identity,
}
use compose_nest.ClonePolicy.Secret.Fresh.{FillsBuffer, drawn, not_drawn}

module _ (outside : Outside) (fills : FillsBuffer outside) where
  -- An identity is given only directly after the check found it available, and fits 128 bits; an
  -- error is `GenerationFailed` or the one that the last check answered with.
  pub record IsChecked (top : ℕ) (r : Result InstanceId PolicyError × List Call) : Type 0 where
    pub found :
        (id : InstanceId)
        → r.0 ≡ ok id
        → (id.value < 256 ^ 16)
          × ((t : List Call) × (r.1 ≡ is_available id ∷ t)
              × (outside.is_available id (is_available id ∷ t) ≡ ok true))
    pub stopped :
        (e : PolicyError)
        → r.0 ≡ err e
        → (e ≡ generation_failed)
          ⊎ ((id : InstanceId) × (t : List Call) × (r.1 ≡ is_available id ∷ t)
              × (outside.is_available id (is_available id ∷ t) ≡ err e))
    pub bounded : length r.1 ≤ top

  bytes-bound :
      (acc : ℕ) (bytes : List ℕ)
      → All (λ b. b < 256) bytes
      → from_be_bytes acc bytes < (acc + 1) * 256 ^ length bytes
  unfolding from_be_bytes
  bytes-bound acc [] h = omega arith
  bytes-bound acc (b ∷ bytes) (lt, h) =
      rw pow-suc (grind (arith, bytes-bound (acc * 256 + b) bytes h))

  abbrev candidate : List ℕ → InstanceId
  candidate bytes = record { value = from_be_bytes 0 bytes }

  offered :
      (n top : ℕ) (bytes : List ℕ) (h : List Call) (free : Bool)
      → (length bytes ≡ 16) × All (λ b. b < 256) bytes
      → outside.is_available (candidate bytes) (is_available (candidate bytes) ∷ h) ≡ ok free
      → length (is_available (candidate bytes) ∷ h) ≤ top
      → IsChecked top (identity_rounds outside n (is_available (candidate bytes) ∷ h))
      → IsChecked top (
          (elim free as (λ _. List Call → Result InstanceId PolicyError × List Call) [
            | true ↦ pure (candidate bytes)
            | false ↦ identity_rounds outside n
          ])
            (is_available (candidate bytes) ∷ h))
  offered n top bytes h false full x le rest = rest
  offered n top bytes h true (sixteen, small) x le rest = record {
    found = λ id y. let same : candidate bytes ≡ id = cc in rw (← same) (fits, (h, refl, x));
    stopped = λ e y. cc;
    bounded = le;
  }
    where
      fits : (candidate bytes).value < 256 ^ 16
      fits =
          let bound : from_be_bytes 0 bytes < (0 + 1) * 256 ^ 16 =
            rw sixteen at (bytes-bound 0 bytes small) in
          omega (arith, bound)

  identity_rounds-IsChecked :
      (n top : ℕ) (h : List Call)
      → length h + 2 * n ≤ top
      → IsChecked top (identity_rounds outside n h)
  unfolding identity_rounds draw
  identity_rounds-IsChecked zero top h le = record {
    found = λ id x. cc;
    stopped = λ e x. inl (cc);
    bounded = omega arith;
  }
  identity_rounds-IsChecked (suc n) top h le =
      after_perform (IsChecked top) _ _ _ h
        (λ e x. record {
          found = λ id y. cc;
          stopped = λ e' y. inl (cc (not_drawn outside fills _ _ e x));
          bounded = omega arith;
        })
        λ bytes x.
          after_perform (IsChecked top) _ _ _ _
            (λ e y. record {
              found = λ id z. cc;
              stopped = λ e' z. inr (record { value = from_be_bytes 0 bytes }, _, refl, cc);
              bounded = omega arith;
            })
            λ free z.
              offered n top bytes _ free (fills _ _ _ (drawn outside fills _ _ _ x)) z (omega arith)
                (identity_rounds-IsChecked n top _ (omega arith))

  -- A generated identity fits 128 bits and was found available by the very last call; otherwise the
  -- error is `GenerationFailed`, or the answer of the check that could not be made. At most eight
  -- candidates are drawn and checked.
  pub generate_identity-IsChecked :
      (h : List Call) → IsChecked (length h + 16) (generate_identity outside h)
  unfolding generate_identity
  generate_identity-IsChecked h = identity_rounds-IsChecked 8 (length h + 16) h (omega arith)
