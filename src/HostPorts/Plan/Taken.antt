-- ===== src/HostPorts/Plan/Taken.antt =====
-- crates/application/src/host_ports.rs: the ports of the earlier selections, once they are taken.
use compose_nest.Common.{
  ℕ, ◌≡◌, refl, sym, ◌∙◌, inl, inr, String, true, false, List, [], ◌∷◌, arith, Map, IsEntry,
  Bool-cases, Ensures, ensure_weaken,
}
use compose_nest.HostPorts.{Call}
use compose_nest.HostPorts.Plan.{is_used, claim_all}
use compose_nest.HostPorts.Plan.Checks.{Stops}

-- What the claims of the selections establish: each is taken, none was before, and no two slots
-- share one.
pub record AreClaimed (m : Map ℕ) (used after : List ℕ) : Type 0 where
  pub mine : (j : String) (p : ℕ) → IsEntry j p m → is_used p after ≡ true
  pub theirs : (p : ℕ) → is_used p used ≡ true → is_used p after ≡ true
  pub fresh : (j : String) (p : ℕ) → IsEntry j p m → is_used p used ≡ false
  pub apart : (j k : String) (p : ℕ) → IsEntry j p m → IsEntry k p m → j ≡ k

pub claim_all-AreClaimed :
    (m : Map ℕ) (used : List ℕ) (h : List Call)
    → Ensures Stops (λ after h'. (h ≡ h') × AreClaimed m used after) (claim_all m used h)
unfolding claim_all
claim_all-AreClaimed [] used h = (
  refl,
  record {
    mine = λ j p. absurd;
    theirs = λ p e. e;
    fresh = λ j p. absurd;
    apart = λ j k p. absurd;
  },
)
claim_all-AreClaimed ((key, port) ∷ m) used h = elim (Bool-cases (is_used port used)) [
  | inl taken ↦ rw taken refl
  | inr free ↦ rw free (
      ensure_weaken Stops _ _ (claim_all m (port ∷ used) h) (claim_all-AreClaimed m (port ∷ used) h)
        λ after h' (same, rest). (
          same,
          record {
            mine = λ j p e. elim e [
              | inl here ↦ rest.theirs p (ground (arith, here.1))
              | inr e ↦ rest.mine j p e
            ];
            theirs = λ p e. rest.theirs p (ground (arith, e));
            fresh = λ j p e. elim e [
              | inl here ↦ rw (← here.1) free
              | inr e ↦ unused p (rest.fresh j p e)
            ];
            apart = λ j k p e g. elim e [
              | inl here ↦ elim g [
                | inl there ↦ sym here.0 ∙ there.0
                | inr g ↦ absurd (clash p (rest.fresh k p g) here.1)
              ]
              | inr e ↦ elim g [
                | inl there ↦ absurd (clash p (rest.fresh j p e) there.1)
                | inr g ↦ rest.apart j k p e g
              ]
            ];
          },
        ))
]
  where
    unused : (p : ℕ) → is_used p (port ∷ used) ≡ false → is_used p used ≡ false
    unused p e = ground (arith, e)

    clash : (p : ℕ) → is_used p (port ∷ used) ≡ false → port ≡ p → ⊥
    clash p e same = ground (arith, e, same)
