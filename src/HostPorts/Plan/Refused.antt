-- ===== src/HostPorts/Plan/Refused.antt =====
-- crates/application/src/host_ports.rs: how the first loop ends a plan.
use compose_nest.Common.{
  ℕ, ◌≡◌, refl, String, Bool, true, false, Option, none, some, List, [], ◌∷◌, Result, ok, err, not,
  arith, ltb, if◌then◌else◌, has_key, ◌||◌, insert, text_codes,
}
use compose_nest.HostPorts.{invalid_input}
use compose_nest.HostPorts.Slots.{
  PortSlot, PortPlan, Claims, claimed_by, Planned, valid_slot, parse_port, admit_port, admit_parsed,
  admit_input, admit, admit_all, rejected,
}
use compose_nest.HostPorts.Plan.Checks.{Stops}

module _ (s : PortSlot) (base : Planned) (claims : Claims) (plan : PortPlan) where
  admit_port-Stops :
      (port : ℕ) (owner : Option String)
      → admit_port s port base claims owner ≡ err plan
      → Stops plan
  unfolding admit_port
  admit_port-Stops port none e = cc
  admit_port-Stops port (some other) e = ground (arith, e)

  refused-Stops :
      (b : Bool) (r : Result (Planned × Claims) PortPlan)
      → (if b then err (rejected s.key invalid_input none) else r) ≡ err plan
      → (r ≡ err plan → Stops plan)
      → Stops plan
  refused-Stops true r e rest = ground (arith, e)
  refused-Stops false r e rest = rest e

  admit_parsed-Stops :
      (parsed : Option ℕ) → admit_parsed s base claims parsed ≡ err plan → Stops plan
  unfolding admit_parsed
  admit_parsed-Stops none e = ground (arith, e)
  admit_parsed-Stops (some p) e =
      refused-Stops (ltb p s.min || ltb s.max p) _ e (admit_port-Stops p (claimed_by p claims))

  admit_input-Stops :
      (explicit : Option String) → admit_input s base claims explicit ≡ err plan → Stops plan
  unfolding admit_input
  admit_input-Stops none e = cc
  admit_input-Stops (some input) e = admit_parsed-Stops (parse_port (text_codes input)) e

admit-Stops :
    (s : PortSlot) (base : Planned) (claims : Claims) (plan : PortPlan)
    → admit s base claims ≡ err plan
    → Stops plan
unfolding admit
admit-Stops s base claims plan e =
    refused-Stops s base claims plan (not (valid_slot s) || has_key s.key base) _ e
      (admit_input-Stops s (insert s.key none base) claims plan s.explicit)

-- The first loop never completes a plan.
pub admit_all-Stops :
    (ss : List PortSlot) (base : Planned) (claims : Claims) (plan : PortPlan)
    → admit_all ss base claims ≡ err plan
    → Stops plan
unfolding admit_all
admit_all-Stops [] base claims plan e = cc
admit_all-Stops (s ∷ ss) base claims plan e =
    go (admit s base claims) refl (λ p c. admit_all-Stops ss p c plan) e
  where
    go :
        (r : Result (Planned × Claims) PortPlan)
        → admit s base claims ≡ r
        → ((p : Planned) (c : Claims) → admit_all ss p c ≡ err plan → Stops plan)
        → elim r [ ok (p, c) ↦ admit_all ss p c | err plan ↦ err plan ] ≡ err plan
        → Stops plan
    go (ok (p, c)) first rest e = rest p c e
    go (err other) first rest e =
        let same : other ≡ plan = cc in rw (← same) (admit-Stops s base claims other first)
