-- ===== src/HostPorts/Plan/Joined.antt =====
-- crates/application/src/host_ports.rs: the map of a plan, put together from the selections and
-- the explicit ports.
use compose_nest.Common.{
  ℕ, ◌≡◌, ◌⊎◌, inl, inr, String, Option, none, some, [], ◌∷◌, arith, str_eq, eq_iff, Map, lookup,
  insert, lookup-insert, IsEntry, Bool-cases,
}
use compose_nest.HostPorts.Slots.{Planned}
use compose_nest.HostPorts.Plan.{join, first_open, assigned}

pub lookup-join :
    (j : String) (p : ℕ) (m : Map ℕ) (base : Planned)
    → lookup j (join m base) ≡ some (some p)
    → IsEntry j p m ⊎ (lookup j base ≡ some (some p))
lookup-join j p [] base e = inr e
lookup-join j p ((k, q) ∷ m) base e = elim (lookup-join j p m (insert k (some q) base) e) [
  | inl x ↦ inl (inr x)
  | inr x ↦ elim (Bool-cases (str_eq k j)) [
    | inl same ↦
        inl (inl ((eq_iff k j).0 same, ground (arith, x, same, lookup-insert j k (some q) base)))
    | inr other ↦ inr (ground (arith, x, other, lookup-insert j k (some q) base))
  ]
]

pub join-keeps :
    (j : String) (o : Option ℕ) (m : Map ℕ) (base : Planned)
    → lookup j base ≡ some o
    → (q : Option ℕ) × (lookup j (join m base) ≡ some q)
join-keeps j o [] base e = (o, e)
join-keeps j o ((k, q) ∷ m) base e = elim (Bool-cases (str_eq k j)) [
  | inl same ↦ join-keeps j (some q) m _ (ground (arith, same, lookup-insert j k (some q) base))
  | inr other ↦ join-keeps j o m _ (ground (arith, e, other, lookup-insert j k (some q) base))
]

-- Once no key is open, the map of the ports answers for each key.
pub assigned-lookup :
    (j : String) (o : Option ℕ) (m : Planned)
    → first_open m ≡ none
    → lookup j m ≡ some o
    → (p : ℕ) × (o ≡ some p) × (lookup j (assigned m) ≡ some p)
assigned-lookup j o [] full e = cc
assigned-lookup j o ((k, none) ∷ m) full e = cc
assigned-lookup j o ((k, some p) ∷ m) full e = elim (Bool-cases (str_eq k j)) [
  | inl same ↦ (p, ground (arith, e, same), ground (arith, same))
  | inr other ↦
      let (q, x, y) = assigned-lookup j o m full (ground (arith, e, other)) in
      (q, x, ground (arith, y, other))
]

pub lookup-assigned :
    (j : String) (p : ℕ) (m : Planned)
    → first_open m ≡ none
    → lookup j (assigned m) ≡ some p
    → lookup j m ≡ some (some p)
lookup-assigned j p [] full e = cc
lookup-assigned j p ((k, none) ∷ m) full e = cc
lookup-assigned j p ((k, some q) ∷ m) full e = elim (Bool-cases (str_eq k j)) [
  | inl same ↦ ground (arith, e, same)
  | inr other ↦
      let x = lookup-assigned j p m full (ground (arith, e, other)) in ground (arith, x, other)
]
