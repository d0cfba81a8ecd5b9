-- ===== src/HostPorts/Plan/Admission.antt =====
-- crates/application/src/host_ports.rs: what the first loop of a plan establishes of its slots.
use mathlib.Core.List.{Memᴰ}
use compose_nest.Common.{
  ℕ, ◌≤◌, ◌≡◌, refl, sym, ◌∙◌, ap, String, Bool, true, false, inl, inr, ◌||◌, not, Option, none,
  some, List, [], ◌∷◌, Result, ok, err, arith, ltb, if◌then◌else◌, str_eq, eq_iff, text_codes,
  before, lookup, insert, has_key, lookup-insert, Bool-cases,
}
use compose_nest.HostPorts.Slots.{
  PortSlot, PortPlan, valid_slot, parse_port, insert_slot, ordered, Claims, claimed_by, Planned,
  admit_port, admit_parsed, admit_input, admit, admit_all,
}

Memᴰ-insert_slot :
    (x s : PortSlot) (ss : List PortSlot) → Memᴰ x (s ∷ ss) → Memᴰ x (insert_slot s ss)
Memᴰ-insert_slot x s [] m = m
Memᴰ-insert_slot x s (q ∷ qs) m = elim (Bool-cases (before q.key s.key)) [
  | inl e ↦ rw e (sink (Memᴰ-insert_slot x s qs) m)
  | inr e ↦ rw e m
]
  where
    sink :
        (Memᴰ x (s ∷ qs) → Memᴰ x (insert_slot s qs))
        → Memᴰ x (s ∷ q ∷ qs)
        → Memᴰ x (q ∷ insert_slot s qs)
    sink rest (Memᴰ.head e) = Memᴰ.tail (rest (Memᴰ.head e))
    sink rest (Memᴰ.tail (Memᴰ.head e)) = Memᴰ.head e
    sink rest (Memᴰ.tail (Memᴰ.tail m)) = Memᴰ.tail (rest (Memᴰ.tail m))

pub Memᴰ-ordered : (x : PortSlot) (ss : List PortSlot) → Memᴰ x ss → Memᴰ x (ordered ss)
unfolding ordered
Memᴰ-ordered x [] m = elim m [ ]
Memᴰ-ordered x (s ∷ ss) (Memᴰ.head e) = Memᴰ-insert_slot x s (ordered ss) (Memᴰ.head e)
Memᴰ-ordered x (s ∷ ss) (Memᴰ.tail m) =
    Memᴰ-insert_slot x s (ordered ss) (Memᴰ.tail (Memᴰ-ordered x ss m))

-- What the input of a slot asks for: a port of the slot's range, or none.
abbrev pub Asks : PortSlot → Option ℕ → Type 0
Asks s none = s.explicit ≡ none
Asks s (some p) =
    (input : String) × (s.explicit ≡ some input)
    × (parse_port (text_codes input) ≡ some p)
    × (s.min ≤ p)
    × (p ≤ s.max)

-- Each explicit port was claimed by the slot that asked for it.
abbrev pub IsClaimed : Planned → Claims → Type 0
IsClaimed planned claims =
    (j : String) (p : ℕ) → lookup j planned ≡ some (some p) → claimed_by p claims ≡ some j

-- What admitting a slot leaves.
abbrev pub IsAdmitted : PortSlot → Planned → Claims → Planned × Claims → Type 0
IsAdmitted s planned claims after =
    (lookup s.key planned ≡ none)
    × (valid_slot s ≡ true)
    × ((asked : Option ℕ) × Asks s asked
        × ((j : String)
            → lookup j after.0 ≡ (if str_eq s.key j then some asked else lookup j planned)))
    × (IsClaimed planned claims → IsClaimed after.0 after.1)

-- The state after a slot that asks for a port, or for none.
abbrev Leaves : PortSlot → Planned → Claims → Option ℕ → Planned × Claims → Type 0
Leaves s planned claims none after = after ≡ (planned, claims)
Leaves s planned claims (some p) after =
    (claimed_by p claims ≡ none) × (after ≡ (insert s.key (some p) planned, (p, s.key) ∷ claims))

passes :
    (b : Bool) (plan : PortPlan) (r : Result (Planned × Claims) PortPlan) (after : Planned × Claims)
    → (if b then err plan else r) ≡ ok after
    → (b ≡ false) × (r ≡ ok after)
passes true plan r after e = cc
passes false plan r after e = (refl, e)

module _ (s : PortSlot) (planned : Planned) (claims : Claims) where
  admit_port-Leaves :
      (port : ℕ) (after : Planned × Claims) (owner : Option String)
      → claimed_by port claims ≡ owner
      → admit_port s port planned claims owner ≡ ok after
      → Leaves s planned claims (some port) after
  unfolding admit_port
  admit_port-Leaves port after none free e = (free, cc)
  admit_port-Leaves port after (some other) taken e = cc

  admit_parsed-Leaves :
      (parsed : Option ℕ) (after : Planned × Claims)
      → admit_parsed s planned claims parsed ≡ ok after
      → (p : ℕ) × (parsed ≡ some p)
        × (s.min ≤ p)
        × (p ≤ s.max)
        × Leaves s planned claims (some p) after
  unfolding admit_parsed
  admit_parsed-Leaves none after e = cc
  admit_parsed-Leaves (some p) after e =
      let (within, fine) = passes (ltb p s.min || ltb s.max p) _ _ after e in
      (
        p,
        refl,
        ground (arith, within),
        ground (arith, within),
        admit_port-Leaves p after (claimed_by p claims) refl fine,
      )

  admit_input-Leaves :
      (explicit : Option String) (after : Planned × Claims)
      → s.explicit ≡ explicit
      → admit_input s planned claims explicit ≡ ok after
      → (asked : Option ℕ) × Asks s asked × Leaves s planned claims asked after
  unfolding admit_input
  admit_input-Leaves none after same e = (none, same, cc)
  admit_input-Leaves (some input) after same e =
      let (p, parsed, low, high, leaves) =
        admit_parsed-Leaves (parse_port (text_codes input)) after e in
      (some p, (input, same, parsed, low, high), leaves)

module _ (s : PortSlot) (planned : Planned) (claims : Claims) where
  Leaves-lookup :
      (asked : Option ℕ) (after : Planned × Claims)
      → Leaves s (insert s.key none planned) claims asked after
      → (j : String) → lookup j after.0 ≡ (if str_eq s.key j then some asked else lookup j planned)
  Leaves-lookup none after e j = rw e (lookup-insert j s.key none planned)
  Leaves-lookup (some p) after (free, e) j = rw e (
      ground (
        arith,
        lookup-insert j s.key (some p) (insert s.key none planned),
        lookup-insert j s.key none planned,
      ))

  Leaves-IsClaimed :
      (asked : Option ℕ) (after : Planned × Claims)
      → Leaves s (insert s.key none planned) claims asked after
      → IsClaimed planned claims
      → IsClaimed after.0 after.1
  Leaves-IsClaimed none after e c j p at =
      ground (arith, Leaves-lookup none after e j, at, c j p, ap (λ a. claimed_by p a.1) e)
  Leaves-IsClaimed (some q) after (free, e) c j p at = ground (
    arith,
    Leaves-lookup (some q) after (free, e) j,
    at,
    c j p,
    free,
    eq_iff s.key j,
    ap (λ a. claimed_by p a.1) e,
  )

  pub admit-IsAdmitted :
      (after : Planned × Claims)
      → admit s planned claims ≡ ok after
      → IsAdmitted s planned claims after
  unfolding admit
  admit-IsAdmitted after e =
      let (fine, input) = passes (not (valid_slot s) || has_key s.key planned) _ _ after e in
      let (asked, asks, leaves) =
        admit_input-Leaves s (insert s.key none planned) claims s.explicit after refl input in
      (
        ground (arith, fine),
        ground (arith, fine),
        (asked, asks, Leaves-lookup asked after leaves),
        Leaves-IsClaimed asked after leaves,
      )

-- What the whole first loop leaves: each slot is admitted with what it asks for, under a key that
-- no other slot has, and the claims answer for the explicit ports.
pub record AreAdmitted (ss : List PortSlot) (planned : Planned) (claims : Claims)
    (after : Planned × Claims) : Type 0 where
  pub kept : (j : String) (o : Option ℕ) → lookup j planned ≡ some o → lookup j after.0 ≡ some o
  pub each :
      (s : PortSlot)
      → Memᴰ s ss
      → (lookup s.key planned ≡ none)
        × (valid_slot s ≡ true)
        × ((asked : Option ℕ) × Asks s asked × (lookup s.key after.0 ≡ some asked))
  pub once : (s t : PortSlot) → Memᴰ s ss → Memᴰ t ss → s.key ≡ t.key → s ≡ t
  pub claimed : IsClaimed planned claims → IsClaimed after.0 after.1

-- One more slot in front of admitted ones.
admitted_more :
    (s : PortSlot) (ss : List PortSlot) (planned : Planned) (claims : Claims)
    (middle after : Planned × Claims)
    → IsAdmitted s planned claims middle
    → AreAdmitted ss middle.0 middle.1 after
    → AreAdmitted (s ∷ ss) planned claims after
admitted_more s ss planned claims middle after (new, valid, (asked, asks, look), hold) rest =
    record {
      kept = λ j o e. rest.kept j o (ground (arith, look j, e, new, eq_iff s.key j));
      each = λ t m. elim m [
        | Memᴰ.head e ↦ rw e (new, valid, (asked, asks, rest.kept s.key asked (mine s.key refl)))
        | Memᴰ.tail d ↦
            let (absent, fine, found) = rest.each t d in
            (ground (arith, look t.key, absent), fine, found)
      ];
      once = λ t u m n e. elim m [
        | Memᴰ.head x ↦ elim n [
          | Memᴰ.head y ↦ x ∙ sym y
          | Memᴰ.tail d ↦ absurd (apart u d (ap (λ (s : PortSlot). s.key) (sym x) ∙ e))
        ]
        | Memᴰ.tail c ↦ elim n [
          | Memᴰ.head y ↦ absurd (apart t c (ap (λ (s : PortSlot). s.key) (sym y) ∙ sym e))
          | Memᴰ.tail d ↦ rest.once t u c d e
        ]
      ];
      claimed = λ c. rest.claimed (hold c);
    }
  where
    mine : (j : String) → s.key ≡ j → lookup j middle.0 ≡ some asked
    mine j e = ground (arith, look j, e, eq_iff s.key j)

    apart : (t : PortSlot) → Memᴰ t ss → s.key ≡ t.key → ⊥
    apart t d e = let (absent, fine, found) = rest.each t d in ground (arith, mine t.key e, absent)

same :
    (r : Result (Planned × Claims) PortPlan) (a b : Planned × Claims) → r ≡ ok a → r ≡ ok b → a ≡ b
same r a b x y = cc

pub admit_all-AreAdmitted :
    (ss : List PortSlot) (planned : Planned) (claims : Claims) (after : Planned × Claims)
    → admit_all ss planned claims ≡ ok after
    → AreAdmitted ss planned claims after
unfolding admit_all
admit_all-AreAdmitted [] planned claims after e = record {
  kept = λ j o x.
      ap (λ (a : Planned × Claims). lookup j a.0) (sym (same _ (planned, claims) after refl e)) ∙ x;
  each = λ t m. elim m [ ];
  once = λ t u m. elim m [ ];
  claimed = λ c j p at.
      ap (λ (a : Planned × Claims). claimed_by p a.1) (sym (same _ (planned, claims) after refl e))
      ∙ c j p (
          ap (λ (a : Planned × Claims). lookup j a.0) (same _ (planned, claims) after refl e) ∙ at);
}
admit_all-AreAdmitted (s ∷ ss) planned claims after e =
    go (admit s planned claims) refl (λ p c. admit_all-AreAdmitted ss p c after) e
  where
    go :
        (r : Result (Planned × Claims) PortPlan)
        → admit s planned claims ≡ r
        → ((p : Planned) (c : Claims) → admit_all ss p c ≡ ok after → AreAdmitted ss p c after)
        → elim r [ ok (p, c) ↦ admit_all ss p c | err plan ↦ err plan ] ≡ ok after
        → AreAdmitted (s ∷ ss) planned claims after
    go (ok (p, c)) first rest e =
        admitted_more s ss planned claims (p, c) after
          (admit-IsAdmitted s planned claims (p, c) first) (rest p c e)
    go (err plan) first rest e = cc
