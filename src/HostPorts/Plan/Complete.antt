-- ===== src/HostPorts/Plan/Complete.antt =====
-- crates/application/src/host_ports.rs: what a complete plan promises.
use mathlib.Core.List.{Memᴰ}
use compose_nest.Common.{
  ℕ, ◌≤◌, ◌≡◌, refl, ap, ◌∙◌, ◌⊎◌, inl, inr, String, Bool, true, false, Option, none, some, List,
  [], ◌∷◌, Result, ok, err, not, ◌&&◌, arith, leb, str_eq, eq_iff, Map, lookup, IsEntry,
  IsEntry-select, is_some, any-Memᴰ, text_codes, later_all, Ensures, ensure_then,
}
use compose_nest.HostPorts.{Call, Outside}
use compose_nest.HostPorts.Slots.{
  PortSlot, PortCursor, PortPlan, complete, Claims, claimed_by, Planned, valid_slot, parse_port,
  ordered, admit_all,
}
use compose_nest.HostPorts.Plan.{
  Progress, fits, above, is_used, ports_of, retained, still_selected, still_explicit,
  check_explicit, recheck, claim_all, assign, join, first_open, assigned, finish, outcome,
  plan_slots, plan_admitted, plan_with_budget, plan_ports_bounded,
}
use compose_nest.HostPorts.Plan.Admission.{
  AreAdmitted, Asks, IsClaimed, admit_all-AreAdmitted, Memᴰ-ordered,
}
use compose_nest.HostPorts.Plan.Checks.{
  Stops, IsFree, IsVouched, IsVouched-later, AreChecked, AreKept, check_explicit-AreChecked,
  recheck-AreKept,
}
use compose_nest.HostPorts.Plan.Taken.{AreClaimed, claim_all-AreClaimed}
use compose_nest.HostPorts.Plan.Assignment.{AreAssigned, assign-Goes}
use compose_nest.HostPorts.Plan.Refused.{admit_all-Stops}
use compose_nest.HostPorts.Plan.Joined.{lookup-join, join-keeps, assigned-lookup, lookup-assigned}

not_claimed : (o : Option String) (b : Bool) → b && not (is_some o) ≡ true → o ≡ none
not_claimed none b e = refl
not_claimed (some k) true e = cc
not_claimed (some k) false e = cc

claimed-is_used :
    (p : ℕ) (k : String) (claims : Claims)
    → claimed_by p claims ≡ some k
    → is_used p (ports_of claims) ≡ true
claimed-is_used p k [] e = cc
claimed-is_used p k ((q, j) ∷ claims) e = ground (arith, e, claimed-is_used p k claims)

valid_slot-min : (s : PortSlot) → valid_slot s ≡ true → 1024 ≤ s.min
unfolding valid_slot
valid_slot-min s e = ground (arith, e)

module _ (outside : Outside) where
  -- The port of a slot: the one that its input asks for, inspected by this plan or noted by the
  -- cursor, or one above the source's port that this plan inspected.
  abbrev pub Serves : Map ℕ → PortSlot → ℕ → List Call → Type 0
  Serves given s p h =
      ((input : String) × (s.explicit ≡ some input)
        × (parse_port (text_codes input) ≡ some p)
        × (IsFree outside p h ⊎ IsEntry s.key p given))
      ⊎ ((s.explicit ≡ none) × (above s.source p ≡ true) × IsFree outside p h)

  -- A plan gives each slot a port of its range, and no two keys the same.
  pub record IsPlanned (slots : List PortSlot) (given : Map ℕ) (m : Map ℕ) (h : List Call)
      : Type 0 where
    pub each :
        (s : PortSlot)
        → Memᴰ s slots
        → (p : ℕ) × (lookup s.key m ≡ some p)
          × (1024 ≤ p)
          × (s.min ≤ p)
          × (p ≤ s.max)
          × Serves given s p h
    pub apart : (j k : String) (p : ℕ) → lookup j m ≡ some p → lookup k m ≡ some p → j ≡ k

  -- What is left to show of a slot, for a selected port and for an explicit one.
  abbrev Suits : Map ℕ → PortSlot → ℕ → List Call → Type 0
  Suits given s p h = (s.min ≤ p) × (p ≤ s.max) × Serves given s p h

  selected-Suits :
      (given : Map ℕ) (s : PortSlot) (p : ℕ) (h : List Call)
      → fits s p ≡ true
      → IsFree outside p h
      → Suits given s p h
  selected-Suits given s p h fit free = (
    ground (arith, fit),
    ground (arith, fit),
    inr (automatic s.explicit fit, ground (arith, fit), free),
  )
    where
      automatic :
          (o : Option String)
          → not (is_some o) && leb s.min p && leb p s.max && above s.source p ≡ true
          → o ≡ none
      automatic none e = refl
      automatic (some input) e = cc

  explicit-Suits :
      (given : Map ℕ) (s : PortSlot) (p : ℕ) (h : List Call) (asked : Option ℕ)
      → Asks s asked
      → asked ≡ some p
      → IsVouched outside given s.key p h
      → Suits given s p h
  explicit-Suits given s p h none asks e vouched = cc
  explicit-Suits given s p h (some q) (input, typed, parsed, low, high) e vouched =
      let same : q ≡ p = cc in
      (omega (arith, low, same), omega (arith, high, same), inl (input, typed, parsed ∙ e, vouched))

  module _ (slots : List PortSlot) (base : Planned) (claims : Claims) (limit : ℕ) (given : Map ℕ)
      (admitted : AreAdmitted slots [] [] (base, claims)) where
    claimed : IsClaimed base claims
    claimed = admitted.claimed λ j p e. cc

    -- What the stages leave, put together.
    finish-IsPlanned :
        (done : Progress) (h : List Call)
        → ((s : PortSlot) (p : ℕ)
            → Memᴰ s slots
            → lookup s.key base ≡ some (some p)
            → IsVouched outside given s.key p h)
        → AreAssigned outside slots claims limit done h
        → (m : Map ℕ)
        → finish (join done.0.selected base) (first_open (join done.0.selected base)) ≡ complete m
        → IsPlanned slots given m h
    finish-IsPlanned done h vouched picks m e = go (first_open (join done.0.selected base)) refl e
      where
        whole_map : Planned
        whole_map = join done.0.selected base

        suits :
            (s : PortSlot) (p : ℕ) (asked : Option ℕ)
            → Memᴰ s slots
            → Asks s asked
            → lookup s.key base ≡ some asked
            → lookup s.key whole_map ≡ some (some p)
            → Suits given s p h
        suits s p asked at asks found holds =
            elim (lookup-join s.key p done.0.selected base holds) [
              | inl picked ↦
                  let ((t, m, key, fit), _, free) = picks.each s.key p picked in
                  selected-Suits given s p h (rw (← admitted.once t s m at key) fit) free
              | inr known ↦
                  let same : asked ≡ some p = cc in
                  explicit-Suits given s p h asked asks same (vouched s p at known)
            ]

        each :
            first_open whole_map ≡ none
            → (s : PortSlot) → Memᴰ s slots
            → (p : ℕ) × (lookup s.key (assigned whole_map) ≡ some p)
              × (1024 ≤ p)
              × (s.min ≤ p)
              × (p ≤ s.max)
              × Serves given s p h
        each full s at =
            let (_, valid, (asked, asks, found)) = admitted.each s at in
            let (o, kept) = join-keeps s.key asked done.0.selected base found in
            let (p, same, here) = assigned-lookup s.key o whole_map full kept in
            let (low, high, serves) = suits s p asked at asks found (kept ∙ ap some same) in
            (p, here, omega (arith, low, valid_slot-min s valid), low, high, serves)

        apart :
            first_open whole_map ≡ none
            → (j k : String) (p : ℕ) → lookup j (assigned whole_map) ≡ some p
            → lookup k (assigned whole_map) ≡ some p
            → j ≡ k
        apart full j k p x y =
            elim (lookup-join j p done.0.selected base (lookup-assigned j p whole_map full x)) [
              | inl a ↦
                  elim (lookup-join k p done.0.selected base
                    (lookup-assigned k p whole_map full y)) [
                      | inl b ↦ picks.apart j k p a b
                      | inr b ↦ let (_, un, _) = picks.each j p a in cc (un, claimed k p b)
                    ]
              | inr a ↦
                  elim (lookup-join k p done.0.selected base
                    (lookup-assigned k p whole_map full y)) [
                      | inl b ↦ let (_, un, _) = picks.each k p b in cc (un, claimed j p a)
                      | inr b ↦ cc (claimed j p a, claimed k p b)
                    ]
            ]

        go :
            (o : Option String)
            → first_open whole_map ≡ o
            → finish whole_map o ≡ complete m
            → IsPlanned slots given m h
        go none full e =
            let same : assigned whole_map ≡ m = cc in
            rw (← same) (record { each = each full; apart = apart full })
        go (some k) full e = cc

    abbrev Results : PortPlan → List Call → Type 0
    Results plan h = (m : Map ℕ) → plan ≡ complete m → IsPlanned slots given m h

    plan_slots-Results :
        (cursor : PortCursor) (h : List Call)
        → cursor.checked_explicit ≡ given
        → Ensures Stops Results (plan_slots outside limit slots base claims cursor h)
    unfolding plan_slots
    plan_slots-Results cursor h same =
        ensure_then Stops (AreChecked outside given slots base start h) Results
          (check_explicit outside slots base start) _ h
          (check_explicit-AreChecked outside given slots base start h noted)
          λ checked h1 (s1, same1, vouched).
            ensure_then Stops (AreKept outside checked.selected checked h1) Results
              (recheck outside checked.selected checked) _ h1
              (recheck-AreKept outside checked.selected checked h1)
              λ kept h2 (s2, keeps).
                ensure_then Stops
                  (λ after h'. (h2 ≡ h') × AreClaimed kept.selected (ports_of claims) after) Results
                  (claim_all kept.selected (ports_of claims)) _ h2
                  (claim_all-AreClaimed kept.selected (ports_of claims) h2)
                  λ used h3 (same3, taken).
                    ensure_then Stops _ Results (assign outside limit slots (kept, used, 0)) _ h3
                      (assign-Goes outside slots claims limit slots (kept, used, 0) h3 (λ s m. m)
                        (rw (← same3) (begins kept used h2 checked same1 keeps taken)))
                      λ done h4 (s4, picks).
                        finish-IsPlanned done h4
                          (λ s p m at.
                            IsVouched-later outside given s.key p h1 h4 (vouched s p m at)
                              (later_all s2 (rw same3 s4)))
                          picks
      where
        start : PortCursor
        start = retained slots base claims cursor

        noted :
            (j : String) (p : ℕ)
            → IsEntry j p start.checked_explicit
            → IsVouched outside given j p h
        noted j p e = inr (
            rw (← same)
              (IsEntry-select (still_explicit slots base) j p cursor.checked_explicit e).0)

        chosen :
            (j : String) (p : ℕ)
            → IsEntry j p start.selected
            → ((s : PortSlot) × Memᴰ s slots × (s.key ≡ j) × (fits s p ≡ true))
              × (claimed_by p claims ≡ none)
        chosen j p e =
            let (_, still) = IsEntry-select (still_selected slots claims) j p cursor.selected e in
            let (s, m, x) =
              any-Memᴰ (λ (s : PortSlot). str_eq s.key j && fits s p) slots
                (ground (arith, still)) in
            (
              (s, m, (eq_iff s.key j).0 (ground (arith, x)), ground (arith, x)),
              not_claimed (claimed_by p claims) _ still,
            )

        begins :
            (kept : PortCursor) (used : List ℕ) (h2 : List Call) (checked : PortCursor)
            → start.selected ≡ checked.selected
            → ((j : String) (p : ℕ)
                → IsEntry j p kept.selected
                → IsEntry j p checked.selected
                  × (IsEntry j p checked.selected → IsFree outside p h2))
            → AreClaimed kept.selected (ports_of claims) used
            → AreAssigned outside slots claims limit (kept, used, 0) h2
        begins kept used h2 checked same1 keeps taken = record {
          each = λ j p e.
              let (was, free) = keeps j p e in
              let (slot, un) = chosen j p (rw same1 was) in (slot, un, free was);
          apart = taken.apart;
          taken = taken.mine;
          barred = λ p k e. taken.theirs p (claimed-is_used p k claims e);
          few = omega arith;
        }

  plan_admitted-IsPlanned :
      (ss slots : List PortSlot) (cursor : PortCursor) (limit : ℕ) (h h' : List Call) (m : Map ℕ)
      → ((s : PortSlot) → Memᴰ s slots → Memᴰ s ss)
      → (r : Result (Planned × Claims) PortPlan) → admit_all ss [] [] ≡ r
      → plan_admitted outside limit ss cursor r h ≡ (complete m, h')
      → IsPlanned slots cursor.checked_explicit m h'
  unfolding plan_admitted
  plan_admitted-IsPlanned ss slots cursor limit h h' m sub (err plan) first e =
      let stopped = admit_all-Stops ss [] [] plan first in cc
  plan_admitted-IsPlanned ss slots cursor limit h h' m sub (ok (base, claims)) first e =
      go (plan_slots outside limit ss base claims cursor h)
        (plan_slots-Results ss base claims limit cursor.checked_explicit
          (admit_all-AreAdmitted ss [] [] (base, claims) first) cursor h refl)
        e
    where
      go :
          (r : Result PortPlan PortPlan × List Call)
          → Ensures Stops
              (λ plan h. (m : Map ℕ) → plan ≡ complete m → IsPlanned ss cursor.checked_explicit m h)
              r
          → outcome r ≡ (complete m, h')
          → IsPlanned slots cursor.checked_explicit m h'
      go (ok plan, k) results e =
          let same : k ≡ h' = cc in
          let v = results m cc in
          rw (← same) (record { each = λ s at. v.each s (sub s at); apart = v.apart })
      go (err plan, k) stops e = cc

  plan_with_budget-IsPlanned :
      (slots : List PortSlot) (cursor : PortCursor) (limit : ℕ) (h h' : List Call) (m : Map ℕ)
      → plan_with_budget outside slots cursor limit h ≡ (complete m, h')
      → IsPlanned slots cursor.checked_explicit m h'
  unfolding plan_with_budget
  plan_with_budget-IsPlanned slots cursor limit h h' m e =
      plan_admitted-IsPlanned (ordered slots) slots cursor limit h h' m
        (λ s at. Memᴰ-ordered s slots at) (admit_all (ordered slots) [] []) refl e

  -- A plan that is complete gives each slot, whatever the order of the slots, a port of its range at
  -- or above 1024: for an explicit input the port that it spells, which this plan found free or the
  -- cursor noted as checked, and for an automatic slot a port above the source's, which this plan
  -- found free. No two keys have the same port. Nothing else is asked of the cursor, so earlier
  -- selections that no longer fit, or that are taken, are never kept.
  pub plan_ports_bounded-IsPlanned :
      (slots : List PortSlot) (cursor : PortCursor) (h h' : List Call) (m : Map ℕ)
      → plan_ports_bounded outside slots cursor h ≡ (complete m, h')
      → IsPlanned slots cursor.checked_explicit m h'
  unfolding plan_ports_bounded
  plan_ports_bounded-IsPlanned slots cursor h h' m e =
      plan_with_budget-IsPlanned slots cursor 256 h h' m e
