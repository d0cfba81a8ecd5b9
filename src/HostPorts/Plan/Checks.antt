-- ===== src/HostPorts/Plan/Checks.antt =====
-- crates/application/src/host_ports.rs: what the checks of a plan establish, and the ports claimed.
use mathlib.Core.List.{Memᴰ}
use compose_nest.Common.{
  ℕ, ◌≡◌, refl, sym, ◌∙◌, ◌⊎◌, inl, inr, String, Bool, true, false, Option, none, some, List, [],
  ◌∷◌, ok, err, arith, if◌then◌else◌, Map, lookup, IsEntry, IsEntry-insert, lookup-IsEntry,
  Bool-cases, IsSuffix, whole, later, later_all, Ensures, ensure_then, ensure_weaken, perform, pure,
  raise, IsEntry-remove,
}
use compose_nest.HostPorts.{unavailable, Call, inspect, Outside}
use compose_nest.HostPorts.Slots.{
  PortSlot, PortCursor, PortCheck, PortPlan, complete, incomplete, Planned,
}
use compose_nest.HostPorts.Plan.{
  in_time, check_port, accept_check, is_same, check_slot, check_explicit, keep_selected, recheck,
}

abbrev pub is_complete : PortPlan → Bool
is_complete (complete m) = true
is_complete _ = false

-- A plan that ends early is not complete.
abbrev pub Stops : PortPlan → Type 0
Stops plan = is_complete plan ≡ false

module _ (outside : Outside) where
  -- The inspector found the port free at some point of the history.
  abbrev pub IsFree : ℕ → List Call → Type 0
  IsFree port h =
      (t : List Call) × IsSuffix (inspect port ∷ t) h
      × (outside.inspect port (inspect port ∷ t) ≡ ok tt)

  pub IsFree-later : (port : ℕ) (h h' : List Call) → IsFree port h → IsSuffix h h' → IsFree port h'
  IsFree-later port h h' (t, at, free) s = (t, later_all at s, free)

  in_time-Ensures :
      (cursor : PortCursor) (h : List Call)
      → Ensures Stops (λ _ h'. IsSuffix h h') (in_time outside cursor h)
  unfolding in_time perform
  in_time-Ensures cursor h =
      ensure_then Stops (λ _ h'. IsSuffix h h') (λ _ h'. IsSuffix h h') _ _ h (later whole) go
    where
      go :
          (late : Bool) (h' : List Call)
          → IsSuffix h h'
          → Ensures Stops
              (λ _ h'. IsSuffix h h')
              ((if late then raise (incomplete cursor) else pure tt) h')
      go true h' s = refl
      go false h' s = s

  check_port-Ensures :
      (port : ℕ) (h : List Call)
      → Ensures Stops
          (λ check h'. IsSuffix h h' × (check ≡ ok tt → IsFree port h'))
          (check_port outside port h)
  unfolding check_port perform
  check_port-Ensures port h = (later whole, λ free. (h, whole, free))

  -- A selection is kept only when its check found the port free.
  keep_selected-Ensures :
      (key : String) (port : ℕ) (cursor : PortCursor) (check : PortCheck) (h : List Call)
      → Ensures Stops
          (λ c h'.
            (h ≡ h')
            × ((j : String) (p : ℕ)
                → IsEntry j p c.selected
                → IsEntry j p cursor.selected × ((key ≡ j) × (port ≡ p) → check ≡ ok tt)))
          (keep_selected key port cursor check h)
  unfolding keep_selected
  keep_selected-Ensures key port cursor (ok _) h = (refl, λ j p e. (e, λ _. refl))
  keep_selected-Ensures key port cursor (err unavailable) h = refl
  keep_selected-Ensures key port cursor (err _) h = (
    refl,
    λ j p e.
        let (at, other) = IsEntry-remove j key p cursor.selected e in
        (at, λ x. absurd (other (sym x.0))),
  )

  -- What the loop over the earlier selections keeps was selected before and is free.
  abbrev pub AreKept : Map ℕ → PortCursor → List Call → PortCursor → List Call → Type 0
  AreKept entries cursor h c h' =
      IsSuffix h h'
      × ((j : String) (p : ℕ)
          → IsEntry j p c.selected
          → IsEntry j p cursor.selected × (IsEntry j p entries → IsFree p h'))

  pub recheck-AreKept :
      (entries : Map ℕ) (cursor : PortCursor) (h : List Call)
      → Ensures Stops (AreKept entries cursor h) (recheck outside entries cursor h)
  unfolding recheck
  recheck-AreKept [] cursor h = (whole, λ j p e. (e, absurd))
  recheck-AreKept ((key, port) ∷ entries) cursor h =
      ensure_then Stops (λ _ h1. IsSuffix h h1) (AreKept ((key, port) ∷ entries) cursor h)
        (in_time outside cursor) _ h (in_time-Ensures cursor h)
        λ _ h1 s1.
          ensure_then Stops _ (AreKept ((key, port) ∷ entries) cursor h) (check_port outside port) _
            h1 (check_port-Ensures port h1)
            λ check h2 (s2, free).
              ensure_then Stops _ (AreKept ((key, port) ∷ entries) cursor h)
                (keep_selected key port cursor check) _ h2
                (keep_selected-Ensures key port cursor check h2)
                λ c h3 (same, kept).
                  ensure_weaken Stops (AreKept entries c h3)
                    (AreKept ((key, port) ∷ entries) cursor h) (recheck outside entries c h3)
                    (recheck-AreKept entries c h3)
                    λ d h4 (s4, rest).
                      let before4 : IsSuffix h2 h4 = rw same s4 in
                      (
                        later_all s1 (later_all s2 before4),
                        λ j p e.
                            let (was, found) = rest j p e in
                            let (first, fine) = kept j p was in
                            (
                              first,
                              λ x. elim x [
                                | inl here ↦
                                    rw (← here.1)
                                      (IsFree-later port h2 h4 (free (fine here)) before4)
                                | inr later_on ↦ found later_on
                              ],
                            ),
                      )

  is_same-lookup : (o : Option ℕ) (port p : ℕ) → is_same o port ≡ true → port ≡ p → o ≡ some p
  is_same-lookup none port p e x = cc
  is_same-lookup (some q) port p e x = ground (arith, e, x)

  -- An explicit port was checked by this plan, or by the one that it resumes.
  module _ (given : Map ℕ) where
    abbrev pub IsVouched : String → ℕ → List Call → Type 0
    IsVouched key port h = IsFree port h ⊎ IsEntry key port given

    pub IsVouched-later :
        (key : String) (port : ℕ) (h h' : List Call)
        → IsVouched key port h
        → IsSuffix h h'
        → IsVouched key port h'
    IsVouched-later key port h h' (inl free) s = inl (IsFree-later port h h' free s)
    IsVouched-later key port h h' (inr old) s = inr old

    -- The cursor notes only explicit ports that were checked.
    abbrev pub Notes : PortCursor → List Call → Type 0
    Notes cursor h = (j : String) (p : ℕ) → IsEntry j p cursor.checked_explicit → IsVouched j p h

    abbrev Checks :
        String → Option (Option ℕ) → PortCursor → List Call → PortCursor → List Call → Type 0
    Checks key at cursor h c h' =
        IsSuffix h h'
        × (cursor.selected ≡ c.selected)
        × Notes c h'
        × ((p : ℕ) → at ≡ some (some p) → IsVouched key p h')

    accept_check-Checks :
        (key : String) (port : ℕ) (cursor : PortCursor) (check : PortCheck) (h0 h : List Call)
        → Notes cursor h0
        → IsSuffix h0 h
        → (check ≡ ok tt → IsFree port h)
        → Ensures Stops
            (Checks key (some (some port)) cursor h0)
            (accept_check key port cursor check h)
    unfolding accept_check
    accept_check-Checks key port cursor (ok _) h0 h notes s free = (
      s,
      refl,
      (λ j p e. elim (IsEntry-insert j key p port cursor.checked_explicit e) [
        | inl (_, y) ↦ inl (rw y (free refl))
        | inr old ↦ IsVouched-later j p h0 h (notes j p old) s
      ]),
      λ p x. let here : port ≡ p = cc in rw (← here) (inl (free refl)),
    )
    accept_check-Checks key port cursor (err reason) h0 h notes s free = refl

    check_slot-Checks :
        (key : String) (at : Option (Option ℕ)) (cursor : PortCursor) (h : List Call)
        → Notes cursor h
        → Ensures Stops (Checks key at cursor h) (check_slot outside key at cursor h)
    unfolding check_slot
    check_slot-Checks key none cursor h notes = (whole, refl, notes, λ p x. cc)
    check_slot-Checks key (some none) cursor h notes = (whole, refl, notes, λ p x. cc)
    check_slot-Checks key (some (some port)) cursor h notes =
        elim (Bool-cases (is_same (lookup key cursor.checked_explicit) port)) [
          | inl known ↦ rw known (
            whole,
            refl,
            notes,
            λ p x.
                notes key p
                  (lookup-IsEntry key p cursor.checked_explicit (is_same-lookup _ port p known cc)),
          )
          | inr fresh ↦ rw fresh (
              ensure_then Stops (λ _ h1. IsSuffix h h1) (Checks key (some (some port)) cursor h)
                (in_time outside cursor) _ h (in_time-Ensures cursor h)
                λ _ h1 s1.
                  ensure_then Stops _ (Checks key (some (some port)) cursor h)
                    (check_port outside port) _ h1 (check_port-Ensures port h1)
                    λ check h2 (s2, free).
                      accept_check-Checks key port cursor check h h2 notes (later_all s1 s2) free)
        ]

    abbrev pub AreChecked :
        List PortSlot → Planned → PortCursor → List Call → PortCursor → List Call → Type 0
    AreChecked slots planned cursor h c h' =
        IsSuffix h h'
        × (cursor.selected ≡ c.selected)
        × ((s : PortSlot) (p : ℕ)
            → Memᴰ s slots
            → lookup s.key planned ≡ some (some p)
            → IsVouched s.key p h')

    pub check_explicit-AreChecked :
        (slots : List PortSlot) (planned : Planned) (cursor : PortCursor) (h : List Call)
        → Notes cursor h
        → Ensures Stops
            (AreChecked slots planned cursor h)
            (check_explicit outside slots planned cursor h)
    unfolding check_explicit
    check_explicit-AreChecked [] planned cursor h notes = (whole, refl, λ s p m. elim m [ ])
    check_explicit-AreChecked (slot ∷ slots) planned cursor h notes =
        ensure_then Stops (Checks slot.key (lookup slot.key planned) cursor h)
          (AreChecked (slot ∷ slots) planned cursor h)
          (check_slot outside slot.key (lookup slot.key planned) cursor) _ h
          (check_slot-Checks slot.key (lookup slot.key planned) cursor h notes)
          λ c h1 (s1, same1, notes1, here).
            ensure_weaken Stops (AreChecked slots planned c h1)
              (AreChecked (slot ∷ slots) planned cursor h)
              (check_explicit outside slots planned c h1)
              (check_explicit-AreChecked slots planned c h1 notes1)
              λ d h2 (s2, same2, rest). (
                later_all s1 s2,
                same1 ∙ same2,
                λ s p m x. elim m [
                  | Memᴰ.head e ↦ rw e (IsVouched-later slot.key p h1 h2 (here p (rw (← e) x)) s2)
                  | Memᴰ.tail m ↦ rest s p m x
                ],
              )
