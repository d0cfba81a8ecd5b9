-- ===== src/HostPorts/Plan/Assignment.antt =====
-- crates/application/src/host_ports.rs: what the last loop of a plan selects.
use mathlib.Core.List.{Memᴰ}
use compose_nest.Common.{
  ℕ, zero, suc, ◌+◌, ◌≤◌, ◌≡◌, refl, sym, ◌∙◌, inl, inr, String, true, false, Option, none, some,
  List, [], ◌∷◌, ◌||◌, arith, leb, lookup, has_key, is_some, IsEntry, IsEntry-insert, Bool-cases,
  Option-cases, IsSuffix, whole, later_all, Ensures, ensure_then, ensure_weaken,
}
use compose_nest.HostPorts.{
  Call, Outside, Ending, found, incomplete, inconclusive, exhausted, Scanned, is_barred, scan,
  scan_from,
}
use compose_nest.HostPorts.Scan.{scan_from-IsScanned}
use compose_nest.HostPorts.Slots.{PortSlot, PortCursor, Claims, claimed_by}
use compose_nest.HostPorts.Plan.{
  Progress, fits, above, is_used, max_of, start_of, picked, moved, entry_of, settle_slot, scan_slot,
  search_slot, assign_slot, assign,
}
use compose_nest.HostPorts.Plan.Checks.{Stops, IsFree, IsFree-later}

module _ (outside : Outside) (slots : List PortSlot) (claims : Claims) where
  -- A selection: a port that fits a slot of its key, that no explicit input claims, and that was
  -- found free.
  abbrev pub IsPicked : String → ℕ → List Call → Type 0
  IsPicked j p h =
      ((s : PortSlot) × Memᴰ s slots × (s.key ≡ j) × (fits s p ≡ true))
      × (claimed_by p claims ≡ none)
      × IsFree outside p h

  -- The selections so far, and the ports that are taken.
  pub record AreAssigned (limit : ℕ) (state : Progress) (h : List Call) : Type 0 where
    pub each : (j : String) (p : ℕ) → IsEntry j p state.0.selected → IsPicked j p h
    pub apart :
        (j k : String) (p : ℕ) → IsEntry j p state.0.selected → IsEntry k p state.0.selected → j ≡ k
    pub taken : (j : String) (p : ℕ) → IsEntry j p state.0.selected → is_used p state.1 ≡ true
    pub barred : (p : ℕ) (k : String) → claimed_by p claims ≡ some k → is_used p state.1 ≡ true
    pub few : state.2 ≤ limit

  module _ (limit : ℕ) where
    abbrev pub Goes : List Call → Progress → List Call → Type 0
    Goes h state h' = IsSuffix h h' × AreAssigned limit state h'

    -- A port that the scan found is fresh, fits its slot, and is free.
    found-Goes :
        (slot : PortSlot) (cursor : PortCursor) (used : List ℕ) (attempts next port : ℕ)
        (h h' : List Call) (tries : ℕ)
        → Memᴰ slot slots
        → AreAssigned limit (cursor, used, attempts) h
        → IsSuffix h h'
        → fits slot port ≡ true
        → is_used port used ≡ false
        → IsFree outside port h'
        → tries ≤ limit
        → Goes h (picked slot.key port (moved slot.key next cursor), port ∷ used, tries) h'
    found-Goes slot cursor used attempts next port h h' tries m was s fit fresh free few = (
      s,
      record {
        each = λ j p e. elim (IsEntry-insert j slot.key p port cursor.selected e) [
          | inl (x, y) ↦ rw (x, y) ((slot, m, refl, fit), unclaimed, free)
          | inr old ↦
              let (at, un, was_free) = was.each j p old in
              (at, un, IsFree-later outside p h h' was_free s)
        ];
        apart = λ j k p e g. elim (IsEntry-insert j slot.key p port cursor.selected e) [
          | inl here ↦ elim (IsEntry-insert k slot.key p port cursor.selected g) [
            | inl there ↦ here.0 ∙ sym there.0
            | inr old ↦ absurd (new p here.1 (was.taken k p old))
          ]
          | inr old ↦ elim (IsEntry-insert k slot.key p port cursor.selected g) [
            | inl there ↦ absurd (new p there.1 (was.taken j p old))
            | inr older ↦ was.apart j k p old older
          ]
        ];
        taken = λ j p e. elim (IsEntry-insert j slot.key p port cursor.selected e) [
          | inl here ↦ ground (arith, here.1)
          | inr old ↦ ground (arith, was.taken j p old)
        ];
        barred = λ p k e. ground (arith, was.barred p k e);
        few = few;
      },
    )
      where
        new : (p : ℕ) → p ≡ port → is_used p used ≡ true → ⊥
        new p same e = cc

        unclaimed : claimed_by port claims ≡ none
        unclaimed = elim (Option-cases (claimed_by port claims)) [
          | inl e ↦ e
          | inr (k, e) ↦ absurd (new port refl (was.barred port k e))
        ]

    -- What the scan of a slot gives, when it finds a port.
    abbrev Finds : PortSlot → List ℕ → ℕ → List Call → Scanned → List Call → Type 0
    Finds slot used start h r h' =
        (p : ℕ)
        → r.ending ≡ found p
        → (start ≤ p)
          × (p ≤ slot.max)
          × (is_barred outside slot.min limit used p ≡ false)
          × IsFree outside p h'
          × IsSuffix h h'
          × (r.attempts ≤ limit)

    none_left :
        (min : ℕ) (used : List ℕ) (n candidate next attempts : ℕ) (h : List Call) (p : ℕ)
        → n ≡ 0
        → (scan outside min limit used n candidate next attempts h).ending ≡ found p
        → ⊥
    unfolding scan
    none_left _ _ zero candidate next attempts h p e x = cc
    none_left _ _ (suc n) candidate next attempts h p e x = absurd (omega (arith, e))

    scan_slot-Finds :
        (slot : PortSlot) (used : List ℕ) (start entry attempts : ℕ) (h : List Call)
        → attempts ≤ limit
        → Ensures Stops
            (Finds slot used start h)
            (scan_slot outside limit slot used start entry attempts h)
    unfolding scan_slot scan_from
    scan_slot-Finds slot used start entry attempts h few p e =
        elim (Bool-cases (leb (max_of entry start) (slot.max + 1))) [
          | inl within ↦
              let v =
                scan_from-IsScanned outside slot.min limit used slot.max (max_of entry start) entry
                  attempts h (ground (arith, within)) few in
              let (low, high, free, (t, call, granted), _) = v.taken p e in
              (
                ground (arith, low),
                omega (arith, high),
                free,
                (t, rw call whole, granted),
                v.grows,
                v.bounded,
              )
          | inr past ↦ absurd (none_left _ _ _ _ _ _ h p (ground (arith, past)) e)
        ]

    -- A port that is not barred, from the slot's start up to its maximum, fits the slot.
    found-fits :
        (slot : PortSlot) (used : List ℕ) (start p : ℕ)
        → slot.explicit ≡ none
        → start_of slot ≡ some start
        → start ≤ p
        → p ≤ slot.max
        → is_barred outside slot.min limit used p ≡ false
        → (fits slot p ≡ true) × (is_used p used ≡ false)
    found-fits slot used start p auto first low high free =
        let higher = starts slot.source first in
        (ground (arith, auto, low, high, free, higher), ground (arith, free))
      where
        starts :
            (source : Option ℕ)
            → elim source [ some port ↦ some (port + 1) | none ↦ slot.recommended ] ≡ some start
            → above source p ≡ true
        starts none e = refl
        starts (some q) e = ground (arith, e, low)

    search_slot-Goes :
        (slot : PortSlot) (state : Progress) (start : Option ℕ) (h : List Call)
        → Memᴰ slot slots
        → slot.explicit ≡ none
        → start_of slot ≡ start
        → AreAssigned limit state h
        → Ensures Stops (Goes h) (search_slot outside limit slot state start h)
    unfolding search_slot settle_slot
    search_slot-Goes slot state none h m auto first was = refl
    search_slot-Goes slot (cursor, used, attempts) (some start) h m auto first was =
        ensure_then Stops (Finds slot used start h) (Goes h)
          (scan_slot outside limit slot used start (entry_of (lookup slot.key cursor.next) start)
            attempts)
          _ h
          (scan_slot-Finds slot used start (entry_of (lookup slot.key cursor.next) start) attempts h
            was.few)
          λ r h' finds. settled r.ending r.next r.attempts h' finds
      where
        settled :
            (ending : Ending) (next tries : ℕ) (h' : List Call)
            → ((p : ℕ)
                → ending ≡ found p
                → (start ≤ p)
                  × (p ≤ slot.max)
                  × (is_barred outside slot.min limit used p ≡ false)
                  × IsFree outside p h'
                  × IsSuffix h h'
                  × (tries ≤ limit))
            → Ensures Stops
                (Goes h)
                (settle_slot slot.key (moved slot.key next cursor) used tries ending h')
        settled (found p) next tries h' finds =
            let (low, high, free, idle, s, few) = finds p refl in
            let (fit, fresh) = found-fits slot used start p auto first low high free in
            found-Goes slot cursor used attempts next p h h' tries m was s fit fresh idle few
        settled incomplete next tries h' finds = refl
        settled (inconclusive p) next tries h' finds = refl
        settled exhausted next tries h' finds = refl

    assign_slot-Goes :
        (slot : PortSlot) (state : Progress) (h : List Call)
        → Memᴰ slot slots
        → AreAssigned limit state h
        → Ensures Stops (Goes h) (assign_slot outside limit slot state h)
    unfolding assign_slot
    assign_slot-Goes slot state h m was =
        elim (Bool-cases (is_some slot.explicit || has_key slot.key state.0.selected)) [
          | inl done ↦ rw done (whole, was)
          | inr idle ↦ rw idle (
              search_slot-Goes slot state (start_of slot) h m (automatic slot.explicit idle) refl
                was)
        ]
      where
        automatic :
            (o : Option String) → is_some o || has_key slot.key state.0.selected ≡ false → o ≡ none
        automatic none e = refl
        automatic (some s) e = cc

    pub assign-Goes :
        (rest : List PortSlot) (state : Progress) (h : List Call)
        → ((s : PortSlot) → Memᴰ s rest → Memᴰ s slots)
        → AreAssigned limit state h
        → Ensures Stops (Goes h) (assign outside limit rest state h)
    unfolding assign
    assign-Goes [] state h sub was = (whole, was)
    assign-Goes (slot ∷ rest) state h sub was =
        ensure_then Stops (Goes h) (Goes h) (assign_slot outside limit slot state) _ h
          (assign_slot-Goes slot state h (sub slot (Memᴰ.head refl)) was)
          λ next h1 (s1, was1).
            ensure_weaken Stops (Goes h1) (Goes h) (assign outside limit rest next h1)
              (assign-Goes rest next h1 (λ s m. sub s (Memᴰ.tail m)) was1)
              λ last h2 (s2, was2). (later_all s1 s2, was2)
