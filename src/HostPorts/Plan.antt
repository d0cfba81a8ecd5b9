-- ===== src/HostPorts/Plan.antt =====
-- crates/application/src/host_ports.rs: `plan_with_budget` after its first loop, and
-- `plan_ports_bounded`, which gives it the number of attempts.
pub mod Admission
pub mod Checks
pub mod Taken
pub mod Assignment
pub mod Refused
pub mod Joined
pub mod Complete
use compose_nest.Common.{
  ℕ, ◌+◌, String, Bool, true, false, not, ◌&&◌, ◌||◌, Option, none, some, List, [], ◌∷◌, Result, ok,
  err, Exec, perform, pure, raise, ◌>>=◌, ◌>>◌, any, select, is_some, str_eq, ◌==◌, ltb, leb,
  if◌then◌else◌, Map, lookup, insert, remove, has_key,
}
use compose_nest.HostPorts.{PortReason, Call, elapsed, inspect, Outside, Scanned, Ending, scan_from}
use compose_nest.HostPorts.Slots.{
  PortSlot, PortCursor, PortCheck, PortPlan, complete, incomplete, needs_input, rejected, ordered,
  Claims, claimed_by, Planned, admit_all,
}

abbrev pub is_port : Option (Option ℕ) → ℕ → Bool
is_port (some (some p)) port = p == port
is_port _ port = false

abbrev pub above : Option ℕ → ℕ → Bool
above none port = true
above (some source) port = ltb source port

-- The two `retain` of a resumed plan.
abbrev pub still_explicit : List PortSlot → Planned → String × ℕ → Bool
still_explicit slots planned e =
    any (λ (s : PortSlot). str_eq s.key e.0 && is_port (lookup s.key planned) e.1) slots

abbrev pub fits : PortSlot → ℕ → Bool
fits slot port =
    not (is_some slot.explicit) && leb slot.min port && leb port slot.max && above slot.source port

abbrev pub still_selected : List PortSlot → Claims → String × ℕ → Bool
still_selected slots claims e =
    any (λ (s : PortSlot). str_eq s.key e.0 && fits s e.1) slots
    && not (is_some (claimed_by e.1 claims))

unfoldable pub retained : List PortSlot → Planned → Claims → PortCursor → PortCursor
retained slots planned claims cursor = record {
  next = cursor.next;
  selected = select (still_selected slots claims) cursor.selected;
  checked_explicit = select (still_explicit slots planned) cursor.checked_explicit;
}

abbrev pub Planning : Type 0 → Type 0
Planning = Exec Call PortPlan

-- The cursor's entry after a selected port was refused.
abbrev pub passed_over : String → ℕ → Map ℕ → Map ℕ
passed_over key port m =
    insert key
      (elim (lookup key m) [ none ↦ port + 1 | some n ↦ if leb n (port + 1) then port + 1 else n ])
      m

abbrev pub max_of : ℕ → ℕ → ℕ
max_of a b = if leb a b then b else a

-- The check of an explicit port.
unfoldable pub accept_check : String → ℕ → PortCursor → PortCheck → Planning PortCursor
accept_check key port cursor (ok _) =
    pure (record cursor { checked_explicit = insert key port cursor.checked_explicit })
accept_check key port cursor (err reason) = raise (rejected key reason (some (err reason)))

abbrev pub is_same : Option ℕ → ℕ → Bool
is_same none port = false
is_same (some p) port = p == port

unfoldable pub keep_selected : String → ℕ → PortCursor → PortCheck → Planning PortCursor
keep_selected key port cursor (ok _) = pure cursor
keep_selected key port cursor (err PortReason.unavailable) =
    raise (rejected key PortReason.unavailable (some (err PortReason.unavailable)))
keep_selected key port cursor (err _) = pure (record cursor {
  selected = remove key cursor.selected;
  next = passed_over key port cursor.next;
})

abbrev pub is_used : ℕ → List ℕ → Bool
is_used port used = any (λ p. p == port) used

-- The ports that are taken, or the slot whose selection another one has.
unfoldable pub claim_all : Map ℕ → List ℕ → Planning (List ℕ)
claim_all [] used = pure used
claim_all ((key, port) ∷ entries) used =
    let rest = claim_all entries (port ∷ used) in
    if is_used port used then raise (rejected key PortReason.planned none) else rest

abbrev pub start_of : PortSlot → Option ℕ
start_of slot = elim slot.source [ some port ↦ some (port + 1) | none ↦ slot.recommended ]

-- The state of the last loop: the cursor, the ports that are taken, and the attempts.
abbrev pub Progress : Type 0
Progress = PortCursor × List ℕ × ℕ

-- The cursor once the scan of a slot has written its entry.
abbrev pub moved : String → ℕ → PortCursor → PortCursor
moved key next cursor = record cursor { next = insert key next cursor.next }

abbrev pub picked : String → ℕ → PortCursor → PortCursor
picked key port cursor = record cursor { selected = insert key port cursor.selected }

-- What follows the scan of a slot, by how it ended.
unfoldable pub settle_slot : String → PortCursor → List ℕ → ℕ → Ending → Planning Progress
settle_slot key cursor used attempts (Ending.found port) =
    pure (picked key port cursor, port ∷ used, attempts)
settle_slot key cursor used attempts Ending.incomplete = raise (incomplete cursor)
settle_slot key cursor used attempts (Ending.inconclusive port) =
    raise (rejected key PortReason.unavailable (some (err PortReason.unavailable)))
settle_slot key cursor used attempts Ending.exhausted = raise (needs_input key)

-- `*entry(key).or_insert(start)`
abbrev pub entry_of : Option ℕ → ℕ → ℕ
entry_of none start = start
entry_of (some n) start = n

-- The plan's map, with the selections put into it.
abbrev pub join : Map ℕ → Planned → Planned
join [] planned = planned
join ((key, port) ∷ entries) planned = join entries (insert key (some port) planned)

abbrev pub first_open : Planned → Option String
first_open [] = none
first_open ((key, none) ∷ m) = some key
first_open ((key, some _) ∷ m) = first_open m

abbrev pub assigned : Planned → Map ℕ
assigned [] = []
assigned ((key, none) ∷ m) = assigned m
assigned ((key, some port) ∷ m) = (key, port) ∷ assigned m

abbrev pub finish : Planned → Option String → PortPlan
finish planned (some key) = needs_input key
finish planned none = complete (assigned planned)

-- The ports of the explicit inputs.
abbrev pub ports_of : Claims → List ℕ
ports_of [] = []
ports_of ((p, k) ∷ cs) = p ∷ ports_of cs

abbrev pub outcome : Result PortPlan PortPlan × List Call → PortPlan × List Call
outcome (ok plan, h) = (plan, h)
outcome (err plan, h) = (plan, h)

module _ (outside : Outside) where
  -- `started.elapsed() >= deadline`, which ends the plan.
  unfoldable pub in_time : PortCursor → Planning (Unit {0})
  in_time cursor = do
    late ← perform elapsed λ h. ok (outside.is_late h)
    if late then raise (incomplete cursor) else pure tt

  unfoldable pub check_port : ℕ → Planning PortCheck
  check_port port = perform (inspect port) λ h. ok (outside.inspect port h)

  unfoldable pub check_slot : String → Option (Option ℕ) → PortCursor → Planning PortCursor
  unfolding accept_check in_time check_port
  check_slot key (some (some port)) cursor =
      if is_same (lookup key cursor.checked_explicit) port
      then pure cursor
      else do in_time cursor; check ← check_port port; accept_check key port cursor check
  check_slot key _ cursor = pure cursor

  unfoldable pub check_explicit : List PortSlot → Planned → PortCursor → Planning PortCursor
  check_explicit [] planned cursor = pure cursor
  check_explicit (slot ∷ slots) planned cursor = do
    next ← check_slot slot.key (lookup slot.key planned) cursor
    check_explicit slots planned next

  -- The loop over the earlier selections, as they were when it began.
  unfoldable pub recheck : Map ℕ → PortCursor → Planning PortCursor
  unfolding in_time check_port keep_selected
  recheck [] cursor = pure cursor
  recheck ((key, port) ∷ entries) cursor = do
    in_time cursor
    check ← check_port port
    next ← keep_selected key port cursor check
    recheck entries next

  -- The loop over the candidates of a slot, from the cursor's entry.
  unfoldable pub scan_slot : ℕ → PortSlot → List ℕ → ℕ → ℕ → ℕ → Planning Scanned
  scan_slot limit slot used start entry attempts h =
      let r =
        scan_from outside slot.min limit used slot.max (max_of entry start) entry attempts h in
      (ok r, r.calls)

  unfoldable pub search_slot : ℕ → PortSlot → Progress → Option ℕ → Planning Progress
  unfolding scan_slot settle_slot
  search_slot limit slot state none = raise (needs_input slot.key)
  search_slot limit slot (cursor, used, attempts) (some start) = do
    r ← scan_slot limit slot used start (entry_of (lookup slot.key cursor.next) start) attempts
    settle_slot slot.key (moved slot.key r.next cursor) used r.attempts r.ending

  unfoldable pub assign_slot : ℕ → PortSlot → Progress → Planning Progress
  unfolding search_slot
  assign_slot limit slot state =
      if is_some slot.explicit || has_key slot.key state.0.selected
      then pure state
      else search_slot limit slot state (start_of slot)

  unfoldable pub assign : ℕ → List PortSlot → Progress → Planning Progress
  unfolding assign_slot
  assign limit [] state = pure state
  assign limit (slot ∷ slots) state = do
    next ← assign_slot limit slot state
    assign limit slots next

  -- All that follows the first loop.
  unfoldable pub plan_slots : ℕ → List PortSlot → Planned → Claims → PortCursor → Planning PortPlan
  unfolding retained check_explicit recheck claim_all assign
  plan_slots limit slots planned claims cursor = do
    checked ← check_explicit slots planned (retained slots planned claims cursor)
    kept ← recheck checked.selected checked
    used ← claim_all kept.selected (ports_of claims)
    done ← assign limit slots (kept, used, 0)
    pure (finish (join done.0.selected planned) (first_open (join done.0.selected planned)))

  unfoldable pub plan_admitted :
      ℕ
      → List PortSlot
      → PortCursor
      → Result (Planned × Claims) PortPlan
      → List Call
      → PortPlan × List Call
  unfolding plan_slots
  plan_admitted limit slots cursor (err plan) h = (plan, h)
  plan_admitted limit slots cursor (ok (planned, claims)) h =
      outcome (plan_slots limit slots planned claims cursor h)

  unfoldable pub plan_with_budget :
      List PortSlot → PortCursor → ℕ → List Call → PortPlan × List Call
  unfolding ordered admit_all plan_admitted
  plan_with_budget slots cursor limit h =
      plan_admitted limit (ordered slots) cursor (admit_all (ordered slots) [] []) h

  unfoldable pub plan_ports_bounded : List PortSlot → PortCursor → List Call → PortPlan × List Call
  unfolding plan_with_budget
  plan_ports_bounded slots cursor h = plan_with_budget slots cursor 256 h
