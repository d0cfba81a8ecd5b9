-- ===== src/Instance/Operation/Progress.antt =====
-- crates/domain/src/instance.rs: the progress of an operation over any sequence of transitions.
use compose_nest.Common.{
  ℕ, ◌+◌, ◌≤◌, ◌<◌, ◌≡◌, ◌≢◌, ◌↔◌, false, List, [], ◌∷◌, arith, err, u32_max, is_ok, if◌then◌else◌,
}
use compose_nest.Identity.{InstanceId}
use compose_nest.Instance.Operation.{
  OperationKind, OperationStatus, accepted, executing, succeeded, awaiting_decision, failed,
  outcome_unknown, abandoned, is_unresolved, invalid_transition, Operation, new_operation,
  is_executing, transition,
}

abbrev pub run : Operation → List OperationStatus → Operation
run op [] = op
run op (n ∷ ns) = run (transition n op).1 ns

-- How many of the requested transitions started an execution.
abbrev pub started : Operation → List OperationStatus → ℕ
started op [] = 0
started op (n ∷ ns) =
    (if is_executing n then (if is_ok (transition n op).0 then 1 else 0) else 0)
    + started (transition n op).1 ns

pub record Keeps (s t : Operation) : Type 0 where
  pub id : t.id ≡ s.id
  pub instance : t.instance_id ≡ s.instance_id
  pub kind : t.kind ≡ s.kind

transition-Keeps : (op : Operation) (n : OperationStatus) → Keeps op (transition n op).1
unfolding transition
transition-Keeps op n = ground arith

transition-attempt :
    (op : Operation) (n : OperationStatus)
    → (transition n op).1.attempt
      ≡ op.attempt + (if is_executing n then (if is_ok (transition n op).0 then 1 else 0) else 0)
unfolding transition
transition-attempt op n = ground arith

run-attempt :
    (op : Operation) (ns : List OperationStatus) → (run op ns).attempt ≡ op.attempt + started op ns
run-attempt op [] = omega arith
run-attempt op (n ∷ ns) = omega (arith, transition-attempt op n, run-attempt (transition n op).1 ns)

run-Keeps : (op : Operation) (ns : List OperationStatus) → Keeps op (run op ns)
run-Keeps op [] = ground arith
run-Keeps op (n ∷ ns) = ground (arith, transition-Keeps op n, run-Keeps (transition n op).1 ns)

-- What holds of an operation that started as a new intent.
pub record IsRecorded (op : Operation) : Type 0 where
  pub begun : op.status ≢ accepted → 1 ≤ op.attempt
  pub fresh : op.status ≡ accepted → op.attempt ≡ 0
  pub fits : op.attempt ≤ u32_max

transition-IsRecorded :
    (op : Operation) (n : OperationStatus) → IsRecorded op → IsRecorded (transition n op).1
unfolding transition
transition-IsRecorded op n h = ground arith

run-IsRecorded :
    (op : Operation) (ns : List OperationStatus) → IsRecorded op → IsRecorded (run op ns)
run-IsRecorded op [] h = h
run-IsRecorded op (n ∷ ns) h = run-IsRecorded (transition n op).1 ns (transition-IsRecorded op n h)

-- Under any requested transitions a new operation keeps its ID, instance and kind; its attempt
-- counter is the number of executions that were started and fits 32 bits; and it has left
-- `accepted` exactly when an execution was started.
pub run-new_operation :
    (id : ℕ) (instance_id : InstanceId) (kind : OperationKind) (ns : List OperationStatus)
    → let start = new_operation id instance_id kind in
      let op = run start ns in
      (op.id ≡ id)
      × (op.instance_id ≡ instance_id)
      × (op.kind ≡ kind)
      × (op.attempt ≡ started start ns)
      × (op.attempt ≤ u32_max)
      × ((op.status ≢ accepted) ↔ (1 ≤ op.attempt))
unfolding new_operation
run-new_operation id instance_id kind ns =
    let k = run-Keeps (new_operation id instance_id kind) ns in
    let r = run-IsRecorded (new_operation id instance_id kind) ns (ground arith) in
    (
      k.id,
      k.instance,
      k.kind,
      omega (arith, run-attempt (new_operation id instance_id kind) ns),
      r.fits,
      (r.begun, λ h e. omega (arith, r.fresh e)),
    )

-- An operation is resolved exactly when every transition of it is refused and changes nothing.
pub resolved_iff :
    (op : Operation)
    → (is_unresolved op.status ≡ false)
      ↔ ((n : OperationStatus) → transition n op ≡ (err invalid_transition, op))
unfolding is_unresolved transition
resolved_iff op = (λ h n. ground arith, λ f. ground (arith, f executing, f succeeded, f abandoned))

abbrev way_out : OperationStatus → List OperationStatus
way_out accepted = executing ∷ succeeded ∷ []
way_out executing = succeeded ∷ []
way_out outcome_unknown = succeeded ∷ []
way_out failed = abandoned ∷ []
way_out awaiting_decision = abandoned ∷ []
way_out _ = []

-- While the attempt counter is not exhausted, every operation can still be resolved.
pub can_be_resolved :
    (op : Operation)
    → op.attempt < u32_max
    → (ns : List OperationStatus) × (is_unresolved (run op ns).status ≡ false)
unfolding is_unresolved transition
can_be_resolved op h = (way_out op.status, ground arith)
