-- ===== src/Database.antt =====
-- crates/adapters/src: the rows of entities.rs that the operation journal uses, the errors of
-- sqlite.rs with their meaning in state_store.rs, and a write on the database's one writer thread.
-- A table is the list of its rows in the order of insertion, and a query is a search of it. A column
-- whose values migrations/ restricts to the spellings of Journal/Stored holds the value that is
-- spelled, and an integer column that is restricted to positive values holds a natural number.
pub mod Operations
pub mod Resolution
pub mod Requests
pub mod Deletion
pub mod Completion
use compose_nest.Common.{
  ℕ, ◌+◌, String, Bool, true, false, not, ◌&&◌, Option, none, some, List, [], ◌∷◌, Result, ok, err,
  find, select, str_eq, ltb, leb, if◌then◌else◌,
}
use compose_nest.Instance.{Lifecycle, StorageOwnership, StoragePresence}
use compose_nest.Instance.Operation.{OperationKind, OperationStatus, is_unresolved}
use compose_nest.Journal.{StoreConflict, RequestReceipt, StepCommand, ExpectedResult, StepOutcome}

-- What SQLite says of a statement that it refuses, as far as `map_error` tells the text_codes apart.
pub data SqliteCode : Type 0 where
  constraint_foreign_key constraint_check constraint_violation other : SqliteCode

pub data DatabaseError : Type 0 where
  io : DatabaseError
  sqlite orm : SqliteCode → DatabaseError
  invalid_input duplicate missing unsafe_path already_running : DatabaseError
  newer_schema : ℕ → DatabaseError
  worker_stopped : DatabaseError

unfoldable pub map_code : SqliteCode → StoreConflict
map_code constraint_foreign_key = StoreConflict.missing
map_code constraint_check = StoreConflict.invalid_input
map_code constraint_violation = StoreConflict.duplicate
map_code other = StoreConflict.backend

unfoldable pub map_error : DatabaseError → StoreConflict
unfolding map_code
map_error (orm code) = map_code code
map_error (sqlite code) = map_code code
map_error invalid_input = StoreConflict.invalid_input
map_error duplicate = StoreConflict.duplicate
map_error missing = StoreConflict.missing
map_error _ = StoreConflict.backend

-- The columns of `instances` that the journal reads or writes.
pub record InstanceRow : Type 0 where
  pub id : String
  pub scope_id : String
  pub lifecycle : Lifecycle
  pub revision : ℕ
  pub applied_spec_revision : Option ℕ

pub record OperationRow : Type 0 where
  pub id : String
  pub instance_id : String
  pub status : OperationStatus
  pub attempt : ℕ
  pub kind : OperationKind
  pub phase : String
  pub expected_instance_revision : ℕ
  pub old_spec_revision : Option ℕ
  pub new_spec_revision : Option ℕ
  pub started_at : String
  pub completed_at : Option String

pub record StepRow : Type 0 where
  pub operation_id : String
  pub sequence : ℕ
  pub attempt : ℕ
  pub command_kind : StepCommand
  pub expected_result : ExpectedResult
  pub resource_id : String
  pub outcome : Option StepOutcome
  pub recorded_at : String
  pub observed_at : Option String

-- The columns of the tables that a deletion changes with those above.
pub record StorageRow : Type 0 where
  pub instance_id : String
  pub slot : String
  pub ownership : StorageOwnership
  pub presence : StoragePresence
  pub observed_at : Option String

pub record ArtifactRow : Type 0 where
  pub instance_id : String
  pub placement : String

pub record PortRow : Type 0 where
  pub instance_id : String
  pub host_port : ℕ
  pub status : String

pub record ObservationRow : Type 0 where
  pub instance_id : String
  pub operation_id : Option String
  pub container_id : Option String
  pub runtime_state : String
  pub health : Option String
  pub observed_at : String
  pub freshness : String

-- The rows of `request_receipts` are receipts; their time is not read.
pub record Tables : Type 0 where
  pub instances : List InstanceRow
  pub operations : List OperationRow
  pub steps : List StepRow
  pub receipts : List RequestReceipt
  pub storages : List StorageRow
  pub artifacts : List ArtifactRow
  pub ports : List PortRow
  pub observations : List ObservationRow

-- The engine, which may refuse: to begin a transaction or answer a query on these tables, or to
-- change the tables of the first argument to those of the second and commit. It gives the time, and
-- an order of times.
pub record Engine : Type 0 where
  pub read : Tables → Result (Unit {0}) DatabaseError
  pub write : Tables → Tables → Result (Unit {0}) DatabaseError
  pub now : Tables → String
  pub not_after : String → String → Bool

abbrev pub find_operation : String → List OperationRow → Option OperationRow
find_operation id operations = find (λ (r : OperationRow). str_eq r.id id) operations

abbrev pub find_instance : String → List InstanceRow → Option InstanceRow
find_instance id instances = find (λ (r : InstanceRow). str_eq r.id id) instances

abbrev pub steps_of : String → List StepRow → List StepRow
steps_of id steps = select (λ (r : StepRow). str_eq r.operation_id id) steps

abbrev pub is_open : StepRow → Bool
is_open r = elim r.outcome [ none ↦ true | some _ ↦ false ]

-- `order_by_desc(Sequence)` and `one`.
unfoldable pub latest : List StepRow → Option StepRow
latest [] = none
latest (r ∷ rs) = elim (latest rs) [
  | none ↦ some r
  | some q ↦ if ltb q.sequence r.sequence then some r else some q
]

-- `order_by_asc(Sequence)`
unfoldable pub insert_ordered : StepRow → List StepRow → List StepRow
insert_ordered r [] = r ∷ []
insert_ordered r (q ∷ qs) =
    let rest = insert_ordered r qs in if leb r.sequence q.sequence then r ∷ q ∷ qs else q ∷ rest

unfoldable pub in_order : List StepRow → List StepRow
unfolding insert_ordered
in_order [] = []
in_order (r ∷ rs) = insert_ordered r (in_order rs)

abbrev pub Replied : Type 0 → Type 0
Replied A = Result A StoreConflict × Tables

module _ (engine : Engine) {A : Type 0} where
  -- The end of a transaction that went through.
  unfoldable pub land : Tables → A → Tables → Result (Unit {0}) DatabaseError → Replied A
  land s a t (ok _) = (ok a, t)
  land s a t (err e) = (err (map_error e), s)

  -- A transaction that returns early or fails is rolled back when it is dropped.
  unfoldable pub conclude : Tables → Result (A × Option Tables) StoreConflict → Replied A
  unfolding land
  conclude s (err c) = (err c, s)
  conclude s (ok (a, none)) = (ok a, s)
  conclude s (ok (a, some t)) = land s a t (engine.write s t)

  unfoldable pub begin :
      (Tables → Result (A × Option Tables) StoreConflict)
      → Tables
      → Result (Unit {0}) DatabaseError
      → Replied A
  unfolding conclude
  begin work s (ok _) = conclude s (work s)
  begin work s (err e) = (err (map_error e), s)

  -- `orm_write` with a transaction, and the `map_error` of its caller.
  unfoldable pub orm_write :
      (Tables → Result (A × Option Tables) StoreConflict) → Tables → Replied A
  unfolding begin
  orm_write work s = begin work s (engine.read s)

  -- `orm_read`
  unfoldable pub answered :
      (Tables → Result A StoreConflict)
      → Tables
      → Result (Unit {0}) DatabaseError
      → Result A StoreConflict
  answered query s (ok _) = query s
  answered query s (err e) = err (map_error e)

  unfoldable pub orm_read : (Tables → Result A StoreConflict) → Tables → Result A StoreConflict
  unfolding answered
  orm_read query s = answered query s (engine.read s)
