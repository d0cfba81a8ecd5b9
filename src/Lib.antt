-- ===== src/Lib.antt =====
-- ComposeNest manages Docker Compose instances from a desktop application. This library models the
-- core of it: the domain types, templates and the Compose files that are made from them, the plan of
-- host ports, the runner that admits and journals changes, and the operations that change an
-- instance or recover from an interruption.
--
-- Parts, and how they interact:
--   * crates/domain/src/identity.rs: Identity, display names, instance IDs and slot IDs.
--   * crates/domain/src/instance.rs: Instance, an instance with its revision and lifecycle, its
--     specs and observed state; Instance/Operation, the progress of one durable operation.
--   * crates/domain/src/clone_policy.rs: ClonePolicy, the policies and values of fields; Secret, the
--     generators of secrets and identities; Field, a field from its evaluation through its answers.
--   * crates/application/src/operation_journal.rs (with the conflicts of state_store.rs): Journal,
--     the records of requests and effect steps, and the journal as an interface;
--     crates/adapters/src/operation_journal.rs: Journal/Stored, the spellings that are stored.
--   * crates/adapters/src/operation_journal.rs, with the rows of entities.rs and the worker of
--     sqlite.rs: Database, the tables and a transaction; Database/Operations, the journal's requests;
--     Database/Resolution, those of recovery; Database/Requests, any sequence of requests, and the
--     changes of the tables that they come to (`Change`), and Database/Requests/Promise, what each
--     request promises; delete_state.rs: Database/Deletion, the completion of a deletion;
--     lifecycle_state.rs: Database/Completion.
--   * crates/application/src/operation_runner.rs: Runner, one function for each critical section of
--     the mutex; Runner/Interleaving, the steps of concurrent tasks; Runner/Step, `run_step`.
--   * crates/application/src/operation_recovery.rs: Recovery.
--   * crates/application/src/lifecycle_operation.rs: Lifecycle (its steps and failures) and
--     Lifecycle/Locked (Start, Stop and Restart behind the gate).
--   * crates/application/src/delete_operation.rs: Delete.
--   * crates/application/src/create_operation.rs: Create, the stages of a creation.
--   * crates/application/src/host_ports.rs: HostPorts, the scan for the port of one automatic slot;
--     HostPorts/Slots, the explicit inputs; HostPorts/Plan, the whole plan.
--   * crates/domain/src/template/ (validation.rs, and parse_version of structure.rs): Template, the
--     values of a document; Template/Reading, Template/Validation, Template/Structure; and
--     semantics.rs: Template/Semantics, Template/Resolution.
--   * crates/domain/src/compose.rs: Compose (its records and the image), Compose/Inputs,
--     Compose/Allocations, Compose/Generate and Compose/Scalar.
-- The operations of Lifecycle, Delete and Create run behind the gate of Runner, and report to the
-- journal of Journal, which Database implements, with the statuses of Instance/Operation. Modules
-- below those named hold proofs, and Tests concrete runs. A Rust function has the same name here, in
-- the module of its file; a constructor `new` or `parse` names its type (`new_instance`,
-- `parse_name`), and `run_reserved` of an operation is `run_with_reservation`.
--
-- How the code is read:
--   * A method on `&mut self` gives its result with the new value; an error is a value.
--   * What answers from outside (the journal, Docker, the random source) is a record of functions of
--     the history of calls, newest first, so that an answer may depend on all that came before; a
--     function's effects are the history that it leaves. No answer is assumed to be honest. Which
--     answers grant a call is `Grants` of an operation's Heeding module, and a history `Heeds` these
--     when every call but the newest was granted (Common/Heeding).
--   * A mutex is modelled by the function of its critical section. A run of concurrent tasks is any
--     sequence of such steps. A panic of a task drops what it holds, which is a step like another.
--   * Integers are natural numbers with their bounds written out: revisions of 64 bits and attempts
--     of 32 bits grow by a checked addition. A name is a list of code points, a slot ID a list of
--     bytes. Loops over at most eight candidates recur on the rounds left, and the scan of ports on
--     the candidates left up to the slot's maximum, so neither runs out of fuel; the loop of
--     `shutdown` recurs on the list of what each wait brings, and says so when the list ends first.
--   * A table is the list of its rows in the order of insertion. The database engine is a record of
--     functions of the tables: whether it begins a transaction, whether it commits what the
--     transaction makes of them, the time and an order of times. What is relied on is named
--     EnforcesKeys: no tables that violate a primary key are committed. Refused or unfinished
--     transactions leave the tables as they were. A row of the largest number, 2^63 - 1, is modelled
--     with the rest: `saturating_add` gives that number again.
--   * A `BTreeMap` from text is the list of its entries (Common/Maps), and a template's mapping the
--     list of its fields in their order.
--   * `sequence += 1` of a creation wraps around as in a release build.
--   * A function of Template and Compose gives a value, an error, or a panic (`Stop`): `expect` on a
--     missing field and `unreachable!` are the panics. The reader of YAML, which is third-party,
--     comes before the model: a document is a value.
--   * Unicode normalization and the random source are third-party code, and `Path` answers as the
--     platform does; they come in as parameters,
--     with what is relied on named IsNormalization and FillsBuffer.
--
-- Not modelled: plans and sessions (create_plan.rs, create_session.rs, clone_*.rs), the ports of
-- existing instances (port_edit.rs), the masking and the emitted document of compose.rs
-- (`mask_yaml`, `to_yaml`), the manifest of templates (`parse_manifest` of structure.rs) and the
-- reader of YAML, logs, storage, images and views; the Docker and file system adapters of
-- crates/adapters, which are input and output; of its SQL the commit of a plan, create_state.rs and
-- the queries on it, migrations and backups; the desktop application and the vendored code.
pub mod ClonePolicy
pub mod Common
pub mod Compose
pub mod Create
pub mod Database
pub mod Delete
pub mod HostPorts
pub mod Identity
pub mod Instance
pub mod Journal
pub mod Lifecycle
pub mod Recovery
pub mod Runner
pub mod Template
pub mod Tests
