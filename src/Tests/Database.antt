-- ===== src/Tests/Database.antt =====
-- crates/adapters/src/operation_journal.rs on a small database.
use compose_nest.Common.{
  ◌++◌, some, ◌≡◌, refl, Bool, true, false, not, ◌&&◌, none, List, [], ◌∷◌, Result, ok, err, All,
  any, find, select, is_some, arith,
}
use mathlib.Core.List.{Permᴰ, map}
use compose_nest.Instance.{Lifecycle}
use compose_nest.Instance.Operation.{OperationKind, OperationStatus}
use compose_nest.Journal.{
  OperationIntent, RequestReceipt, StepIntent, StepCommand, ExpectedResult, StepOutcome,
}
use compose_nest.Recovery.{RecoverableOperation}
use compose_nest.Database.{
  steps_of, is_open, DatabaseError, SqliteCode, InstanceRow, OperationRow, StepRow, Tables, Engine,
  find_operation,
}
use compose_nest.Database.Operations.{is_succeeded, is_step, accept}
use compose_nest.Database.Resolution.{
  is_executing_row, is_unresolved_row, interrupt, recover_on_startup, recoverable,
}
use compose_nest.Database.Requests.{
  Request, accepting, recording, finishing, setting, recovering, serve, serve_all, HasKeys,
  HasStepKeys, EnforcesKeys,
}
use compose_nest.Database.Requests.Promise.{IsKept}
use compose_nest.Database.Requests.Promise.Kept.{serve-IsKept}
use compose_nest.Database.Requests.Preserved.{IsConsistent}
use compose_nest.Database.Requests.Consistent.{no_operations, serve_all-IsConsistent}
use compose_nest.Database.Requests.History.{AllKept, serve_all-AllKept}
use compose_nest.Database.Requests.Repeated.{accept_again}
use compose_nest.Database.Requests.Reports.{IsReport, told_id, row_id}
use compose_nest.Database.Requests.Startup.{startup_reports, recoverable-IsReport}

-- An engine that refuses nothing but tables that violate a primary key.
abbrev keyed : List OperationRow → Bool
keyed [] = true
keyed (r ∷ rs) = not (is_some (find_operation r.id rs)) && keyed rs

abbrev steps_keyed : List StepRow → Bool
steps_keyed [] = true
steps_keyed (r ∷ rs) = not (is_some (find (is_step r.operation_id r.sequence) rs)) && steps_keyed rs

abbrev verdict : Bool → Result (Unit {0}) DatabaseError
verdict true = ok tt
verdict false = err (DatabaseError.orm SqliteCode.constraint_violation)

abbrev pub small : Engine
small = record {
  read = λ s. ok tt;
  write = λ s t. verdict (keyed t.operations && steps_keyed t.steps);
  now = λ s. "2026-01-01T00:00:00Z";
  not_after = λ a b. true;
}

keyed-HasKeys : (rows : List OperationRow) → keyed rows ≡ true → HasKeys rows
keyed-HasKeys [] h = tt
keyed-HasKeys (r ∷ rs) h = (ground arith, keyed-HasKeys rs (ground arith))

steps_keyed-HasStepKeys : (rows : List StepRow) → steps_keyed rows ≡ true → HasStepKeys rows
steps_keyed-HasStepKeys [] h = tt
steps_keyed-HasStepKeys (r ∷ rs) h = (ground arith, steps_keyed-HasStepKeys rs (ground arith))

pub small-EnforcesKeys : EnforcesKeys small
small-EnforcesKeys s t h =
    (keyed-HasKeys t.operations (ground arith), steps_keyed-HasStepKeys t.steps (ground arith))

abbrev pub db : InstanceRow
db = record {
  id = "db";
  scope_id = "scope";
  lifecycle = Lifecycle.managed;
  revision = 1;
  applied_spec_revision = none;
}

abbrev pub only_db : Tables
only_db = record {
  instances = db ∷ [];
  operations = [];
  steps = [];
  receipts = [];
  storages = [];
  artifacts = [];
  ports = [];
  observations =
      record {
        instance_id = "db";
        operation_id = none;
        container_id = some "c1";
        runtime_state = "stopped";
        health = none;
        observed_at = "2026-01-01T00:00:00Z";
        freshness = "fresh";
      }
      ∷ [];
}

abbrev pub start_db : OperationIntent
start_db = record {
  id = "op";
  instance_id = "db";
  kind = OperationKind.start;
  phase = "accepted";
  expected_revision = 1;
  old_spec_revision = none;
  new_spec_revision = none;
}

abbrev pub start_receipt : RequestReceipt
start_receipt = record {
  scope_id = "scope";
  request_id = "r1";
  plan_id = none;
  confirmed_revision = 1;
  request_hash = "0123456789abcdef0123456789abcdef0123456789abcdef0123456789abcdef";
  instance_id = "db";
  operation_id = "op";
}

abbrev pub first_step : StepIntent
first_step = record {
  operation_id = "op";
  sequence = 1;
  attempt = 1;
  command_kind = StepCommand.compose_start;
  resource_id = "c1";
  expected_result = ExpectedResult.container_running;
}

abbrev later : List Request
later = setting "op" OperationStatus.executing "start" ∷ recording first_step ∷ []

abbrev script : List Request
script = accepting start_db start_receipt ∷ later

abbrev pub fresh_tables : Tables
fresh_tables = no_operations only_db

abbrev accepted_tables : Tables
accepted_tables = serve small (accepting start_db start_receipt) fresh_tables

abbrev interrupted_tables : Tables
interrupted_tables = serve_all small script fresh_tables

serve-IsKept_example : IsKept small accepted_tables (setting "op" OperationStatus.executing "start")
serve-IsKept_example =
    serve-IsKept small accepted_tables small-EnforcesKeys
      (setting "op" OperationStatus.executing "start")

serve_all-IsConsistent_example : IsConsistent (serve_all small script (no_operations only_db))
serve_all-IsConsistent_example = serve_all-IsConsistent small small-EnforcesKeys script only_db

serve_all-AllKept_example :
    AllKept interrupted_tables.steps
      (serve_all small (finishing "op" 1 StepOutcome.failed ∷ []) interrupted_tables).steps
serve_all-AllKept_example =
    serve_all-AllKept small small-EnforcesKeys (finishing "op" 1 StepOutcome.failed ∷ [])
      interrupted_tables (serve_all-IsConsistent small small-EnforcesKeys script only_db)

accept_again_example :
    accept small start_db start_receipt (serve_all small later accepted_tables)
    ≡ (ok start_receipt, serve_all small later accepted_tables)
unfolding accept compose_nest.Database.Operations.is_hash
    compose_nest.Database.Operations.record_step compose_nest.Database.Operations.set_status
accept_again_example =
    accept_again small small-EnforcesKeys start_db start_receipt fresh_tables accepted_tables refl
      later refl

abbrev told : RecoverableOperation
told = record {
  id = "op";
  instance_id = "db";
  kind = OperationKind.start;
  status = OperationStatus.outcome_unknown;
  phase = "start";
  attempt = 1;
  steps =
      record {
        instance_id = "db";
        scope_id = "scope";
        sequence = 1;
        attempt = 1;
        command_kind = StepCommand.compose_start;
        resource_id = "c1";
        expected_result = ExpectedResult.container_running;
        outcome = none;
      }
      ∷ [];
}

abbrev restarted_tables : Tables
restarted_tables = record interrupted_tables {
  operations = interrupt interrupted_tables.operations;
}

startup_reports_example :
    (restarted_tables
      ≡ record interrupted_tables { operations = interrupt interrupted_tables.operations })
    × (any is_executing_row restarted_tables.operations ≡ false)
    × All (IsReport restarted_tables) (told ∷ [])
    × Permᴰ
        (map told_id (told ∷ []))
        (map row_id (select is_unresolved_row restarted_tables.operations))
unfolding recover_on_startup compose_nest.Database.Operations.record_step
    compose_nest.Database.Operations.is_revision compose_nest.Database.Operations.set_status accept
    compose_nest.Database.Operations.is_hash
startup_reports_example =
    startup_reports small interrupted_tables restarted_tables (told ∷ [])
      (serve_all-IsConsistent small small-EnforcesKeys script only_db) refl

recoverable-IsReport_example : (told.id ≡ "op") × IsReport restarted_tables told
unfolding recoverable recover_on_startup compose_nest.Database.Operations.record_step
    compose_nest.Database.Operations.is_revision compose_nest.Database.Operations.set_status accept
    compose_nest.Database.Operations.is_hash
recoverable-IsReport_example =
    recoverable-IsReport small "op" restarted_tables told
      (serve_all-IsConsistent small small-EnforcesKeys (script ++ recovering ∷ []) only_db) refl
