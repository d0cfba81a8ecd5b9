-- ===== src/Tests/Creation.antt =====
-- crates/application/src/create_operation.rs on a creation in which everything succeeds.
use compose_nest.Common.{none, ok}
use compose_nest.Journal.{RequestReceipt}
use compose_nest.Create.{ConfirmedCreate, Outside}

abbrev creation : RequestReceipt
creation = record {
  scope_id = "scope";
  request_id = "r1";
  plan_id = none;
  confirmed_revision = 1;
  request_hash = "hash";
  instance_id = "db";
  operation_id = "op";
}

abbrev db : ConfirmedCreate
db = record {
  instance_id = "db";
  scope_id = "scope";
  project_name = "composenest-db";
  spec_revision = 1;
  selected_version = "17";
  inputs_json = "{}";
}

abbrev willing : Outside
willing = record {
  confirmed_create = λ receipt h. ok db;
  set_status = λ id status phase h. ok tt;
  record_step = λ intent h. ok tt;
  finish_step = λ id sequence outcome h. ok tt;
  prepare_storage = λ confirmed id sequence h. ok 3;
  resolve_image = λ confirmed h. ok tt;
  publish_artifact = λ confirmed h. ok tt;
  validate_config = λ h. ok tt;
  create_stopped = λ h. ok tt;
  inspect_created = λ h. ok "c1";
  start = λ id h. ok tt;
  wait_ready = λ id h. ok tt;
  mark_may_have_initialized = λ id h. ok tt;
  complete_ready = λ id container h. ok tt;
}
