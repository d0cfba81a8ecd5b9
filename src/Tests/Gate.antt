-- ===== src/Tests/Gate.antt =====
-- crates/application/src/operation_runner.rs on concrete tasks, journals and actions.
use compose_nest.Common.{
  ◌≤◌, ◌<◌, ◌≡◌, ◌↔◌, refl, String, Bool, true, false, none, some, List, [], ◌∷◌, ok, err, length,
  ◌>>=◌, perform, Heeds,
}
use compose_nest.Journal.{
  RequestReceipt, StepCommand, ExpectedResult, StepIntent, StepOutcome, OperationJournal,
}
use compose_nest.Runner.{
  RunnerError, Active, new_active, guard, reservation, enter, reserve, insert, remove, release,
  close, is_idle, wait_idle,
}
use compose_nest.Runner.Step.{Call, OperationStep, run_guarded, run_step}
use compose_nest.Runner.Step.Durability.{Reports}
use compose_nest.Runner.Step.Heeding.{Grants}
use compose_nest.Runner.Step.Protocol.{run_step_protocol}
use compose_nest.Runner.Interleaving.{System, start, Take, enters, reserves, drops, closes, Reach}
use compose_nest.Runner.Interleaving.Counting.{count, is_free, is_for, total}
use compose_nest.Runner.Interleaving.Capacity.{Reach-capacity}
use compose_nest.Runner.Interleaving.Shutdown.{enter_iff, idle_after_close}

-- The instance "db" is held, and a reservation is out.
abbrev busy : System
busy = record {
  active = record { closing = false; reservations = 0; instances = "db" ∷ [] };
  tokens = guard "db" ∷ [];
}

abbrev full : System
full = record {
  active = record { closing = false; reservations = 1; instances = "db" ∷ [] };
  tokens = reservation none ∷ guard "db" ∷ [];
}

busy_reached : Reach start busy
unfolding enter insert new_active
busy_reached = Reach.next Reach.here (enters "db" busy.active refl refl)

full_reached : Reach start full
unfolding reserve
full_reached = Reach.next busy_reached (reserves full.active refl refl)

Reach-capacity_example :
    (length full.tokens ≤ 2)
    × ((x : String) → total (is_for x) full.tokens ≤ 1)
    × (full.active.reservations ≡ total is_free full.tokens)
    × ((x : String) → count x full.active.instances ≡ total (is_for x) full.tokens)
Reach-capacity_example = Reach-capacity full full_reached

enter_iff_example : ((enter "db" busy.active).0 ≡ ok tt) ↔ (
    (busy.active.closing ≡ false)
    × (total (is_for "db") busy.tokens ≡ 0)
    × (length busy.tokens < 2))
enter_iff_example = enter_iff busy "db" busy_reached

full_refuses : (enter "web" full.active).0 ≡ err RunnerError.capacity_reached
unfolding enter
full_refuses = refl

busy_refuses : (enter "db" busy.active).0 ≡ err RunnerError.instance_busy
unfolding enter
busy_refuses = refl

-- The task has ended and the runner is closed.
abbrev closed : System
closed = record {
  active = record { closing = true; reservations = 0; instances = [] };
  tokens = [];
}

closed_reached : Reach start closed
unfolding release remove close
closed_reached =
    Reach.next (Reach.next busy_reached (drops (guard "db") [] Take.here refl)) (closes refl)

idle_after_close_example : (closed.tokens ≡ []) × (closed.tokens ≡ [])
unfolding is_idle
idle_after_close_example = idle_after_close closed closed closed_reached refl refl Reach.here

abbrev rounds : List (Bool × Active)
rounds = (false, busy.active) ∷ (false, closed.active) ∷ []

rounds_answer : wait_idle rounds full.active ≡ some true
unfolding wait_idle is_idle
rounds_answer = refl

abbrev receipt : RequestReceipt
receipt = record {
  scope_id = "scope";
  request_id = "r1";
  plan_id = none;
  confirmed_revision = 3;
  request_hash = "hash";
  instance_id = "db";
  operation_id = "op";
}

abbrev intent : StepIntent
intent = record {
  operation_id = "op";
  sequence = 1;
  attempt = 1;
  command_kind = StepCommand.compose_start;
  resource_id = "c1";
  expected_result = ExpectedResult.container_running;
}

-- A journal that writes everything, and an action that does what it should.
abbrev journal : OperationJournal Call
journal = record {
  accept = λ i r h. ok r;
  receipt = λ s r h. ok none;
  plan_receipt = λ s p h. ok none;
  record_step = λ s h. ok tt;
  steps_for_resource = λ s r h. ok [];
  finish_step = λ o n r h. ok tt;
  retry = λ o p h. ok 2;
  set_status = λ o s p h. ok tt;
}

abbrev action : OperationStep
action = record {
  validate = λ h. ok tt;
  execute = λ h. ok tt;
  observe = λ h. ok StepOutcome.succeeded;
}

run_step_protocol_example :
    let (reply, gate, calls) = run_step journal action intent receipt true new_active [] in
    Reports journal action intent receipt true (reply, calls)
    × Heeds (Grants journal action) calls
    × (gate ≡ new_active)
run_step_protocol_example = run_step_protocol journal action intent receipt true new_active

-- The same action, with an observation that fails.
abbrev broken : OperationStep
broken = record action { observe = λ h. err "no answer" }

step_succeeds : (run_step journal action intent receipt true new_active []).0 ≡ ok tt
unfolding run_step enter new_active run_guarded ◌>>=◌ perform
step_succeeds = refl

step_unclear :
    (run_step journal broken intent receipt true new_active []).0 ≡ err RunnerError.outcome_unknown
unfolding run_step enter new_active run_guarded ◌>>=◌ perform
step_unclear = refl
