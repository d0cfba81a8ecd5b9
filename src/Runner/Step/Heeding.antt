-- ===== src/Runner/Step/Heeding.antt =====
-- crates/application/src/operation_runner.rs: a refusal of the action or the journal ends a step.
use compose_nest.Common.{
  ◌≡◌, Bool, true, List, is_ok, Exec, AllGranted, Stops, perform-Stops, bind-Stops, map_err-is_ok,
  AllGranted-Heeds, ◌∷◌, Ends,
}
use compose_nest.Journal.{RequestReceipt, StepIntent, StepOutcome, OperationJournal}
use compose_nest.Runner.{RunnerError}
use compose_nest.Runner.Step.{
  Call, validate, record_step, set_status, finish_step, OperationStep, reply, conclude, run_guarded,
}

module _ (journal : OperationJournal Call) (action : OperationStep) where
  -- The action found the step valid, or the journal took the call; a call of another kind is free.
  abbrev pub Grants : Call → List Call → Type 0
  Grants validate h = is_ok (action.validate (validate ∷ h)) ≡ true
  Grants (record_step intent) h = is_ok (journal.record_step intent (record_step intent ∷ h)) ≡ true
  Grants (set_status id status phase) h =
      is_ok (journal.set_status id status phase (set_status id status phase ∷ h)) ≡ true
  Grants (finish_step id sequence outcome) h =
      is_ok (journal.finish_step id sequence outcome (finish_step id sequence outcome ∷ h)) ≡ true
  Grants _ h = Unit

  abbrev Safe : {A : Type 0} → Exec Call RunnerError A → Type 0
  Safe m = Stops Grants m

  reply-Ends : (o : StepOutcome) (h : List Call) → AllGranted Grants h → Ends Grants (reply o, h)
  unfolding reply
  reply-Ends StepOutcome.succeeded h g = g
  reply-Ends StepOutcome.failed h g = AllGranted-Heeds Grants h g
  reply-Ends StepOutcome.unknown h g = AllGranted-Heeds Grants h g

  module _ (step : StepIntent) (receipt : RequestReceipt) (final_step : Bool) where
    conclude-Stops : (o : StepOutcome) → Safe (conclude journal action step receipt final_step o)
    unfolding conclude
    conclude-Stops o =
        bind-Stops Grants _ _ (perform-Stops Grants _ _ λ h a e. map_err-is_ok _ _ a e) λ _.
          bind-Stops Grants _ _ (perform-Stops Grants _ _ λ h a e. map_err-is_ok _ _ a e) λ _.
            bind-Stops Grants _ _ (perform-Stops Grants _ _ λ h a e. tt)
              λ _. record { from = λ h g. reply-Ends o h g }

    pub run_guarded-Stops : Safe (run_guarded journal action step receipt final_step)
    unfolding run_guarded
    run_guarded-Stops =
        bind-Stops Grants _ _ (perform-Stops Grants _ _ λ h a e. map_err-is_ok _ _ a e) λ _.
          bind-Stops Grants _ _ (perform-Stops Grants _ _ λ h a e. map_err-is_ok _ _ a e) λ _.
            bind-Stops Grants _ _ (perform-Stops Grants _ _ λ h a e. map_err-is_ok _ _ a e) λ _.
              bind-Stops Grants _ _ (perform-Stops Grants _ _ λ h a e. tt) λ executed.
                bind-Stops Grants _ _ (perform-Stops Grants _ _ λ h a e. tt)
                  λ observed. conclude-Stops _
