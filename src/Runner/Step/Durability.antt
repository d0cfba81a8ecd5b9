-- ===== src/Runner/Step/Durability.antt =====
-- crates/application/src/operation_runner.rs: what `run_step` writes before and after the effect.
use compose_nest.Common.{
  ◌≡◌, ◌≢◌, refl, String, Bool, List, [], ◌∷◌, Result, ok, err, is_ok, map_err, IsSuffix, whole,
  later, after_perform,
}
use compose_nest.Instance.Operation.{executing}
use compose_nest.Journal.{
  RequestReceipt, StepIntent, StepOutcome, StoreConflict, OperationJournal, command_text,
}
use compose_nest.Runner.{RunnerError, prerequisite, store}
use compose_nest.Runner.Step.{
  Call, validate, execute, observe, record_step, set_status, finish_step, send, OperationStep,
  judge, status_of, event, reply, conclude, run_guarded,
}

-- The calls of a step that comes to the outcome `o`, the newest first.
abbrev pub protocol : StepIntent → RequestReceipt → Bool → StepOutcome → List Call
protocol step receipt final_step o =
    send (event step receipt (status_of o final_step))
    ∷ set_status step.operation_id (status_of o final_step) (command_text step.command_kind)
    ∷ finish_step step.operation_id step.sequence o
    ∷ observe
    ∷ execute
    ∷ set_status step.operation_id executing (command_text step.command_kind)
    ∷ record_step step
    ∷ validate
    ∷ []

module _ (journal : OperationJournal Call) (action : OperationStep) where
  -- What the world answers once the effect's intent is recorded.
  abbrev pub outcome_at : List Call → StepOutcome
  outcome_at h =
      judge (is_ok (action.execute (execute ∷ h))) (action.observe (observe ∷ execute ∷ h))

  abbrev pub prepared : StepIntent → List Call
  prepared step =
      set_status step.operation_id executing (command_text step.command_kind)
      ∷ record_step step
      ∷ validate
      ∷ []

  abbrev pub outcome : StepIntent → StepOutcome
  outcome step = outcome_at (prepared step)

  -- What a reply says about the history and the outcome.
  pub record Reports (step : StepIntent) (receipt : RequestReceipt) (final_step : Bool)
      (r : Result (Unit {0}) RunnerError × List Call) : Type 0 where
    pub in_order : IsSuffix r.1 (protocol step receipt final_step (outcome step))
    pub on_ok :
        r.0 ≡ ok tt
        → (r.1 ≡ protocol step receipt final_step (outcome step))
          × (outcome step ≡ StepOutcome.succeeded)
    pub on_failed :
        r.0 ≡ err RunnerError.failed
        → (r.1 ≡ protocol step receipt final_step (outcome step))
          × (outcome step ≡ StepOutcome.failed)
    pub on_unknown :
        r.0 ≡ err RunnerError.outcome_unknown
        → (r.1 ≡ protocol step receipt final_step (outcome step))
          × (outcome step ≡ StepOutcome.unknown)

  module _ (step : StepIntent) (receipt : RequestReceipt) (final_step : Bool) where
    abbrev Q : Result (Unit {0}) RunnerError × List Call → Type 0
    Q = Reports step receipt final_step

    pub refused :
        (e : RunnerError) (h : List Call)
        → IsSuffix h (protocol step receipt final_step (outcome step))
        → e ≢ RunnerError.failed
        → e ≢ RunnerError.outcome_unknown
        → Q (err e, h)
    refused e h s f u = record {
      in_order = s;
      on_ok = λ x. cc;
      on_failed = λ x. absurd (f (cc));
      on_unknown = λ x. absurd (u (cc));
    }

    refused_store :
        (o : Result (Unit {0}) StoreConflict) (e : RunnerError) (h : List Call)
        → IsSuffix h (protocol step receipt final_step (outcome step))
        → map_err store o ≡ err e
        → Q (err e, h)
    refused_store (ok a) e h s x = cc
    refused_store (err c) e h s x = refused e h s (λ f. cc) (λ f. cc)

    refused_validate :
        (o : Result (Unit {0}) String) (e : RunnerError) (h : List Call)
        → IsSuffix h (protocol step receipt final_step (outcome step))
        → map_err prerequisite o ≡ err e
        → Q (err e, h)
    refused_validate (ok a) e h s x = cc
    refused_validate (err c) e h s x = refused e h s (λ f. cc) (λ f. cc)

    -- A call that never fails.
    silent : {A : Type 0} (a : A) (e : RunnerError) (h : List Call) → ok a ≡ err e → Q (err e, h)
    silent a e h x = cc

    replied :
        (o : StepOutcome)
        → outcome step ≡ o
        → Q (reply o, protocol step receipt final_step (outcome step))
    unfolding reply
    replied StepOutcome.succeeded e = record {
      in_order = whole;
      on_ok = λ x. (refl, e);
      on_failed = λ x. cc;
      on_unknown = λ x. cc;
    }
    replied StepOutcome.failed e = record {
      in_order = whole;
      on_ok = λ x. cc;
      on_failed = λ x. (refl, e);
      on_unknown = λ x. cc;
    }
    replied StepOutcome.unknown e = record {
      in_order = whole;
      on_ok = λ x. cc;
      on_failed = λ x. cc;
      on_unknown = λ x. (refl, e);
    }

    conclude-Reports : Q (
        conclude journal action step receipt final_step
          (outcome step)
          (observe ∷ execute ∷ prepared step))
    unfolding conclude
    conclude-Reports =
        after_perform Q _ _ _ _ (λ e x. refused_store _ e _ (later (later whole)) x)
          λ _ _.
            after_perform Q _ _ _ _ (λ e x. refused_store _ e _ (later whole) x)
              λ _ _.
                after_perform Q _ _ _ _ (λ e x. silent tt e _ x) λ _ _. replied (outcome step) refl

    pub run_guarded-Reports : Q (run_guarded journal action step receipt final_step [])
    unfolding run_guarded
    run_guarded-Reports =
        after_perform Q _ _ _ _
          (λ e x.
            refused_validate _ e _ (later (later (later (later (later (later (later whole))))))) x)
          λ _ _.
            after_perform Q _ _ _ _
              (λ e x. refused_store _ e _ (later (later (later (later (later (later whole)))))) x)
              λ _ _.
                after_perform Q _ _ _ _
                  (λ e x. refused_store _ e _ (later (later (later (later (later whole))))) x)
                  λ _ _.
                    after_perform Q _ _ _ _ (λ e x. silent _ e _ x)
                      λ executed x.
                        after_perform Q _ _ _ _ (λ e y. silent _ e _ y)
                          λ observed y.
                            let same : judge executed observed ≡ outcome step = cc in
                            rw same conclude-Reports
