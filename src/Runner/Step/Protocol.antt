-- ===== src/Runner/Step/Protocol.antt =====
-- crates/application/src/operation_runner.rs: `run_step` as a whole, behind the gate.
use compose_nest.Common.{
  ◌+◌, ◌≡◌, ◌≢◌, refl, String, Bool, true, false, List, [], ◌∷◌, Result, ok, err, arith, length,
  eq_iff, Bool-cases, ◌⊎◌, inl, inr, ◌==◌, if◌then◌else◌, nil-IsSuffix, Heeds, Stops-Heeds,
}
use compose_nest.Journal.{RequestReceipt, StepIntent, invalid_input, OperationJournal}
use compose_nest.Runner.{RunnerError, store, Active, enter, release, remove, guard, contains}
use compose_nest.Runner.Step.{Call, OperationStep, reply, run_admitted, run_step}
use compose_nest.Runner.Step.Heeding.{Grants, run_guarded-Stops}
use compose_nest.Runner.Step.Durability.{Reports, refused, run_guarded-Reports}

pub remove_of_absent : (x : String) (xs : List String) → contains xs x ≡ false → remove x xs ≡ xs
unfolding remove
remove_of_absent x [] h = refl
remove_of_absent x (y ∷ ys) h = ground (arith, remove_of_absent x ys)

-- What `enter` leaves, and what its guard gives back.
pub enter-release :
    (id : String) (active : Active)
    → ((enter id active).0 ≡ ok tt) × (release (guard id) (enter id active).1 ≡ active)
      ⊎ ((e : RunnerError) × ((enter id active).0 ≡ err e)
          × ((enter id active).1 ≡ active)
          × (e ≢ RunnerError.failed)
          × (e ≢ RunnerError.outcome_unknown))
unfolding enter release remove
enter-release id active = elim (Bool-cases active.closing) [
  | inl closing ↦ inr (RunnerError.shutting_down, ground arith, ground arith, λ e. cc, λ e. cc)
  | inr running ↦ elim (Bool-cases (contains active.instances id)) [
    | inl there ↦ inr (RunnerError.instance_busy, ground arith, ground arith, λ e. cc, λ e. cc)
    | inr fresh ↦ elim (Bool-cases (length active.instances + active.reservations == 2)) [
      | inl full ↦ inr (RunnerError.capacity_reached, ground arith, ground arith, λ e. cc, λ e. cc)
      | inr room ↦
          inl
            (ground arith, ground (arith, remove_of_absent id active.instances fresh, eq_iff id id))
    ]
  ]
]

module _ (journal : OperationJournal Call) (action : OperationStep) (step : StepIntent)
    (receipt : RequestReceipt) (final_step : Bool) where
  abbrev Whole : Active → Result (Unit {0}) RunnerError × Active × List Call → Type 0
  Whole active r =
      Reports journal action step receipt final_step (r.0, r.2)
      × Heeds (Grants journal action) r.2
      × (r.1 ≡ active)

  run_admitted-Whole :
      (active : Active) (entered : Result (Unit {0}) RunnerError × Active)
      → ((entered.0 ≡ ok tt) × (release (guard receipt.instance_id) entered.1 ≡ active)
          ⊎ ((e : RunnerError) × (entered.0 ≡ err e)
              × (entered.1 ≡ active)
              × (e ≢ RunnerError.failed)
              × (e ≢ RunnerError.outcome_unknown)))
      → Whole active (run_admitted journal action step receipt final_step entered [])
  unfolding run_admitted
  run_admitted-Whole active (ok a, held) (inl (granted, back)) = (
    run_guarded-Reports journal action step receipt final_step,
    Stops-Heeds _ _ (run_guarded-Stops journal action step receipt final_step),
    back,
  )
  run_admitted-Whole active (ok a, held) (inr (e, x, same, f, u)) = cc
  run_admitted-Whole active (err c, held) (inl (granted, back)) = cc
  run_admitted-Whole active (err c, held) (inr (e, x, same, f, u)) = (
    refused journal action step receipt final_step c [] (nil-IsSuffix _) (λ y. f (cc))
        (λ y. u (cc)),
    tt,
    same,
  )

  Whole-if :
      (b : Bool) (active : Active) {x y : Result (Unit {0}) RunnerError × Active × List Call}
      → Whole active x
      → Whole active y
      → Whole active (if b then x else y)
  Whole-if true active p q = p
  Whole-if false active p q = q

  -- Whatever the journal and the action answer, the calls of a step are an initial part of the
  -- fixed protocol: validation, record of the intent, status, effect, observation, outcome, status,
  -- notice; and no call follows a refusal, so that the effect runs only when the step was found
  -- valid and the journal took the intent and the status. The reply `ok`, `Failed` or
  -- `OutcomeUnknown` is given only after the whole protocol, when that very outcome and its status
  -- were taken by the journal. The gate is left as it was found, on every way out.
  pub run_step_protocol :
      (active : Active)
      → let (reply, gate, calls) = run_step journal action step receipt final_step active [] in
        Reports journal action step receipt final_step (reply, calls)
        × Heeds (Grants journal action) calls
        × (gate ≡ active)
  unfolding run_step
  run_step_protocol active =
      Whole-if _ active
        (
          refused journal action step receipt final_step (store invalid_input) [] (nil-IsSuffix _)
              (λ e. cc) (λ e. cc),
          tt,
          refl,
        )
        (run_admitted-Whole active (enter receipt.instance_id active)
          (enter-release receipt.instance_id active))
