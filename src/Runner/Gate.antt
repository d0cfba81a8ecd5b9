-- ===== src/Runner/Gate.antt =====
-- crates/application/src/operation_runner.rs: what the two ways of running work do to the gate.
use compose_nest.Common.{
  ◌-◌, ◌≡◌, ◌≢◌, refl, String, true, Result, ok, err, arith, eq_iff, Bool-cases, inl, inr, ◌⊎◌,
}
use compose_nest.Runner.{
  RunnerError, Active, contains, insert, remove, enter, bind, release, guard, run_holding,
  run_exclusive, run_reserved,
}
use compose_nest.Runner.Step.Protocol.{enter-release, remove_of_absent}

run_holding-gate :
    {T : Type 0} (id : String) (t : T) (active : Active)
    (entered : Result (Unit {0}) RunnerError × Active)
    → ((entered.0 ≡ ok tt) × (release (guard id) entered.1 ≡ active)
        ⊎ ((e : RunnerError) × (entered.0 ≡ err e)
            × (entered.1 ≡ active)
            × (e ≢ RunnerError.failed)
            × (e ≢ RunnerError.outcome_unknown)))
    → let (result, gate) = run_holding (λ a. a) (guard id) (λ a. (t, a)) entered in
      (gate ≡ active)
      × ((result ≡ ok t) ⊎ ((e : RunnerError) × (result ≡ err e) × (entered.0 ≡ err e)))
unfolding run_holding
run_holding-gate id t active (ok a, held) (inl (granted, back)) = (back, inl refl)
run_holding-gate id t active (ok a, held) (inr (e, x, same, f, u)) = cc
run_holding-gate id t active (err c, held) (inl (granted, back)) = cc
run_holding-gate id t active (err c, held) (inr (e, x, same, f, u)) = (same, inr (c, refl, refl))

-- Work that leaves the gate as it finds it is run by `run_exclusive` with its result passed on, or
-- it is refused with the error of `enter`; either way the gate is afterwards as it was.
pub run_exclusive-gate :
    {T : Type 0} (id : String) (t : T) (active : Active)
    → let (result, gate) = run_exclusive id (λ a. (t, a)) active in
      (gate ≡ active)
      × ((result ≡ ok t) ⊎ ((e : RunnerError) × (result ≡ err e) × ((enter id active).0 ≡ err e)))
unfolding run_exclusive
run_exclusive-gate id t active =
    run_holding-gate id t active (enter id active) (enter-release id active)

-- A reservation of this runner is used up by `run_reserved`, whether its instance is busy or the
-- work is run, and the gate is otherwise as it was.
pub run_reserved-gate :
    {T : Type 0} (id : String) (t : T) (active : Active)
    → (run_reserved true id (λ a. (t, a)) active).1
      ≡ record active { reservations = active.reservations - 1 }
unfolding run_reserved run_holding bind insert remove release
run_reserved-gate id t active = elim (Bool-cases (contains active.instances id)) [
  | inl there ↦ ground arith
  | inr fresh ↦ ground (arith, remove_of_absent id active.instances fresh, eq_iff id id)
]
