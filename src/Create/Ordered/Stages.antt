-- ===== src/Create/Ordered/Stages.antt =====
-- crates/application/src/create_operation.rs: a creation from its first call to its reply.
use compose_nest.Common.{
  raise, ℕ, ◌≡◌, refl, ◌∙◌, String, Bool, true, false, List, [], ◌∷◌, Result, ok, err, arith,
  eq_iff, ◌>>=◌, after_perform, after_block, after_pure, if◌then◌else◌,
}
use compose_nest.Journal.{StoreConflict, RequestReceipt}
use compose_nest.Runner.Step.{OperationEventKind}
use compose_nest.Create.{
  ConfirmedCreate, CreateEffectError, CreateOperationError, Stage, stage_phase, Call,
  confirmed_create, finish_step, effect, complete_ready, send, Outside, outcome_of, event, Run,
  mark, notify, or_fail, stage, run_started, run_stages, run_confirmed, run_accepted, differs,
  run_locked,
}
use compose_nest.Create.Ordered.{
  opened, passed, number, before_image, before_start, all_passed, due, IsConfirmed, IsInspected,
  Rests, AllRest, IsOrdered, refused, granted, never, after_fail, after_report,
}

module _ (outside : Outside) (receipt : RequestReceipt) where
  abbrev Q : Result String CreateOperationError × List Call → Type 0
  Q = IsOrdered outside receipt

  after_stage :
      {A : Type 0} (n : ℕ) (s : Stage) (id : String) (work : List Call → Result A CreateEffectError)
      (k : A → Run String) (h : List Call)
      → AllRest outside receipt h
      → Rests outside receipt (effect s id) (opened receipt n s id h)
      → ((a : A)
          → work (effect s id ∷ opened receipt n s id h) ≡ ok a
          → AllRest outside receipt (passed receipt n s id h)
          → Q (k a (passed receipt n s id h)))
      → Q ((stage outside receipt n s id work >>= k) h)
  unfolding stage mark outcome_of
  after_stage {A} n s id work k h r rests goes_on = after_block Q _ _ _ h (
      after_perform Q _ _ _ h (λ x p. refused outside receipt _ x _ (tt, r) p)
        λ _ p. after_block Q _ _ _ _ (
          after_perform Q _ _ _ _ (λ x p. refused outside receipt _ x _ (tt, (tt, r)) p)
            λ _ p. after_block Q _ _ _ _ (
              after_perform Q _ _ _ _ (λ x p. never outside receipt _ x _ p)
                λ result p. after_block Q _ _ _ _ (
                  after_perform Q _ _ _ _ (λ x q. refused outside receipt _ x _ (tt, done) q)
                    λ _ q.
                      after_report outside receipt (stage_phase s) n result k _ (tt, done)
                        λ a e. reported a result (granted_result result p) e))))
    where
      done : AllRest outside receipt (effect s id ∷ opened receipt n s id h)
      done = (rests, (tt, (tt, r)))

      granted_result :
          (result : Result A CreateEffectError)
          → ◌≡◌ {A = Result (Result A CreateEffectError) CreateOperationError}
              (ok (work (effect s id ∷ opened receipt n s id h)))
              (ok result)
          → work (effect s id ∷ opened receipt n s id h) ≡ result
      granted_result result p = cc

      reported :
          (a : A) (result : Result A CreateEffectError)
          → work (effect s id ∷ opened receipt n s id h) ≡ result
          → result ≡ ok a
          → Q (
              k a (
                send (event receipt n OperationEventKind.progress)
                ∷ finish_step receipt.operation_id n (outcome_of result)
                ∷ effect s id
                ∷ opened receipt n s id h))
      reported a result p e = rw e (goes_on a (p ∙ e) (tt, (tt, done)))

  module _ (c : ConfirmedCreate) (n : ℕ) (confirmed : IsConfirmed outside receipt c n) where
    run_started-IsOrdered :
        (id : String)
        → IsInspected outside receipt c n id
        → AllRest outside receipt (before_start receipt c n id)
        → Q (
            run_started outside receipt
              (number receipt c n id Stage.start)
              id
              (before_start receipt c n id))
    unfolding run_started notify
    run_started-IsOrdered id found r =
        after_stage _ Stage.start id (outside.start id) _ _ r
          (c, n, id, confirmed, found, refl, refl)
          λ _ x r'.
            after_stage _ Stage.ready id (outside.wait_ready id) _ _ r'
              (c, n, id, confirmed, found, refl, refl)
              λ _ ready r''.
                after_perform Q _ _ _ _ (λ e p. refused outside receipt _ e _ (rests ready, r'') p)
                  λ _ p.
                    after_perform Q _ _ _ _ (λ e q. never outside receipt _ e _ q)
                      λ _ q. ((tt, (rests ready, r'')), (_, _, granted outside receipt _ _ p, refl))
      where
        rests :
            outside.wait_ready id (effect Stage.ready id ∷ due receipt c n id Stage.ready) ≡ ok tt
            → Rests outside receipt
                (complete_ready receipt.operation_id id)
                (all_passed receipt c n id)
        rests ready = (c, n, confirmed, found, refl, ready, refl)

    run_stages-IsOrdered :
        AllRest outside receipt (before_image receipt c n "")
        → Q (run_stages outside receipt c n (before_image receipt c n ""))
    unfolding run_stages
    run_stages-IsOrdered r =
        after_stage _ Stage.image _ _ _ _ r (c, n, "", confirmed, tt, refl, refl)
          λ _ x r1.
            after_stage _ Stage.artifact _ _ _ _ r1 (c, n, "", confirmed, tt, refl, refl)
              λ _ x r2.
                after_stage _ Stage.config _ _ _ _ r2 (c, n, "", confirmed, tt, refl, refl)
                  λ _ x r3.
                    after_stage _ Stage.create _ _ _ _ r3 (c, n, "", confirmed, tt, refl, refl)
                      λ _ x r4.
                        after_stage _ Stage.inspect_created _ _ _ _ r4
                          (c, n, "", confirmed, tt, refl, refl)
                          λ id found r5.
                            after_perform Q _ _ _ _
                              (λ e p. refused outside receipt _ e _ (tt, r5) p)
                              λ _ p. run_started-IsOrdered id found (tt, r5)

  prepared-IsOrdered :
      (c : ConfirmedCreate) (n : ℕ) (prepared : Result ℕ CreateEffectError)
      → ((m : ℕ) → prepared ≡ ok m → IsConfirmed outside receipt c m)
      → Q (
          (or_fail outside receipt "storage" 1 prepared >>= run_stages outside receipt c)
            (before_image receipt c n ""))
  unfolding or_fail
  prepared-IsOrdered c n (ok m) confirmed =
      after_pure Q m _ _ (run_stages-IsOrdered c m (confirmed m refl) (tt, (tt, (tt, tt))))
  prepared-IsOrdered c n (err e) confirmed =
      after_fail outside receipt "storage" 1 e _ _ (tt, (tt, (tt, tt)))

  -- The test of the records, and what follows it.
  tested :
      (b : Bool) (m : Run String) (h : List Call)
      → AllRest outside receipt h
      → (b ≡ false → Q (m h))
      → Q ((if b then raise (CreateOperationError.store StoreConflict.invalid_input) else m) h)
  tested true m h r goes_on = (r, tt)
  tested false m h r goes_on = goes_on refl

  run_confirmed-IsOrdered :
      (c : ConfirmedCreate)
      → outside.confirmed_create receipt (confirmed_create receipt ∷ []) ≡ ok c
      → Q (run_confirmed outside receipt c (confirmed_create receipt ∷ []))
  unfolding run_confirmed run_accepted mark
  run_confirmed-IsOrdered c records =
      tested (differs outside receipt c) (run_accepted outside receipt c)
        (confirmed_create receipt ∷ []) (tt, tt)
        λ same.
          after_perform Q _ _ _ _ (λ e p. refused outside receipt _ e _ (tt, (tt, tt)) p)
            λ _ p.
              after_perform Q _ _ _ _ (λ e q. never outside receipt _ e _ q)
                λ prepared q. prepared-IsOrdered c 0 prepared λ m e. record {
                  records = records;
                  instance_id = ground (arith, same, eq_iff c.instance_id receipt.instance_id);
                  scope_id = ground (arith, same, eq_iff c.scope_id receipt.scope_id);
                  prepared = cc (q, e);
                }

  ordered : Q (run_locked outside receipt [])
  unfolding run_locked
  ordered =
      after_perform Q _ _ _ [] (λ e p. refused outside receipt _ e _ (tt, tt) p)
        λ c p. run_confirmed-IsOrdered c (granted outside receipt _ _ p)
