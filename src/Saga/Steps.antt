-- ===== src/Saga/Steps.antt =====
-- The steps of a saga: the methods `sortSteps`, `executeStep`, `executeWithTimeout` and `compensate`
-- of shared/common/src/saga/saga-orchestrator.service.ts, and the loop of its `execute`.
-- Log output is left out. A method is an action on the saga's `Run`.
pub mod Trace
pub mod Rollback
pub mod Recovery
pub mod Plain
pub mod Order
use plus_api.Common.{
  ℕ, suc, String, Option, none, some, List, [], ◌∷◌, ◌++◌, map, reverse, leb, if◌then◌else◌,
}
use plus_api.Common.Int.{leb_ℤ}
use plus_api.Common.Dict.{lookup, insert}
use plus_api.Common.Result.{
  Result, ok, err, Error, new_error, Async, pure, throw, try_catch, ◌>>=◌, ◌>>◌,
}
use plus_api.Saga.Types.{
  SagaStatus, SagaStepStatus, SagaEventType, Run, Promise, SagaStep, SagaConfig, of_step, returned,
  Services,
}
use plus_api.Saga.Events.{Details, of_name, of_status, publish_event}

-- `steps.sort((a, b) => a.order - b.order)`, which is stable
module _ {T V W : Type 0} where
  insert_step : SagaStep T V W → List (SagaStep T V W) → List (SagaStep T V W)
  insert_step s [] = s ∷ []
  insert_step s (t ∷ ts) = if leb_ℤ s.order t.order then s ∷ t ∷ ts else t ∷ insert_step s ts

  unfoldable pub sort_steps : List (SagaStep T V W) → List (SagaStep T V W)
  unfolding insert_step
  sort_steps [] = []
  sort_steps (s ∷ ss) = insert_step s (sort_steps ss)

  abbrev pub step_names : List (SagaStep T V W) → List String
  step_names = map (λ s. s.name)

-- `timeout` of 0, or none, is no timeout
abbrev pub has_timeout : Option ℕ → Option ℕ
has_timeout (some (suc t)) = some (suc t)
has_timeout _ = none

-- The promise races a timer that starts when the step has been called.
race : {V : Type 0} → Promise V → Option ℕ → Result V
race p none = p.outcome
race p (some t) =
    if leb p.settles_after t then p.outcome else err (new_error "Step execution timeout")

module _ {T V W : Type 0} (svc : Services T V W) where
  -- `publishEvent` within a saga
  pub emit : String → SagaEventType → Details V → Async (Run T V W) (Unit {0})
  emit id type d r = (ok tt, record r { world = publish_event svc id type d r.world })

  -- `publishEvent` with `context.sagaId`
  pub emit_here : SagaEventType → Details V → Async (Run T V W) (Unit {0})
  emit_here type d r = emit r.context.saga_id type d r

  -- `executeWithTimeout(step.execute(context), config.timeout)`
  execute_with_timeout : SagaStep T V W → Option ℕ → Async (Run T V W) V
  execute_with_timeout step timeout r =
      let (promise, r') = step.execute r in (race promise (has_timeout timeout), r')

  -- `context.stepResults.set(step.name, result)`
  set_result : String → V → Async (Run T V W) (Unit {0})
  set_result name v r =
      let record { context = c; world = w } = r in
      (
        ok tt,
        record { context = record c { step_results = insert name v c.step_results }; world = w },
      )

  -- `context.stepResults.get(step.name)`
  result_of : String → Async (Run T V W) (Option V)
  result_of name r = (ok (lookup name r.context.step_results), r)

  -- an optional hook of a step
  hook : {A : Type 0} → Option (A → Async (Run T V W) (Unit {0})) → A → Async (Run T V W) (Unit {0})
  hook none a = pure tt
  hook (some f) a = f a

  -- what `executeStep` does with a result
  keep_result : SagaConfig → SagaStep T V W → V → Async (Run T V W) (Unit {0})
  keep_result config step result = do
    set_result step.name result
    hook step.on_step_complete result
    emit config.saga_id SagaEventType.step_completed (record {
      step_name = some step.name;
      status = some (of_step SagaStepStatus.completed);
      content = some (returned result);
      error = none;
    })

  -- the body of the `try` in `executeStep`
  perform_step : SagaConfig → SagaStep T V W → Async (Run T V W) (Unit {0})
  perform_step config step = do
    result ← execute_with_timeout step config.timeout
    keep_result config step result

  pub execute_step : SagaConfig → SagaStep T V W → Async (Run T V W) (Unit {0})
  execute_step config step = do
    emit config.saga_id SagaEventType.step_started (record {
      step_name = some step.name;
      status = some (of_step SagaStepStatus.in_progress);
      content = none;
      error = none;
    })
    try_catch (perform_step config step) pure (λ e. do hook step.on_step_failed e; throw e)

  -- the body of the `try` in `compensate`
  pub perform_compensation : SagaStep T V W → Async (Run T V W) (Unit {0})
  perform_compensation step = do
    emit_here SagaEventType.step_compensating (of_name step.name)
    result ← result_of step.name
    step.compensate result
    emit_here SagaEventType.step_compensated (record {
      step_name = some step.name;
      status = some (of_step SagaStepStatus.compensated);
      content = none;
      error = none;
    })

  -- An error in one compensation is logged, and the others follow.
  compensate_each : List (SagaStep T V W) → Run T V W → Run T V W
  compensate_each [] r = r
  compensate_each (step ∷ steps) r = compensate_each steps (perform_compensation step r).1

  pub compensate : List (SagaStep T V W) → Run T V W → Run T V W
  compensate steps r =
      compensate_each steps
        (emit_here SagaEventType.saga_compensating (of_status SagaStatus.compensating) r).1

  -- the `catch` of a failing step
  fail_step : SagaConfig → SagaStep T V W → Error → List (SagaStep T V W) → Run T V W → Run T V W
  fail_step config step e completed r =
      compensate (reverse completed)
        (emit config.saga_id SagaEventType.step_failed
          (record { step_name = some step.name; status = none; content = none; error = some e })
          r).1

  -- The loop over the sorted steps: those that completed, the one that failed, and the state.
  run_steps :
      SagaConfig
      → List (SagaStep T V W)
      → List (SagaStep T V W)
      → Run T V W
      → List (SagaStep T V W) × Option (String × Error) × Run T V W
  run_steps config [] completed r = (completed, none, r)
  run_steps config (step ∷ steps) completed r =
      let (result, r') = execute_step config step r in
      elim result [
        | ok _ ↦ run_steps config steps (completed ++ step ∷ []) r'
        | err e ↦ (completed, some (step.name, e), fail_step config step e completed r')
      ]

  unfoldable pub run_loop :
      SagaConfig
      → List (SagaStep T V W)
      → Run T V W
      → List (SagaStep T V W) × Option (String × Error) × Run T V W
  unfolding emit emit_here race execute_with_timeout set_result result_of hook keep_result
      perform_step execute_step perform_compensation compensate_each compensate fail_step run_steps
      lookup insert
  run_loop config steps r = run_steps config steps [] r
