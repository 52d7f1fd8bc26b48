-- ===== src/Saga/Orchestrator/Recovery.antt =====
-- Backward recovery of a whole saga.
use plus_api.Common.{ℕ, String, ◌≡◌, ◌≢◌, ◌⊎◌, inl, inr, Option, none, some, List, arith}
use plus_api.Common.Result.{Result, ok, err, Error}
use plus_api.Saga.Types.{Run, SagaStep, SagaConfig, SagaResult, Services}
use plus_api.Saga.Events.Quiet.{IsQuiet}
use plus_api.Saga.Steps.{sort_steps, run_loop}
use plus_api.Saga.Steps.Recovery.{Assertion, Ended, Recovers, run_loop-Recovers}
use plus_api.Saga.Orchestrator.Quiet.{
  IsQuietStore, finish_quiet, start_saga_quiet, finish_fields, finish_results,
}
use plus_api.Saga.Orchestrator.{start_saga, finish, run_from, execute}

module _ {T V W O : Type 0} (observe : W → O) where
  -- A world in which an observer sees what he sees in some state that meets the assertion.
  abbrev pub Meets : Assertion (Run T V W) → W → Type 0
  Meets P w = (r : Run T V W) × P r × (observe w ≡ observe r.world)

  -- How `execute` ended: not at all begun, or in `Done`, or in `Clean` with a failed step.
  abbrev pub Recovered :
      Assertion (Run T V W) → Assertion (Run T V W) → W → Result (SagaResult T V) → W → Type 0
  Recovered Clean Done w (err e) w' = observe w' ≡ observe w
  Recovered Clean Done w (ok result) w' =
      ((result.failed_step ≡ none) × Meets Done w') ⊎ ((result.failed_step ≢ none) × Meets Clean w')

  -- The same, where a result without a failed step also reports what the steps left in the context.
  abbrev pub Reported :
      Assertion (Run T V W) → Assertion (Run T V W) → W → Result (SagaResult T V) → W → Type 0
  Reported Clean Done w (err e) w' = observe w' ≡ observe w
  Reported Clean Done w (ok result) w' =
      ((result.failed_step ≡ none)
        × ((r : Run T V W) × Done r
            × (observe w' ≡ observe r.world)
            × (result.context.step_results ≡ r.context.step_results)))
      ⊎ ((result.failed_step ≢ none) × Meets Clean w')

  Reported-Recovered :
      (Clean Done : Assertion (Run T V W)) (w : W) (result : Result (SagaResult T V)) (w' : W)
      → Reported Clean Done w result w'
      → Recovered Clean Done w result w'
  Reported-Recovered Clean Done w (err e) w' same = same
  Reported-Recovered Clean Done w (ok result) w' (inl (whole, (r, h, same, reports))) =
      inl (whole, (r, h, same))
  Reported-Recovered Clean Done w (ok result) w' (inr failed) = inr failed

  module _ (svc : Services T V W) (quiet : IsQuiet observe svc)
      (store : IsQuietStore observe svc.state_store) (config : SagaConfig)
      (Clean Done : Assertion (Run T V W)) where
    finish-Reported :
        (w : W) (start : ℕ) (run : List (SagaStep T V W) × Option (String × Error) × Run T V W)
        → Ended Clean Done run
        → let (result, w') = finish svc config start run in Reported Clean Done w (ok result) w'
    finish-Reported w start (completed, none, r) h = inl (
      (finish_fields svc config start completed none r).1,
      (
        r,
        h,
        finish_quiet observe svc quiet store config start completed none r,
        finish_results svc config start completed none r,
      ),
    )
    finish-Reported w start (completed, some (n, e), r) h =
        let fields = finish_fields svc config start completed (some (n, e)) r in
        inr (
          (λ none_failed. ground (arith, fields.1, none_failed)),
          (r, h, finish_quiet observe svc quiet store config start completed (some (n, e)) r),
        )

    run_from-Reported :
        (w : W) (steps : List (SagaStep T V W)) (start : ℕ × Result (Unit {0}) × Run T V W)
        → observe start.2.world ≡ observe w
        → Ended Clean Done (run_loop svc config steps start.2)
        → let (result, w') = run_from svc config steps start in Reported Clean Done w result w'
    unfolding run_from
    run_from-Reported w steps (start, ok _, r) same h =
        finish-Reported w start (run_loop svc config steps r) h
    run_from-Reported w steps (start, err e, r) same h = same

    pub execute-Reported :
        (steps : List (SagaStep T V W)) (content : T) (w : W)
        → Recovers svc config Done Clean (sort_steps steps)
        → Clean (start_saga svc config content w).2
        → let (result, w') = execute svc config steps content w in Reported Clean Done w result w'
    unfolding execute
    execute-Reported steps content w chain clean =
        run_from-Reported w (sort_steps steps) (start_saga svc config content w)
          (start_saga_quiet observe svc quiet store config content w)
          (run_loop-Recovers svc config Clean Done (sort_steps steps) chain _ clean)

    -- If the sorted steps form a chain from `Clean` to `Done` in which each compensation leads back,
    -- and the saga's first state is `Clean`, then `execute` ends in a world that looks like `Done` if
    -- its result names no failed step, and like `Clean` if it names one; and if it throws, the world
    -- looks as before.
    pub execute-Recovers :
        (steps : List (SagaStep T V W)) (content : T) (w : W)
        → Recovers svc config Done Clean (sort_steps steps)
        → Clean (start_saga svc config content w).2
        → let (result, w') = execute svc config steps content w in Recovered Clean Done w result w'
    execute-Recovers steps content w chain clean =
        Reported-Recovered Clean Done w _ _ (execute-Reported steps content w chain clean)
