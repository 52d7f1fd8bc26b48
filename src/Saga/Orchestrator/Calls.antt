-- ===== src/Saga/Orchestrator/Calls.antt =====
-- What a whole saga calls: `execute` under the eyes of an observer of the world who sees the calls
-- of the steps, and neither the clock nor the publisher nor the state store.
use plus_api.Common.{
  ℕ, String, ◌≡◌, ap, ◌∙◌, ◌⊎◌, inl, inr, Option, none, some, List, [], ◌∷◌, ◌++◌, reverse,
}
use plus_api.Common.Lists.{All}
use plus_api.Common.Result.{Result, ok, err, Error}
use plus_api.Saga.Types.{Run, SagaStep, SagaConfig, SagaResult, Services}
use plus_api.Saga.Events.Quiet.{IsQuiet}
use plus_api.Saga.Steps.{step_names, sort_steps, run_loop}
use plus_api.Saga.Steps.Order.{All-sort_steps}
use plus_api.Saga.Steps.Trace.{Call, executed, executions, compensations, IsObserved}
use plus_api.Saga.Steps.Rollback.{HasRun, run_loop-HasRun}
use plus_api.Saga.Orchestrator.Quiet.{IsQuietStore, finish_quiet, start_saga_quiet, finish_fields}
use plus_api.Saga.Orchestrator.{start_saga, finish, run_from, execute}

module _ {T V W : Type 0} (observe : W → List Call) where
  -- What `execute` has called, by how it settled. If saving the first state failed: nothing. If the
  -- result names no failed step: every step, in order. Else some steps, the failed one, and the
  -- compensations of the completed steps, the last one first.
  abbrev pub HasCalled :
      List (SagaStep T V W) → List Call → Result (SagaResult T V) → List Call → Type 0
  HasCalled steps before (err e) after = after ≡ before
  HasCalled steps before (ok result) after =
      ((result.failed_step ≡ none)
        × (result.completed_steps ≡ step_names steps)
        × (after ≡ before ++ executions steps))
      ⊎ ((ran : List (SagaStep T V W)) × (s : SagaStep T V W) × (rest : List (SagaStep T V W))
          × (steps ≡ ran ++ s ∷ rest)
          × (result.failed_step ≡ some s.name)
          × (result.completed_steps ≡ step_names ran)
          × (after ≡ before ++ (executions ran ++ executed s.name ∷ compensations (reverse ran))))

  module _ (svc : Services T V W) (quiet : IsQuiet observe svc)
      (store : IsQuietStore observe svc.state_store) where
    finish-HasCalled :
        (config : SagaConfig) (start : ℕ) (steps : List (SagaStep T V W)) (before : List Call)
        (run : List (SagaStep T V W) × Option (String × Error) × Run T V W)
        → HasRun observe [] steps before run
        → HasCalled steps before
            (ok (finish svc config start run).0)
            (observe (finish svc config start run).1)
    finish-HasCalled config start steps before (completed, none, r) (all, seen) =
        let (names, failed) = finish_fields svc config start completed none r in
        inl (
          failed,
          names ∙ ap step_names all,
          finish_quiet observe svc quiet store config start completed none r ∙ seen,
        )
    finish-HasCalled config start steps before (completed, some (n, e), r)
          (ran, s, rest, parts, name, done, seen) =
        let (names, failed) = finish_fields svc config start completed (some (n, e)) r in
        inr (
          ran,
          s,
          rest,
          parts,
          failed ∙ ap some name,
          names ∙ ap step_names done,
          finish_quiet observe svc quiet store config start completed (some (n, e)) r ∙ seen,
        )

    settled_calls :
        (config : SagaConfig) (steps : List (SagaStep T V W)) (before : List Call)
        (start : ℕ × Result (Unit {0}) × Run T V W)
        → HasRun observe [] steps before (run_loop svc config steps start.2)
        → observe start.2.world ≡ before
        → let (result, w') = run_from svc config steps start in
          HasCalled steps before result (observe w')
    unfolding run_from
    settled_calls config steps before (start, ok _, r) run first =
        finish-HasCalled config start steps before (run_loop svc config steps r) run
    settled_calls config steps before (start, err e, r) run first = first

    -- If the observer sees the calls of every step, then after `execute` it has seen, of the sorted
    -- steps: all their executions and nothing else; or the executions of the first ones and of one
    -- that failed, and then the compensations of the first ones, in reverse order; and the result
    -- names the completed steps and the failed one. If the first save failed it has seen nothing.
    pub execute_calls :
        (config : SagaConfig) (steps : List (SagaStep T V W)) (content : T) (w : W)
        → All (IsObserved observe) steps
        → let (result, w') = execute svc config steps content w in
          HasCalled (sort_steps steps) (observe w) result (observe w')
    unfolding execute start_saga
    execute_calls config steps content w seen =
        let start = start_saga svc config content w in
        let quiet_start = start_saga_quiet observe svc quiet store config content w in
        settled_calls config (sort_steps steps) (observe w) start
          (rw (← quiet_start) (
            run_loop-HasRun observe svc quiet config (sort_steps steps)
              (All-sort_steps (IsObserved observe) steps seen) start.2))
          quiet_start
