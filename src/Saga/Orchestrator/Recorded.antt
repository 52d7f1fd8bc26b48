-- ===== src/Saga/Orchestrator/Recorded.antt =====
-- The last thing that `execute` does is to hand its store the status that it returns.
use mathlib.Core.Option
use plus_api.Common.{ℕ, String, ◌≡◌, ap, ◌∙◌, Option, some, List, arith}
use plus_api.Common.Int.{sub_ℕ}
use plus_api.Common.Result.{ok, Error}
use plus_api.Saga.Types.{Run, SagaStep, SagaConfig, SagaResult, SagaState, Services}
use plus_api.Saga.Steps.{step_names, sort_steps, run_loop}
use plus_api.Saga.Orchestrator.{update_state, conclude, start_saga, finish, execute}
use plus_api.Saga.Orchestrator.Outcome.{
  IsOwnEnd, NeverThrows, save_ok, update_ok, run_from_saved, start_saga_saved, finish-IsOwnEnd,
}

module _ {T V W : Type 0} (svc : Services T V W) where
  -- what `finish` hands to `update`, and the world in which it does
  last_state :
      SagaConfig
      → ℕ
      → List (SagaStep T V W) × Option (String × Error) × Run T V W
      → SagaState T V × W
  last_state config start (completed, failure, r) =
      let (time, w) = svc.now r.world in
      let failed_step = Option.map (λ (f : String × Error). f.0) failure in
      let (status, r') = conclude svc config failed_step (record r { world = w }) in
      (
        record {
          status = status;
          context = r'.context;
          completed_steps = step_names completed;
          failed_step = failed_step;
          duration = some (sub_ℕ time start);
        },
        r'.world,
      )

  module _
      (updates : (id : String) (state : SagaState T V) (w : W)
        → (update_state svc svc.state_store id state w).0 ≡ ok tt) where
    finish_records :
        (config : SagaConfig) (start : ℕ)
        (run : List (SagaStep T V W) × Option (String × Error) × Run T V W)
        → let (state, w) = last_state config start run in
          ((finish svc config start run).1
            ≡ (update_state svc svc.state_store config.saga_id state w).1)
          × (state.status ≡ (finish svc config start run).0.status)
    unfolding finish last_state
    finish_records config start (completed, failure, r) = grind (arith, updates)

  -- With a store that never throws, `execute` ends by handing it a state whose status the result has.
  pub execute_records :
      (config : SagaConfig) (steps : List (SagaStep T V W)) (content : T) (w : W)
      → NeverThrows svc.state_store
      → (state : SagaState T V) × (before : W) × (result : SagaResult T V) × (execute svc config
            steps content w
          ≡ (ok result, (update_state svc svc.state_store config.saga_id state before).1))
        × (state.status ≡ result.status)
        × IsOwnEnd result
  unfolding execute
  execute_records config steps content w safe =
      let saves = save_ok svc svc.state_store safe in
      let updates = update_ok svc svc.state_store safe in
      let start = start_saga svc config content w in
      let run = run_loop svc config (sort_steps steps) start.2 in
      let (recorded, status) = finish_records updates config start.0 run in
      (
        (last_state config start.0 run).0,
        (last_state config start.0 run).1,
        (finish svc config start.0 run).0,
        run_from_saved svc config (sort_steps steps) start
              (start_saga_saved svc config content w saves)
            ∙ ap (λ world. (ok (finish svc config start.0 run).0, world)) recorded,
        status,
        finish-IsOwnEnd svc config start.0 run updates,
      )
