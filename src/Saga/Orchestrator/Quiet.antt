-- ===== src/Saga/Orchestrator/Quiet.antt =====
-- `execute` as seen by an observer of the world who watches neither the clock nor the publisher nor
-- the state store: apart from its steps it changes nothing.
use mathlib.Core.Option
use plus_api.Common.{ℕ, String, ◌≡◌, refl, Option, none, some, List, arith}
use plus_api.Common.Result.{Error}
use plus_api.Saga.Types.{Run, SagaStep, SagaConfig, SagaState, StateStore, Services}
use plus_api.Saga.Events.Quiet.{IsQuiet, publish_event_quiet}
use plus_api.Saga.Steps.{step_names}
use plus_api.Saga.Orchestrator.{
  save_state, update_state, initial_context, conclude, fail_saga, start_saga, finish, stamp_failed,
  stamp_completed,
}

module _ {T V W O : Type 0} (observe : W → O) where
  abbrev pub IsQuietStore : Option (StateStore T V W) → Type 0
  IsQuietStore none = Unit
  IsQuietStore (some store) =
      ((id : String) (state : SagaState T V) (w : W)
        → observe (store.save id state w).1 ≡ observe w)
      × ((id : String) (state : SagaState T V) (w : W)
          → observe (store.update id state w).1 ≡ observe w)

  module _ (svc : Services T V W) (quiet : IsQuiet observe svc)
      (store : IsQuietStore svc.state_store) where
    save_quiet :
        (st : Option (StateStore T V W))
        → IsQuietStore st
        → (id : String) (state : SagaState T V) (w : W)
        → observe (save_state svc st id state w).1 ≡ observe w
    unfolding save_state
    save_quiet none q id state w = refl
    save_quiet (some s) q id state w = q.0 id state w

    update_quiet :
        (st : Option (StateStore T V W))
        → IsQuietStore st
        → (id : String) (state : SagaState T V) (w : W)
        → observe (update_state svc st id state w).1 ≡ observe w
    unfolding update_state
    update_quiet none q id state w = refl
    update_quiet (some s) q id state w = q.1 id state w

    saved_quiet :
        (id : String) (state : SagaState T V) (w : W)
        → observe (save_state svc svc.state_store id state w).1 ≡ observe w
    saved_quiet id state w = save_quiet svc.state_store store id state w

    updated_quiet :
        (id : String) (state : SagaState T V) (w : W)
        → observe (update_state svc svc.state_store id state w).1 ≡ observe w
    updated_quiet id state w = update_quiet svc.state_store store id state w

    conclude_quiet :
        (config : SagaConfig) (failed_step : Option String) (r : Run T V W)
        → observe (conclude svc config failed_step r).1.world ≡ observe r.world
    unfolding conclude
    conclude_quiet config failed_step r =
        grind (arith, publish_event_quiet observe svc quiet, quiet.now)

    pub finish_quiet :
        (config : SagaConfig) (start : ℕ) (completed : List (SagaStep T V W))
        (failure : Option (String × Error)) (r : Run T V W)
        → observe (finish svc config start (completed, failure, r)).1 ≡ observe r.world
    unfolding finish fail_saga
    finish_quiet config start completed failure r =
        grind
          (arith, publish_event_quiet observe svc quiet, quiet.now, conclude_quiet, updated_quiet)

    pub start_saga_quiet :
        (config : SagaConfig) (content : T) (w : W)
        → observe (start_saga svc config content w).2.world ≡ observe w
    unfolding start_saga
    start_saga_quiet config content w =
        grind (arith, publish_event_quiet observe svc quiet, quiet.now, saved_quiet)

module _ {T V W : Type 0} (svc : Services T V W) where
  -- A result's fields that tell how far the saga came.
  pub finish_fields :
      (config : SagaConfig) (start : ℕ) (completed : List (SagaStep T V W))
      (failure : Option (String × Error)) (r : Run T V W)
      → let result = (finish svc config start (completed, failure, r)).0 in
        (result.completed_steps ≡ step_names completed)
        × (result.failed_step ≡ Option.map (λ f. f.0) failure)
  unfolding finish fail_saga
  finish_fields config start completed failure r = ground arith

  -- The context that the steps find has the saga's data.
  pub start_saga_content :
      (config : SagaConfig) (content : T) (w : W)
      → (start_saga svc config content w).2.context.content ≡ content
  unfolding start_saga initial_context
  start_saga_content config content w = refl

  -- What the result reports of the steps is what they left in the context.
  pub finish_results :
      (config : SagaConfig) (start : ℕ) (completed : List (SagaStep T V W))
      (failure : Option (String × Error)) (r : Run T V W)
      → let result = (finish svc config start (completed, failure, r)).0 in
        result.context.step_results ≡ r.context.step_results
  unfolding finish fail_saga conclude stamp_failed stamp_completed
  finish_results config start completed failure r = ground arith
