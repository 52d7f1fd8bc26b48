-- ===== src/Saga/Orchestrator.antt =====
-- The saga orchestrator: `execute` and `getStatus` of
-- shared/common/src/saga/saga-orchestrator.service.ts. Log output is left out.
pub mod Quiet
pub mod Calls
pub mod Recovery
pub mod Outcome
pub mod Recorded
use mathlib.Core.Option
use plus_api.Common.{
  ℕ, String, Bool, false, Option, none, some, List, [], str_eq, not, if◌then◌else◌,
}
use plus_api.Common.Text.{is_truthy}
use plus_api.Common.Int.{sub_ℕ}
use plus_api.Common.Result.{Result, ok, err, Error, Async, pure, ◌>>=◌}
use plus_api.Saga.Types.{
  SagaStatus, SagaEventType, SagaContext, Run, SagaStep, SagaConfig, SagaResult, saga_name,
  SagaState, StateStore, Services,
}
use plus_api.Saga.Events.{of_status, publish_event}
use plus_api.Saga.Steps.{sort_steps, step_names, run_loop}

module _ {T V W : Type 0} (svc : Services T V W) where
  -- `stateStore?.save` and `stateStore?.update`
  pub save_state : Option (StateStore T V W) → String → SagaState T V → Async W (Unit {0})
  save_state none id state = pure tt
  save_state (some store) id state = store.save id state

  unfoldable pub update_state :
      Option (StateStore T V W) → String → SagaState T V → Async W (Unit {0})
  update_state none id state = pure tt
  update_state (some store) id state = store.update id state

  -- The context object that `execute` makes.
  initial_context : SagaConfig → T → ℕ → SagaContext T V
  initial_context config content started_at = record {
    saga_id = config.saga_id;
    correlation_id = config.saga_id;
    content = content;
    metadata = record {
      started_at = started_at;
      completed_at = none;
      failed_at = none;
      user_id = none;
      source = some config.name;
      other = [];
    };
    step_results = [];
  }

  pub stamp_failed : ℕ → SagaContext T V → SagaContext T V
  stamp_failed time c = record c { metadata = record c.metadata { failed_at = some time } }

  pub stamp_completed : ℕ → SagaContext T V → SagaContext T V
  stamp_completed time c = record c { metadata = record c.metadata { completed_at = some time } }

  -- The final status, with its time stamp and its event.
  conclude : SagaConfig → Option String → Run T V W → SagaStatus × Run T V W
  conclude config failed_step r =
      let (time, w) = svc.now r.world in
      if is_truthy failed_step
      then (
        SagaStatus.compensated,
        record {
          context = stamp_failed time r.context;
          world =
              publish_event svc config.saga_id SagaEventType.saga_compensated
                (of_status SagaStatus.compensated) w;
        },
      )
      else (
        SagaStatus.completed,
        record {
          context = stamp_completed time r.context;
          world =
              publish_event svc config.saga_id SagaEventType.saga_completed
                (of_status SagaStatus.completed) w;
        },
      )

  -- The `catch` around the whole saga.
  fail_saga : SagaConfig → SagaResult T V → ℕ → Error → W → SagaResult T V × W
  fail_saga config result start e w =
      let w' =
        publish_event svc config.saga_id SagaEventType.saga_failed
          (record { step_name = none; status = none; content = none; error = some e }) w in
      let (time, w'') = svc.now w' in
      (
        record result { status = SagaStatus.failed; error = some e; duration = sub_ℕ time start },
        w'',
      )

  -- What `execute` does after the loop.
  pub finish :
      SagaConfig
      → ℕ
      → List (SagaStep T V W) × Option (String × Error) × Run T V W
      → SagaResult T V × W
  finish config start (completed, failure, r) =
      let (time, w) = svc.now r.world in
      let failed_step = Option.map (λ (f : String × Error). f.0) failure in
      let (status, r') = conclude config failed_step (record r { world = w }) in
      let result : SagaResult T V = record {
        saga_id = config.saga_id;
        status = status;
        context = r'.context;
        completed_steps = step_names completed;
        failed_step = failed_step;
        error = Option.map (λ (f : String × Error). f.1) failure;
        duration = sub_ℕ time start;
      } in
      let (updated, w') =
        update_state svc.state_store config.saga_id
          (record {
            status = status;
            context = r'.context;
            completed_steps = step_names completed;
            failed_step = failed_step;
            duration = some (sub_ℕ time start);
          })
          r'.world in
      elim updated [ ok _ ↦ (result, w') | err e ↦ fail_saga config result start e w' ]

  -- What `execute` does before the loop: the start time, how saving the first state settled, and
  -- the state that the steps run over.
  pub start_saga : SagaConfig → T → W → ℕ × Result (Unit {0}) × Run T V W
  start_saga config content w =
      let (start, w₁) = svc.now w in
      let (started_at, w₂) = svc.now w₁ in
      let context = initial_context config content started_at in
      let w₃ =
        publish_event svc config.saga_id SagaEventType.saga_started
          (record {
            step_name = none;
            status = none;
            content = some (saga_name config.name);
            error = none;
          })
          w₂ in
      let (saved, w₄) =
        save_state svc.state_store config.saga_id
          (record {
            status = SagaStatus.in_progress;
            context = context;
            completed_steps = [];
            failed_step = none;
            duration = none;
          })
          w₃ in
      (start, saved, record { context = context; world = w₄ })

  -- An error of `save` leaves the method; else the loop runs and the result is made.
  pub run_from :
      SagaConfig
      → List (SagaStep T V W)
      → ℕ × Result (Unit {0}) × Run T V W
      → Result (SagaResult T V) × W
  run_from config steps (start, ok _, r) =
      let (result, w) = finish config start (run_loop svc config steps r) in (ok result, w)
  run_from config steps (start, err e, r) = (err e, r.world)

  -- `execute`. An error of `stateStore.save` is the only one that a caller meets.
  unfoldable pub execute : SagaConfig → List (SagaStep T V W) → T → Async W (SagaResult T V)
  unfolding save_state update_state initial_context stamp_failed stamp_completed conclude fail_saga
      start_saga finish run_from
  execute config steps content w = run_from config (sort_steps steps) (start_saga config content w)

  unfoldable pub status_of : Option (StateStore T V W) → String → Async W (Option SagaStatus)
  status_of none id = pure none
  status_of (some store) id = do state ← store.get id; pure (Option.map (λ s. s.status) state)

  unfoldable pub get_status : String → Async W (Option SagaStatus)
  unfolding status_of
  get_status id = status_of svc.state_store id
