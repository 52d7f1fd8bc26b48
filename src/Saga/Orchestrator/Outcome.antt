-- ===== src/Saga/Orchestrator/Outcome.antt =====
-- What `execute` returns: its status, its error, and when it throws.
use plus_api.Common.{ℕ, String, ◌≡◌, ◌↔◌, refl, ap, Option, none, some, List, arith, if◌then◌else◌}
use plus_api.Common.Text.{is_truthy}
use plus_api.Common.Result.{Result, ok, err, Error}
use plus_api.Saga.Types.{
  SagaStatus, Run, SagaStep, SagaConfig, SagaResult, SagaState, StateStore, Services,
}
use plus_api.Saga.Steps.{sort_steps, run_loop}
use plus_api.Saga.Orchestrator.{
  save_state, update_state, conclude, fail_saga, start_saga, finish, run_from, execute,
}

-- The status of a saga that ended by itself, by the step that failed.
abbrev pub status_after : Option String → SagaStatus
status_after failed_step =
    if is_truthy failed_step then SagaStatus.compensated else SagaStatus.completed

module _ {T V : Type 0} where
  -- What the result of a saga says, where no store gets in the way.
  abbrev pub IsOwnEnd : SagaResult T V → Type 0
  IsOwnEnd result =
      (result.status ≡ status_after result.failed_step)
      × ((result.failed_step ≡ none) ↔ (result.error ≡ none))

module _ {T V W : Type 0} where
  abbrev pub NeverThrows : Option (StateStore T V W) → Type 0
  NeverThrows none = Unit
  NeverThrows (some store) =
      ((id : String) (state : SagaState T V) (w : W) → (store.save id state w).0 ≡ ok tt)
      × ((id : String) (state : SagaState T V) (w : W) → (store.update id state w).0 ≡ ok tt)

module _ {T V W : Type 0} (svc : Services T V W) where
  pub finish-IsOwnEnd :
      (config : SagaConfig) (start : ℕ)
      (run : List (SagaStep T V W) × Option (String × Error) × Run T V W)
      → ((id : String) (state : SagaState T V) (w : W)
          → (update_state svc svc.state_store id state w).0 ≡ ok tt)
      → IsOwnEnd (finish svc config start run).0
  unfolding finish conclude
  finish-IsOwnEnd config start (completed, none, r) updates = grind (arith, updates)
  finish-IsOwnEnd config start (completed, some (n, e), r) updates = grind (arith, updates)

  pub save_ok :
      (st : Option (StateStore T V W))
      → NeverThrows st
      → (id : String) (state : SagaState T V) (w : W) → (save_state svc st id state w).0 ≡ ok tt
  unfolding save_state
  save_ok none q id state w = refl
  save_ok (some s) q id state w = q.0 id state w

  pub update_ok :
      (st : Option (StateStore T V W))
      → NeverThrows st
      → (id : String) (state : SagaState T V) (w : W) → (update_state svc st id state w).0 ≡ ok tt
  unfolding update_state
  update_ok none q id state w = refl
  update_ok (some s) q id state w = q.1 id state w

  pub run_from_saved :
      (config : SagaConfig) (steps : List (SagaStep T V W))
      (start : ℕ × Result (Unit {0}) × Run T V W)
      → start.1 ≡ ok tt
      → run_from svc config steps start ≡ (
          let (result, w) = finish svc config start.0 (run_loop svc config steps start.2) in
          (ok result, w))
  unfolding run_from
  run_from_saved config steps (start, ok _, r) saved = refl
  run_from_saved config steps (start, err e, r) saved = cc

  pub start_saga_saved :
      (config : SagaConfig) (content : T) (w : W)
      → ((id : String) (state : SagaState T V) (w : W)
          → (save_state svc svc.state_store id state w).0 ≡ ok tt)
      → (start_saga svc config content w).1 ≡ ok tt
  unfolding start_saga
  start_saga_saved config content w saves = saves _ _ _

  execute_saved :
      (config : SagaConfig) (steps : List (SagaStep T V W)) (content : T) (w : W)
      → ((id : String) (state : SagaState T V) (w : W)
          → (save_state svc svc.state_store id state w).0 ≡ ok tt)
      → let (start, _, r) = start_saga svc config content w in
        (execute svc config steps content w).0
        ≡ ok (finish svc config start (run_loop svc config (sort_steps steps) r)).0
  unfolding execute
  execute_saved config steps content w saves =
      ap (λ x. x.0)
        (run_from_saved config (sort_steps steps) (start_saga svc config content w)
          (start_saga_saved config content w saves))

  -- Without a state store, or with one whose methods never throw, `execute` returns a result. Its
  -- status is COMPENSATED if it names a failed step, by a name that is not empty, and COMPLETED
  -- otherwise, and it carries an error exactly when it names a failed step.
  pub execute_returns :
      (config : SagaConfig) (steps : List (SagaStep T V W)) (content : T) (w : W)
      → NeverThrows svc.state_store
      → (result : SagaResult T V) × ((execute svc config steps content w).0 ≡ ok result)
        × (result.status ≡ status_after result.failed_step)
        × ((result.failed_step ≡ none) ↔ (result.error ≡ none))
  execute_returns config steps content w safe =
      let (start, _, r) = start_saga svc config content w in
      let run = run_loop svc config (sort_steps steps) r in
      let (status, error) = finish-IsOwnEnd config start run (update_ok svc.state_store safe) in
      (
        (finish svc config start run).0,
        execute_saved config steps content w (save_ok svc.state_store safe),
        status,
        error,
      )

  module _ (store : StateStore T V W) where
    store_saves :
        (st : Option (StateStore T V W))
        → st ≡ some store
        → ((id : String) (state : SagaState T V) (w : W) → (store.save id state w).0 ≡ ok tt)
        → (id : String) (state : SagaState T V) (w : W) → (save_state svc st id state w).0 ≡ ok tt
    unfolding save_state
    store_saves none is h id state w = cc
    store_saves (some s) is h id state w = ground (arith, h id state w)

    store_throws :
        (st : Option (StateStore T V W)) (e : Error)
        → st ≡ some store
        → ((id : String) (state : SagaState T V) (w : W) → (store.update id state w).0 ≡ err e)
        → (id : String) (state : SagaState T V) (w : W) → (update_state svc st id state w).0 ≡ err e
    unfolding update_state
    store_throws none e is h id state w = cc
    store_throws (some s) e is h id state w = ground (arith, h id state w)

  finish-update_error :
      (config : SagaConfig) (start : ℕ) (e : Error)
      (run : List (SagaStep T V W) × Option (String × Error) × Run T V W)
      → ((id : String) (state : SagaState T V) (w : W)
          → (update_state svc svc.state_store id state w).0 ≡ err e)
      → let result = (finish svc config start run).0 in
        (result.status ≡ SagaStatus.failed) × (result.error ≡ some e)
  unfolding finish fail_saga
  finish-update_error config start e (completed, failure, r) updates = grind (arith, updates)

  -- Where the store saves and then throws at every update, the saga reports FAILED with the store's
  -- error, whatever its steps did.
  pub execute-update_error :
      (store : StateStore T V W) (e : Error) (config : SagaConfig) (steps : List (SagaStep T V W))
      (content : T) (w : W)
      → svc.state_store ≡ some store
      → ((id : String) (state : SagaState T V) (w : W) → (store.save id state w).0 ≡ ok tt)
      → ((id : String) (state : SagaState T V) (w : W) → (store.update id state w).0 ≡ err e)
      → (result : SagaResult T V) × ((execute svc config steps content w).0 ≡ ok result)
        × (result.status ≡ SagaStatus.failed)
        × (result.error ≡ some e)
  execute-update_error store e config steps content w is saves updates =
      let (start, _, r) = start_saga svc config content w in
      let run = run_loop svc config (sort_steps steps) r in
      let (status, error) =
        finish-update_error config start e run (store_throws store svc.state_store e is updates) in
      (
        (finish svc config start run).0,
        execute_saved config steps content w (store_saves store svc.state_store is saves),
        status,
        error,
      )

module _ {T V W : Type 0} (svc : Services T V W) where
  run_from_throws :
      (config : SagaConfig) (steps : List (SagaStep T V W))
      (start : ℕ × Result (Unit {0}) × Run T V W) (e : Error)
      → (run_from svc config steps start).0 ≡ err e
      → start.1 ≡ err e
  unfolding run_from
  run_from_throws config steps (start, ok _, r) e thrown = cc
  run_from_throws config steps (start, err x, r) e thrown = ground arith

  save_throws :
      (st : Option (StateStore T V W)) (id : String) (state : SagaState T V) (w : W) (e : Error)
      → (save_state svc st id state w).0 ≡ err e
      → (store : StateStore T V W) × (st ≡ some store) × ((store.save id state w).0 ≡ err e)
  unfolding save_state
  save_throws none id state w e thrown = cc
  save_throws (some store) id state w e thrown = (store, refl, thrown)

  start_saga_throws :
      (config : SagaConfig) (content : T) (w : W) (e : Error)
      → (start_saga svc config content w).1 ≡ err e
      → (store : StateStore T V W) × (state : SagaState T V) × (w' : W) × (svc.state_store
          ≡ some store)
        × ((store.save config.saga_id state w').0 ≡ err e)
  unfolding start_saga
  start_saga_throws config content w e thrown =
      let (store, is, threw) = save_throws svc.state_store config.saga_id _ _ e thrown in
      (store, _, _, is, threw)

  -- `execute` throws only an error that saving the first state has thrown.
  pub execute_throws :
      (config : SagaConfig) (steps : List (SagaStep T V W)) (content : T) (w : W) (e : Error)
      → (execute svc config steps content w).0 ≡ err e
      → (store : StateStore T V W) × (state : SagaState T V) × (w' : W) × (svc.state_store
          ≡ some store)
        × ((store.save config.saga_id state w').0 ≡ err e)
  unfolding execute
  execute_throws config steps content w e thrown =
      start_saga_throws config content w e
        (run_from_throws config (sort_steps steps) (start_saga svc config content w) e thrown)
