-- ===== src/Saga/Memory/Status.antt =====
-- `getStatus` after `execute`, through the in-memory store.
use mathlib.Core.Option
use plus_api.Common.{
  ℕ, ◌+◌, String, ◌≡◌, refl, ap, ◌∙◌, Option, none, some, List, ltb, inl, inr, Bool-cases,
  if◌then◌else◌,
}
use plus_api.Common.Int.{ℤ}
use plus_api.Common.Dict.{lookup}
use plus_api.Common.Dict.Keys.{IsMap}
use plus_api.Common.Result.{ok}
use plus_api.Saga.Types.{SagaStep, SagaConfig, SagaResult, SagaState, StateStore, Services}
use plus_api.Saga.StateStore.{value, Object, StoredState, Store, get, update, ttl_ms}
use plus_api.Saga.StateStore.Updated.{updated_object, get-updated, lookup-updated_object}
use plus_api.Saga.Orchestrator.{execute, get_status, status_of, update_state}
use plus_api.Saga.Orchestrator.Outcome.{status_after, NeverThrows}
use plus_api.Saga.Orchestrator.Recorded.{execute_records}
use plus_api.Saga.Memory.{
  Value, status_value, context_value, names_value, to_object, of_fields, of_object, Memory,
  memory_store,
}

module _ {T V : Type 0} where
  keys_of_state :
      (failed_step : Option String) (duration : Option ℤ) (state : SagaState T V)
      → state.failed_step ≡ failed_step
      → state.duration ≡ duration
      → IsMap (to_object state)
  unfolding lookup
  keys_of_state f none state p q = simp q (refl, (refl, (refl, tt)))
  keys_of_state f (some d) state p q = simp q (refl, (refl, (refl, (refl, (refl, tt)))))

  fields_status :
      (state : SagaState T V) (o : Object (Value T V))
      → lookup "status" o ≡ some (value (status_value state.status))
      → lookup "context" o ≡ some (value (context_value state.context))
      → lookup "completedSteps" o ≡ some (value (names_value state.completed_steps))
      → Option.map (λ s. s.status) (of_object (some o)) ≡ some state.status
  unfolding of_object of_fields
  fields_status state o s c n = rw (s, c, n) refl

  -- The status that the object in the store has is the one of the last state.
  status-updated :
      (held : Option (StoredState (Value T V))) (state : SagaState T V) (now : ℕ)
      → Option.map (λ s. s.status) (of_object (some (updated_object held (to_object state) now)))
        ≡ some state.status
  unfolding lookup
  status-updated held state now =
      let m = keys_of_state state.failed_step state.duration state refl refl in
      let o = to_object state in
      fields_status state (updated_object held o now)
        (lookup-updated_object "status" _ held o now m refl refl refl)
        (lookup-updated_object "context" _ held o now m refl refl refl)
        (lookup-updated_object "completedSteps" _ held o now m refl refl refl)

  read_updated :
      (id : String) (state : SagaState T V) (now t : ℕ) (states : Store (Value T V))
      → Option.map (λ s. s.status) (of_object (get id t (update id (to_object state) now states)).0)
        ≡ (if ltb (now + ttl_ms) t then none else some state.status)
  unfolding of_object
  read_updated id state now t states =
      ap (λ o. Option.map (λ s. s.status) (of_object o))
        (get-updated id (to_object state) now t states)
      ∙ elim (Bool-cases (ltb (now + ttl_ms) t)) [
        | inl late ↦ rw late refl
        | inr early ↦ rw early (status-updated (lookup id states) state now)
      ]

memory_store_safe :
    {T V W : Type 0} (time : W → ℕ) → NeverThrows (some (memory_store {T = T} {V = V} time))
memory_store_safe time = (λ id state m. refl, λ id state m. refl)

module _ {T V W : Type 0} (svc : Services T V (Memory T V W)) (time : W → ℕ) where
  -- What was handed to `update` is what `getStatus` reads for an hour.
  status_of-update_state :
      (st : Option (StateStore T V (Memory T V W)))
      → st ≡ some (memory_store time)
      → (id : String) (state : SagaState T V) (m : Memory T V W) (later : W)
      → let m' = (update_state svc st id state m).1 in
        (status_of svc st id (record m' { outside = later })).0
        ≡ ok (if ltb (time m'.outside + ttl_ms) (time later) then none else some state.status)
  unfolding status_of update_state
  status_of-update_state st held id state m later =
      rw held (ap ok (read_updated id state (time m.outside) (time later) m.states))

  -- With the in-memory store, `execute` returns a result, whatever its steps do to the store. From
  -- then on, while nothing else touches the store, `getStatus` gives the result's status for an hour
  -- and null afterwards; and that status is COMPLETED, or COMPENSATED if the result names a failed
  -- step by a name that is not empty.
  pub get_status-execute :
      (config : SagaConfig) (steps : List (SagaStep T V (Memory T V W))) (content : T)
      (m : Memory T V W)
      → svc.state_store ≡ some (memory_store time)
      → (result : SagaResult T V) × (m' : Memory T V W) × (execute svc config steps content m
          ≡ (ok result, m'))
        × ((later : W)
            → (get_status svc config.saga_id (record m' { outside = later })).0
              ≡ ok (
                  if ltb (time m'.outside + ttl_ms) (time later) then none else some result.status))
        × (result.status ≡ status_after result.failed_step)
  unfolding get_status
  get_status-execute config steps content m is =
      let safe : NeverThrows svc.state_store = rw is (memory_store_safe time) in
      let (state, before, result, run, same, own_end) =
        execute_records svc config steps content m safe in
      (
        result,
        (update_state svc svc.state_store config.saga_id state before).1,
        run,
        λ later.
            rw (← same)
              (status_of-update_state svc.state_store is config.saga_id state before later),
        own_end.0,
      )
