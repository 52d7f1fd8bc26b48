-- ===== src/Saga/Memory.antt =====
-- The orchestrator over the in-memory store of saga states: how the objects that
-- shared/common/src/saga/saga-orchestrator.service.ts saves stand in the `Map` of
-- shared/common/src/saga/saga-state-store.service.ts, and what `getStatus` reads from it.
pub mod Status
mod Tests
use plus_api.Common.{ℕ, String, Option, none, some, List, [], ◌∷◌, ◌++◌}
use plus_api.Common.Int.{ℤ}
use plus_api.Common.Result.{ok}
use plus_api.Common.Dict.{lookup}
use plus_api.Saga.Types.{SagaStatus, SagaContext, SagaState, StateStore}
use plus_api.Saga.StateStore.{Field, value, Object, Store, save, get, update}

-- the values of the fields of a saga state
pub data Value (T V : Type 0) : Type 0 where
  status_value : SagaStatus → Value T V
  context_value : SagaContext T V → Value T V
  names_value : List String → Value T V
  name_value : Option String → Value T V
  number_value : ℤ → Value T V

module _ {T V : Type 0} where
  -- `failedStep` and `duration` are fields of the last state only.
  abbrev end_fields : Option String → Option ℤ → Object (Value T V)
  end_fields failed_step none = []
  end_fields failed_step (some d) =
      ("failedStep", value (name_value failed_step)) ∷ ("duration", value (number_value d)) ∷ []

  -- the object literal
  abbrev pub to_object : SagaState T V → Object (Value T V)
  to_object s =
      ("status", value (status_value s.status))
      ∷ ("context", value (context_value s.context))
      ∷ ("completedSteps", value (names_value s.completed_steps))
      ∷ end_fields s.failed_step s.duration

  read_name : Option (Field (Value T V)) → Option String
  read_name (some (value (name_value n))) = n
  read_name _ = none

  read_number : Option (Field (Value T V)) → Option ℤ
  read_number (some (value (number_value d))) = some d
  read_number _ = none

  of_fields :
      Option (Field (Value T V))
      → Option (Field (Value T V))
      → Option (Field (Value T V))
      → Object (Value T V)
      → Option (SagaState T V)
  of_fields (some (value (status_value s))) (some (value (context_value c)))
        (some (value (names_value n))) o =
      some (record {
        status = s;
        context = c;
        completed_steps = n;
        failed_step = read_name (lookup "failedStep" o);
        duration = read_number (lookup "duration" o);
      })
  of_fields _ _ _ o = none

  -- an object that the store returns, read as a state
  pub of_object : Option (Object (Value T V)) → Option (SagaState T V)
  unfolding of_fields
  of_object none = none
  of_object (some o) =
      of_fields (lookup "status" o) (lookup "context" o) (lookup "completedSteps" o) o

-- What the store holds, and the rest of the world.
pub record Memory (T V W : Type 0) : Type 0 where
  pub states : Store (Value T V)
  pub outside : W

-- The store's methods as the orchestrator calls them; `time` is what `new Date()` says.
abbrev pub memory_store : {T V W : Type 0} → (W → ℕ) → StateStore T V (Memory T V W)
memory_store time = record {
  save = λ id state m.
      (ok tt, record m { states = save id (to_object state) (time m.outside) m.states });
  update = λ id state m.
      (ok tt, record m { states = update id (to_object state) (time m.outside) m.states });
  get = λ id m.
      let (found, states) = get id (time m.outside) m.states in
      (ok (of_object found), record m { states = states });
}
