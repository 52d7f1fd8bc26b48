-- ===== src/Saga/Types.antt =====
-- The data of the saga engine: shared/common/src/saga/saga.interface.ts and interfaces/.
-- `T` is the type of a saga's data, `V` of what its steps return (`any` in the source), and `W` of
-- everything outside the saga that steps and collaborators read and write.
use plus_api.Common.{ℕ, String, Option, List}
use plus_api.Common.Int.{ℤ}
use plus_api.Common.Dict.{Dict}
use plus_api.Common.Result.{Result, Error, Async}

pub data SagaStepStatus : Type 0 where
  pending in_progress completed failed compensating compensated compensation_failed : SagaStepStatus

pub data SagaStatus : Type 0 where
  initiated in_progress completed failed compensating compensated compensation_failed : SagaStatus

pub data SagaEventType : Type 0 where
  saga_started saga_completed saga_failed saga_compensating saga_compensated : SagaEventType
  step_started step_completed step_failed step_compensating step_compensated : SagaEventType

-- Dates are milliseconds. The index signature `[key: string]: any` is `other`.
pub record SagaMetadata (V : Type 0) : Type 0 where
  pub started_at : ℕ
  pub completed_at : Option ℕ
  pub failed_at : Option ℕ
  pub user_id : Option String
  pub source : Option String
  pub other : Dict V

pub record SagaContext (T V : Type 0) : Type 0 where
  pub saga_id : String
  pub correlation_id : String
  pub content : T  -- `data`
  pub metadata : SagaMetadata V
  pub step_results : Dict V

-- What a step runs over: the context object, which it may mutate, and the world outside.
pub record Run (T V W : Type 0) : Type 0 where
  pub context : SagaContext T V
  pub world : W

-- The promise that `step.execute(context)` returns: how it settles, and after how many milliseconds.
pub record Promise (V : Type 0) : Type 0 where
  pub outcome : Result V
  pub settles_after : ℕ

pub record SagaStep (T V W : Type 0) : Type 0 where
  pub name : String
  pub order : ℤ
  pub execute : Run T V W → Promise V × Run T V W
  pub compensate : Option V → Async (Run T V W) (Unit {0})
  pub on_step_complete : Option (V → Async (Run T V W) (Unit {0}))
  pub on_step_failed : Option (Error → Async (Run T V W) (Unit {0}))

-- `retryAttempts`, `retryDelay` and `continueOnError` are declared, and no code reads them.
pub record SagaConfig : Type 0 where
  pub saga_id : String
  pub name : String
  pub timeout : Option ℕ
  pub retry_attempts : Option ℕ

pub record SagaResult (T V : Type 0) : Type 0 where
  pub saga_id : String
  pub status : SagaStatus
  pub context : SagaContext T V
  pub completed_steps : List String
  pub failed_step : Option String
  pub error : Option Error
  pub duration : ℤ

-- `status?: SagaStatus | SagaStepStatus`
pub data EventStatus : Type 0 where
  of_saga : SagaStatus → EventStatus
  of_step : SagaStepStatus → EventStatus

-- `data?: any`: the name of the saga that started, or what a step returned
pub data EventData (V : Type 0) : Type 0 where
  saga_name : String → EventData V
  returned : V → EventData V

pub record SagaEvent (V : Type 0) : Type 0 where
  pub saga_id : String
  pub event_type : SagaEventType
  pub timestamp : ℕ
  pub step_name : Option String
  pub status : Option EventStatus
  pub content : Option (EventData V)  -- `data`
  pub error : Option Error

-- The objects that the orchestrator hands to the state store.
pub record SagaState (T V : Type 0) : Type 0 where
  pub status : SagaStatus
  pub context : SagaContext T V
  pub completed_steps : List String
  pub failed_step : Option String
  pub duration : Option ℤ

-- `ISagaStateStore`, as far as the orchestrator calls it
pub record StateStore (T V W : Type 0) : Type 0 where
  pub save : String → SagaState T V → Async W (Unit {0})
  pub update : String → SagaState T V → Async W (Unit {0})
  pub get : String → Async W (Option (SagaState T V))

-- The orchestrator's collaborators, both `@Optional()`, and the clock (`Date.now()`, `new Date()`).
pub record Services (T V W : Type 0) : Type 0 where
  pub event_publisher : Option (SagaEvent V → Async W (Unit {0}))  -- `ISagaEventPublisher.publish`
  pub state_store : Option (StateStore T V W)
  pub now : W → ℕ × W
