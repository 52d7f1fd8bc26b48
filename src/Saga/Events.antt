-- ===== src/Saga/Events.antt =====
-- Publishing the events of a saga: `publishEvent` of
-- shared/common/src/saga/saga-orchestrator.service.ts.
pub mod Quiet
use plus_api.Common.{String, Option, none, some}
use plus_api.Common.Result.{Error, Async}
use plus_api.Saga.Types.{
  SagaStatus, SagaEventType, EventStatus, of_saga, EventData, SagaEvent, Services,
}

-- The rest of an event, which a caller of `publishEvent` may leave out.
pub record Details (V : Type 0) : Type 0 where
  pub step_name : Option String
  pub status : Option EventStatus
  pub content : Option (EventData V)
  pub error : Option Error

module _ {V : Type 0} where
  abbrev pub no_details : Details V
  no_details = record { step_name = none; status = none; content = none; error = none }

  abbrev pub of_name : String → Details V
  of_name n = record { step_name = some n; status = none; content = none; error = none }

  abbrev pub of_status : SagaStatus → Details V
  of_status s = record { step_name = none; status = some (of_saga s); content = none; error = none }

module _ {V W : Type 0} where
  -- A publisher that throws is logged and changes nothing for the saga.
  deliver : Option (SagaEvent V → Async W (Unit {0})) → SagaEvent V → W → W
  deliver none event w = w
  deliver (some publish) event w = (publish event w).1

module _ {T V W : Type 0} (svc : Services T V W) where
  unfoldable pub publish_event : String → SagaEventType → Details V → W → W
  unfolding deliver
  publish_event id type d w =
      let (time, w') = svc.now w in
      deliver svc.event_publisher
        (record {
          saga_id = id;
          event_type = type;
          timestamp = time;
          step_name = d.step_name;
          status = d.status;
          content = d.content;
          error = d.error;
        })
        w'
