-- ===== src/Saga/Events/Quiet.antt =====
-- Publishing as seen by an observer of the world that watches neither the clock nor the publisher.
use plus_api.Common.{String, ◌≡◌, refl, ◌∙◌, Option, none, some}
use plus_api.Common.Result.{Async}
use plus_api.Saga.Types.{SagaEvent, SagaEventType, Services}
use plus_api.Saga.Events.{Details, deliver, publish_event}

module _ {V W O : Type 0} (observe : W → O) where
  abbrev pub IsQuietPublisher : Option (SagaEvent V → Async W (Unit {0})) → Type 0
  IsQuietPublisher none = Unit
  IsQuietPublisher (some publish) =
      (event : SagaEvent V) (w : W) → observe (publish event w).1 ≡ observe w

  deliver_quiet :
      (p : Option (SagaEvent V → Async W (Unit {0})))
      → IsQuietPublisher p
      → (event : SagaEvent V) (w : W) → observe (deliver p event w) ≡ observe w
  unfolding deliver
  deliver_quiet none h event w = refl
  deliver_quiet (some publish) h event w = h event w

module _ {T V W O : Type 0} (observe : W → O) where
  -- The clock and the event publisher are not seen.
  pub record IsQuiet (svc : Services T V W) : Type 0 where
    pub now : (w : W) → observe (svc.now w).1 ≡ observe w
    pub publisher : IsQuietPublisher observe svc.event_publisher

  pub publish_event_quiet :
      (svc : Services T V W)
      → IsQuiet svc
      → (id : String) (type : SagaEventType) (d : Details V) (w : W)
      → observe (publish_event svc id type d w) ≡ observe w
  unfolding publish_event
  publish_event_quiet svc quiet id type d w =
      deliver_quiet observe svc.event_publisher quiet.publisher _ (svc.now w).1 ∙ quiet.now w
