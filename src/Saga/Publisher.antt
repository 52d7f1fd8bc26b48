-- ===== src/Saga/Publisher.antt =====
-- The in-memory event publisher: shared/common/src/saga/saga-event-publisher.service.ts.
-- The subscriptions are a `Map` from event types to handlers. A handler acts on the world `W`, which
-- does not hold the subscriptions, and what it awaits is part of its one action. Log output is left out.
pub mod Flat
mod Tests
use plus_api.Common.{ℕ, String, Option, none, some, List, [], ◌∷◌, ◌++◌}
use plus_api.Common.Dict.{Dict, lookup, insert, erase}
use plus_api.Common.Dict.Multi.{list_or_empty, push_at}
use plus_api.Common.Result.{Result, ok, err, Error}
use plus_api.Saga.Types.{SagaEvent, SagaEventType}

-- the values of the enum, which are the keys of the `Map`
unfoldable pub event_key : SagaEventType → String
event_key SagaEventType.saga_started = "SAGA_STARTED"
event_key SagaEventType.saga_completed = "SAGA_COMPLETED"
event_key SagaEventType.saga_failed = "SAGA_FAILED"
event_key SagaEventType.saga_compensating = "SAGA_COMPENSATING"
event_key SagaEventType.saga_compensated = "SAGA_COMPENSATED"
event_key SagaEventType.step_started = "STEP_STARTED"
event_key SagaEventType.step_completed = "STEP_COMPLETED"
event_key SagaEventType.step_failed = "STEP_FAILED"
event_key SagaEventType.step_compensating = "STEP_COMPENSATING"
event_key SagaEventType.step_compensated = "STEP_COMPENSATED"

-- What a call of a handler gives: a promise, with how it settles, or a throw in the call itself.
pub data Called : Type 0 where
  promised : Result (Unit {0}) → Called
  threw : Error → Called

abbrev pub Handler : Type 0 → Type 0 → Type 0
Handler V W = SagaEvent V → W → Called × W

abbrev pub Handlers : Type 0 → Type 0 → Type 0
Handlers V W = Dict (List (Handler V W))

module _ {V W : Type 0} where
  -- `handlers.map((handler) => handler(event).catch(log))`: a rejected promise is logged, and a throw
  -- leaves the `map`.
  unfoldable pub call_each : List (Handler V W) → SagaEvent V → W → Result (Unit {0}) × W
  call_each [] event w = (ok tt, w)
  call_each (h ∷ hs) event w =
      let (called, w') = h event w in
      elim called [ promised r ↦ call_each hs event w' | threw e ↦ (err e, w') ]

  unfoldable pub publish : SagaEvent V → Handlers V W → W → Result (Unit {0}) × W
  publish event m w = call_each (list_or_empty (lookup (event_key event.event_type) m)) event w

  pub subscribe : SagaEventType → Handler V W → Handlers V W → Handlers V W
  subscribe type h m = push_at (event_key type) h m

  pub unsubscribe : SagaEventType → Handlers V W → Handlers V W
  unsubscribe type m = erase (event_key type) m

  pub clear_all : Handlers V W → Handlers V W
  clear_all m = []
