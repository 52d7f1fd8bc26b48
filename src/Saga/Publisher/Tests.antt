-- ===== src/Saga/Publisher/Tests.antt =====
-- A publisher with three handlers, of which one throws.
use plus_api.Common.{String, ◌≡◌, none, List, [], ◌∷◌, ◌++◌}
use plus_api.Common.Result.{ok, err, new_error}
use plus_api.Saga.Types.{SagaEvent, SagaEventType}
use plus_api.Saga.Publisher.{Handler, promised, threw}
use plus_api.Saga.Publisher.Flat.{
  Command, subscribed, unsubscribed, cleared, published, run, run_flat, run-run_flat,
}

abbrev Notes : Type 0
Notes = List String

-- a handler that notes its name, and whose promise is rejected
abbrev note : String → Handler (Unit {0}) Notes
note name event w = (promised (err (new_error name)), w ++ name ∷ [])

abbrev thrower : Handler (Unit {0}) Notes
thrower event w = (threw (new_error "no promise"), w)

abbrev event_of : SagaEventType → SagaEvent (Unit {0})
event_of type = record {
  saga_id = "saga-1";
  event_type = type;
  timestamp = 0;
  step_name = none;
  status = none;
  content = none;
  error = none;
}

abbrev commands : List (Command (Unit {0}) Notes)
commands =
    subscribed SagaEventType.saga_started (note "audit")
    ∷ subscribed SagaEventType.step_failed (note "alert")
    ∷ subscribed SagaEventType.saga_started (note "mail")
    ∷ published (event_of SagaEventType.saga_started)
    ∷ subscribed SagaEventType.step_failed thrower
    ∷ published (event_of SagaEventType.step_failed)
    ∷ unsubscribed SagaEventType.saga_started
    ∷ published (event_of SagaEventType.saga_started)
    ∷ cleared
    ∷ []

run-run_flat_example : run commands [] [] ≡ (
  ok tt ∷ ok tt ∷ ok tt ∷ ok tt ∷ ok tt ∷ err (new_error "no promise") ∷ ok tt ∷ ok tt ∷ ok tt ∷ [],
  "audit" ∷ "mail" ∷ "alert" ∷ [],
)
unfolding run_flat
run-run_flat_example = run-run_flat commands []
