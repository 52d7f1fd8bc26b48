-- ===== src/Saga/Memory/Tests.antt =====
-- A saga of one step over the in-memory store, in a world that is a clock.
use plus_api.Common.{ℕ, ◌+◌, ◌≡◌, refl, none, some, [], ◌∷◌, ltb, if◌then◌else◌}
use plus_api.Common.Int.{pos}
use plus_api.Common.Result.{ok, err, new_error}
use plus_api.Saga.Types.{SagaStep, SagaConfig, SagaResult, Services}
use plus_api.Saga.StateStore.{ttl_ms}
use plus_api.Saga.Orchestrator.{execute, get_status}
use plus_api.Saga.Orchestrator.Outcome.{status_after}
use plus_api.Saga.Memory.{Memory, memory_store}
use plus_api.Saga.Memory.Status.{get_status-execute}

abbrev World : Type 0
World = Memory (Unit {0}) ℕ ℕ

-- each look at the clock takes a millisecond
abbrev svc : Services (Unit {0}) ℕ World
svc = record {
  event_publisher = none;
  state_store = some (memory_store (λ n. n));
  now = λ m. (m.outside, record m { outside = m.outside + 1 });
}

abbrev charge : SagaStep (Unit {0}) ℕ World
charge = record {
  name = "Charge";
  order = pos 1;
  execute = λ r. (record { outcome = err (new_error "card declined"); settles_after = 5 }, r);
  compensate = λ v r. (ok tt, r);
  on_step_complete = none;
  on_step_failed = none;
}

abbrev config : SagaConfig
config = record { saga_id = "s1"; name = "Booking"; timeout = none; retry_attempts = none }

abbrev start : World
start = record { states = []; outside = 1000 }

get_status-execute_example :
    (result : SagaResult (Unit {0}) ℕ) × (m' : World) × (execute svc config (charge ∷ []) tt start
      ≡ (ok result, m'))
    × ((later : ℕ)
        → (get_status svc "s1" (record m' { outside = later })).0
          ≡ ok (if ltb (m'.outside + ttl_ms) later then none else some result.status))
    × (result.status ≡ status_after result.failed_step)
get_status-execute_example = get_status-execute svc (λ n. n) config (charge ∷ []) tt start refl
