-- ===== src/Saga/Tests.antt =====
-- Sagas of two steps whose world is the list of calls, run and used to apply the theorems.
mod Stock
use mathlib.Core.List.{Perm}
use plus_api.Common.{ℕ, String, ◌≡◌, ◌↔◌, refl, none, some, List, [], ◌∷◌, ◌++◌, arith}
use plus_api.Common.Int.{ℤ, pos}
use plus_api.Common.Result.{Result, ok, err, Error, new_error}
use plus_api.Saga.Types.{
  SagaStatus, Run, SagaStep, SagaConfig, SagaResult, SagaState, StateStore, Services,
}
use plus_api.Saga.Events.{publish_event}
use plus_api.Saga.Steps.{execute_step, sort_steps, run_loop}
use plus_api.Saga.Steps.Trace.{Call, executed, compensated}
use plus_api.Saga.Steps.Order.{IsSorted, of_order, sort_steps_sorts}
use plus_api.Saga.Orchestrator.{execute}
use plus_api.Saga.Orchestrator.Calls.{HasCalled, execute_calls}
use plus_api.Saga.Orchestrator.Outcome.{
  status_after, execute_returns, execute-update_error, execute_throws,
}

abbrev Calls : Type 0
Calls = List Call

-- A step that notes its calls; its promise settles after 5 ms.
abbrev spy : String → ℤ → Result ℕ → SagaStep (Unit {0}) ℕ Calls
spy name order outcome = record {
  name = name;
  order = order;
  execute = λ r. (
    record { outcome = outcome; settles_after = 5 },
    record { context = r.context; world = r.world ++ executed name ∷ [] },
  );
  compensate =
      λ v r. (ok tt, record { context = r.context; world = r.world ++ compensated name ∷ [] });
  on_step_complete = none;
  on_step_failed = none;
}

abbrev declined : Error
declined = new_error "card declined"

abbrev reserve : SagaStep (Unit {0}) ℕ Calls
reserve = spy "Reserve" (pos 1) (ok 7)

abbrev charge : SagaStep (Unit {0}) ℕ Calls
charge = spy "Charge" (pos 2) (err declined)

-- The steps are given in the wrong order.
abbrev booking : List (SagaStep (Unit {0}) ℕ Calls)
booking = charge ∷ reserve ∷ []

abbrev config : SagaConfig
config = record { saga_id = "s1"; name = "Booking"; timeout = none; retry_attempts = none }

abbrev alone : Services (Unit {0}) ℕ Calls
alone = record { event_publisher = none; state_store = none; now = λ w. (0, w) }

-- A store that saves by `saved` and updates by `updated`.
abbrev with_store : Result (Unit {0}) → Result (Unit {0}) → Services (Unit {0}) ℕ Calls
with_store saved updated = record {
  event_publisher = none;
  state_store = some (record {
    save = λ id state w. (saved, w);
    update = λ id state w. (updated, w);
    get = λ id w. (ok none, w);
  });
  now = λ w. (0, w);
}

abbrev outcome : Services (Unit {0}) ℕ Calls → Result (SagaResult (Unit {0}) ℕ) × Calls
outcome svc = execute svc config booking tt []

booking_calls :
    (outcome alone).1 ≡ executed "Reserve" ∷ executed "Charge" ∷ compensated "Reserve" ∷ []
unfolding execute run_loop sort_steps publish_event
booking_calls = refl

execute_calls_example :
    HasCalled (λ (w : Calls). w) (sort_steps booking) [] (outcome alone).0 (outcome alone).1
execute_calls_example =
    execute_calls (λ w. w) alone (record { now = λ w. refl; publisher = tt }) tt config booking tt
      []
      (
        record { executes = λ r. refl; compensates = λ v r. refl; completes = tt; fails = tt },
        (
          record { executes = λ r. refl; compensates = λ v r. refl; completes = tt; fails = tt },
          tt,
        ),
      )

sort_steps_sorts_example :
    Perm (sort_steps booking) booking
    × IsSorted (sort_steps booking)
    × ((o : ℤ) → of_order o (sort_steps booking) ≡ of_order o booking)
sort_steps_sorts_example = sort_steps_sorts booking

execute_returns_example :
    (result : SagaResult (Unit {0}) ℕ) × ((outcome alone).0 ≡ ok result)
    × (result.status ≡ status_after result.failed_step)
    × ((result.failed_step ≡ none) ↔ (result.error ≡ none))
execute_returns_example = execute_returns alone config booking tt [] tt

abbrev refused : Error
refused = new_error "store is down"

execute-update_error_example :
    (result : SagaResult (Unit {0}) ℕ) × ((outcome (with_store (ok tt) (err refused))).0
      ≡ ok result)
    × (result.status ≡ SagaStatus.failed)
    × (result.error ≡ some refused)
execute-update_error_example =
    execute-update_error (with_store (ok tt) (err refused))
      (record {
        save = λ id state w. (ok tt, w);
        update = λ id state w. (err refused, w);
        get = λ id w. (ok none, w);
      })
      refused config booking tt [] refl (λ id state w. refl) (λ id state w. refl)

unsaved : (outcome (with_store (err refused) (ok tt))).0 ≡ err refused
unfolding execute run_loop sort_steps publish_event
unsaved = refl
