-- ===== src/Saga/Tests/Stock.antt =====
-- A saga that takes an item from a stock and then fails: the item is put back.
use plus_api.Common.{ℕ, ◌+◌, ◌-◌, ◌≡◌, refl, Option, none, some, List, [], ◌∷◌, arith}
use plus_api.Common.Int.{pos}
use plus_api.Common.Result.{ok, err, Error, Async, new_error}
use plus_api.Saga.Types.{Run, SagaStep, SagaConfig, Services}
use plus_api.Saga.Events.Quiet.{IsQuiet}
use plus_api.Saga.Steps.{sort_steps}
use plus_api.Saga.Steps.Recovery.{Assertion, Recovers, last, next, Seen, Seen-IsStable}
use plus_api.Saga.Steps.Plain.{plain, plain_rule}
use plus_api.Saga.Orchestrator.{execute, start_saga}
use plus_api.Saga.Orchestrator.Quiet.{start_saga_quiet}
use plus_api.Saga.Orchestrator.Recovery.{Recovered, execute-Recovers}

abbrev Stock : Type 0
Stock = Run (Unit {0}) ℕ ℕ

abbrev empty : Error
empty = new_error "nothing to charge"

abbrev take : Async Stock ℕ
take r = (ok 1, record { context = r.context; world = r.world + 1 })

abbrev put_back : Option ℕ → Async Stock (Unit {0})
put_back v r = (ok tt, record { context = r.context; world = r.world - 1 })

abbrev charge : Async Stock ℕ
charge r = (err empty, r)

abbrev nothing : Option ℕ → Async Stock (Unit {0})
nothing v r = (ok tt, r)

abbrev stock_steps : List (SagaStep (Unit {0}) ℕ ℕ)
stock_steps =
    plain (λ r. 0) "Take" (pos 1) take put_back
    ∷ plain (λ r. 0) "Charge" (pos 2) charge nothing
    ∷ []

abbrev config : SagaConfig
config = record { saga_id = "s"; name = "Stock"; timeout = some 1000; retry_attempts = none }

abbrev alone : Services (Unit {0}) ℕ ℕ
alone = record { event_publisher = none; state_store = none; now = λ w. (0, w) }

quiet : IsQuiet (λ (w : ℕ). w) alone
quiet = record { now = λ w. refl; publisher = tt }

-- `n` items are taken.
abbrev Taken : ℕ → Assertion Stock
Taken n = Seen (λ w. w) (λ c o. o ≡ n)

chain : Recovers alone config (Taken 1) (Taken 0) (sort_steps stock_steps)
unfolding sort_steps
chain =
    next
      (plain_rule alone config (λ r. 0) "Take" (pos 1) take put_back (Taken 0) (Taken 1)
        (record {
          stable = Seen-IsStable (λ w. w) alone quiet config (λ c o. o ≡ 0);
          settled = Seen-IsStable (λ w. w) alone quiet config (λ c o. o ≡ 1);
          returns = λ r v h done. omega arith;
          throws = λ r e h done. cc;
          in_time = λ r h. omega arith;
          undone = λ r h. omega arith;
        }))
      (next
        (plain_rule alone config (λ r. 0) "Charge" (pos 2) charge nothing (Taken 1) (Taken 1)
          (record {
            stable = Seen-IsStable (λ w. w) alone quiet config (λ c o. o ≡ 1);
            settled = Seen-IsStable (λ w. w) alone quiet config (λ c o. o ≡ 1);
            returns = λ r v h done. h;
            throws = λ r e h done. h;
            in_time = λ r h. omega arith;
            undone = λ r h. h;
          }))
        (last (λ r h. h)))

untouched : Taken 0 (start_saga alone config tt 0).2
untouched = start_saga_quiet (λ w. w) alone quiet tt config tt 0

execute-Recovers_example :
    let (result, w) = execute alone config stock_steps tt 0 in
    Recovered (λ (w : ℕ). w) (Taken 0) (Taken 1) 0 result w
execute-Recovers_example =
    execute-Recovers (λ w. w) alone quiet tt config (Taken 0) (Taken 1) stock_steps tt 0 chain
      untouched
