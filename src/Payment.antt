-- ===== src/Payment.antt =====
-- The payment of a subscription as a saga: plugins/payment/src/saga/subscription-payment.saga.ts. Its
-- private helper methods are the record `Gateway`, and `simulated` is what the source puts there until
-- they are integrated with a provider. Log output is left out, and amounts are natural numbers.
pub mod Ledger
pub mod Charged
pub mod Simulated
mod Tests
use Prim.Native.String.{◌++◌ as concat}
use plus_api.Common.{
  ℕ, ◌+◌, String, Bool, true, false, not, ◌||◌, Option, none, some, List, [], ◌∷◌, str_eq,
  if◌then◌else◌,
}
use plus_api.Common.Int.{pos}
use plus_api.Common.Result.{ok, err, Async, pure, throw, new_error, ◌>>=◌, ◌>>◌}
use plus_api.Saga.Types.{Run, SagaStep, SagaConfig, SagaResult, Services}
use plus_api.Saga.Steps.Plain.{plain}
use plus_api.Saga.Orchestrator.{execute}
use plus_api.Saga.Actions.{when_text, needed, logged, call, data_of, get_result}

pub record SubscriptionPaymentData : Type 0 where
  pub user_id : String
  pub plan_id : String
  pub amount : ℕ
  pub currency : String
  pub payment_method_id : String

pub record Subscription : Type 0 where
  pub id : String
  pub user_id : String
  pub plan_id : String
  pub status : String
  pub created_at : ℕ

pub record Payment : Type 0 where
  pub id : String
  pub amount : ℕ
  pub currency : String
  pub status : String
  pub subscription_id : String

pub record Invoice : Type 0 where
  pub id : String
  pub subscription_id : String
  pub payment_id : String
  pub amount : ℕ
  pub currency : String
  pub status : String
  pub created_at : ℕ

-- The helper methods as the steps call them, and how long a step's promise takes; `simulated` has
-- the bodies that the source gives them.
pub record Gateway (W : Type 0) : Type 0 where
  pub validate_payment_method : String → Async W Bool
  pub create_subscription : SubscriptionPaymentData → Async W Subscription
  pub delete_subscription : String → Async W (Unit {0})
  pub process_payment : SubscriptionPaymentData → String → Async W Payment
  pub refund_payment : String → Async W (Unit {0})
  pub generate_invoice : String → String → SubscriptionPaymentData → Async W Invoice
  pub cancel_invoice : String → Async W (Unit {0})
  pub activate_subscription : String → Async W (Unit {0})
  pub deactivate_subscription : String → Async W (Unit {0})
  pub elapsed : String → W → ℕ

-- what the steps return
pub data StepResult : Type 0 where
  validated : String → StepResult
  subscribed : String → Subscription → StepResult
  paid : String → Payment → StepResult
  invoiced : String → Invoice → StepResult
  activated : String → StepResult

-- `result?.subscriptionId`, `result?.paymentId`, `result?.invoiceId`
abbrev pub subscription_id : Option StepResult → Option String
subscription_id (some (subscribed id s)) = some id
subscription_id (some (activated id)) = some id
subscription_id _ = none

abbrev pub payment_id : Option StepResult → Option String
payment_id (some (paid id p)) = some id
payment_id _ = none

abbrev pub invoice_id : Option StepResult → Option String
invoice_id (some (invoiced id i)) = some id
invoice_id _ = none

-- `uuid` is the random part of the saga's id.
abbrev pub payment_config : String → SubscriptionPaymentData → SagaConfig
payment_config uuid d = record {
  saga_id = concat "subscription-payment-" (concat d.user_id (concat "-" uuid));
  name = "SubscriptionPaymentSaga";
  timeout = some 60000;
  retry_attempts = some 0;
}

abbrev pub State : Type 0 → Type 0
State W = Run SubscriptionPaymentData StepResult W

module _ {W : Type 0} (g : Gateway W) where
  unfoldable pub validate_method : Async (State W) StepResult
  validate_method = do
    d ← data_of
    valid ← call (g.validate_payment_method d.payment_method_id)
    if valid
        then pure (validated d.payment_method_id)
        else throw (
            new_error
              (concat "Payment method " (concat d.payment_method_id " is invalid or expired")))

  unfoldable pub no_undo : Option StepResult → Async (State W) (Unit {0})
  no_undo result = pure tt

  unfoldable pub subscribe : Async (State W) StepResult
  subscribe = do d ← data_of; s ← call (g.create_subscription d); pure (subscribed s.id s)

  unfoldable pub unsubscribe : Option StepResult → Async (State W) (Unit {0})
  unsubscribe result =
      when_text (subscription_id result) (λ id. logged (call (g.delete_subscription id)))

  unfoldable pub pay : Async (State W) StepResult
  pay = do
    result ← get_result "CreateSubscription"
    id ← needed (subscription_id result) (new_error "Subscription ID not found from previous step")
    d ← data_of
    p ← call (g.process_payment d id)
    pure (paid p.id p)

  unfoldable pub refund : Option StepResult → Async (State W) (Unit {0})
  refund result = when_text (payment_id result) (λ id. logged (call (g.refund_payment id)))

  unfoldable pub bill : Async (State W) StepResult
  bill = do
    subscription ← get_result "CreateSubscription"
    payment ← get_result "ProcessPayment"
    s ←
        needed (subscription_id subscription)
          (new_error "Required data not found from previous steps")
    p ← needed (payment_id payment) (new_error "Required data not found from previous steps")
    d ← data_of
    i ← call (g.generate_invoice s p d)
    pure (invoiced i.id i)

  unfoldable pub cancel_bill : Option StepResult → Async (State W) (Unit {0})
  cancel_bill result = when_text (invoice_id result) (λ id. logged (call (g.cancel_invoice id)))

  unfoldable pub activate : Async (State W) StepResult
  activate = do
    result ← get_result "CreateSubscription"
    id ← needed (subscription_id result) (new_error "Subscription ID not found from previous step")
    call (g.activate_subscription id)
    pure (activated id)

  unfoldable pub deactivate : Option StepResult → Async (State W) (Unit {0})
  deactivate result =
      when_text (subscription_id result) (λ id. logged (call (g.deactivate_subscription id)))

  abbrev pub payment_step :
      String
      → ℕ
      → Async (State W) StepResult
      → (Option StepResult → Async (State W) (Unit {0}))
      → SagaStep SubscriptionPaymentData StepResult W
  payment_step name order body undo = plain (λ r. g.elapsed name r.world) name (pos order) body undo

  unfoldable pub payment_steps : List (SagaStep SubscriptionPaymentData StepResult W)
  payment_steps =
      payment_step "ValidatePaymentMethod" 1 validate_method no_undo
      ∷ payment_step "CreateSubscription" 2 subscribe unsubscribe
      ∷ payment_step "ProcessPayment" 3 pay refund
      ∷ payment_step "GenerateInvoice" 4 bill cancel_bill
      ∷ payment_step "ActivateSubscription" 5 activate deactivate
      ∷ []

  unfoldable pub pay_subscription :
      Services SubscriptionPaymentData StepResult W
      → String
      → SubscriptionPaymentData
      → Async W (SagaResult SubscriptionPaymentData StepResult)
  pay_subscription svc uuid d = execute svc (payment_config uuid d) payment_steps d

-- The simulated helpers run over the time, `SIMULATE_PAYMENT_FAILURES` and `Math.random() > 0.1`.
pub record Simulation : Type 0 where
  pub time : ℕ
  pub simulate_failures : Bool
  pub lucky : Bool

-- `setTimeout(…, ms)`
abbrev pub wait : ℕ → Simulation → Simulation
wait ms w = record { time = w.time + ms; simulate_failures = w.simulate_failures; lucky = w.lucky }

-- resolves after 100 milliseconds
abbrev pub resolve : Async Simulation (Unit {0})
resolve w = (ok tt, wait 100 w)

-- `decimal` is how a template shows a number.
unfoldable pub simulated : (ℕ → String) → Gateway Simulation
simulated decimal = record {
  validate_payment_method = λ id w. (ok true, wait 100 w);
  create_subscription = λ d w.
      let w' = wait 100 w in
      (
        ok (record {
          id = concat "sub_" (decimal w'.time);
          user_id = d.user_id;
          plan_id = d.plan_id;
          status = "pending";
          created_at = w'.time;
        }),
        w',
      );
  delete_subscription = λ id. resolve;
  process_payment = λ d id w.
      let w' = wait 200 w in
      (
        if not w.simulate_failures || w.lucky
            then ok (record {
              id = concat "pay_" (decimal w'.time);
              amount = d.amount;
              currency = d.currency;
              status = "succeeded";
              subscription_id = id;
            })
            else err (new_error "Payment processing failed"),
        w',
      );
  refund_payment = λ id. resolve;
  generate_invoice = λ s p d w.
      let w' = wait 100 w in
      (
        ok (record {
          id = concat "inv_" (decimal w'.time);
          subscription_id = s;
          payment_id = p;
          amount = d.amount;
          currency = d.currency;
          status = "paid";
          created_at = w'.time;
        }),
        w',
      );
  cancel_invoice = λ id. resolve;
  activate_subscription = λ id. resolve;
  deactivate_subscription = λ id. resolve;
  elapsed = λ name w. if str_eq name "ProcessPayment" then 200 else 100;
}
