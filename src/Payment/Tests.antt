-- ===== src/Payment/Tests.antt =====
-- Payments whose ledger is the list of the payments that stand, and the simulated gateway.
use plus_api.Common.{String, ◌≡◌, refl, none, List, [], ◌∷◌, true, false, eq_iff, arith}
use mathlib.Core.Bool.{false≢true}
use plus_api.Common.Result.{ok, err, new_error}
use plus_api.Saga.Types.{Services}
use plus_api.Saga.Events.{publish_event}
use plus_api.Saga.Steps.{sort_steps, run_loop}
use plus_api.Saga.Orchestrator.{execute}
use plus_api.Saga.Actions.{data_of, call, get_result, needed, when_text, logged}
use plus_api.Payment.{
  SubscriptionPaymentData, Gateway, StepResult, Simulation, simulated, pay_subscription,
  payment_steps, validate_method, subscribe, pay, bill, no_undo, unsubscribe, refund,
}
use plus_api.Payment.Ledger.{IsLedger}

abbrev remove_last : List String → List String
remove_last [] = []
remove_last (id ∷ rest) = rest

-- Every payment succeeds, and no invoice can be made.
abbrev gateway : Gateway (List String)
gateway = record {
  validate_payment_method = λ id w. (ok true, w);
  create_subscription = λ d w. (
    ok (record {
      id = "s1";
      user_id = d.user_id;
      plan_id = d.plan_id;
      status = "pending";
      created_at = 0;
    }),
    w,
  );
  delete_subscription = λ id w. (ok tt, w);
  process_payment = λ d id w. (
    ok (record {
      id = "p1";
      amount = d.amount;
      currency = d.currency;
      status = "succeeded";
      subscription_id = id;
    }),
    "p1" ∷ w,
  );
  refund_payment = λ id w. (ok tt, remove_last w);
  generate_invoice = λ s p d w. (err (new_error "no invoices"), w);
  cancel_invoice = λ id w. (ok tt, w);
  activate_subscription = λ id w. (ok tt, w);
  deactivate_subscription = λ id w. (ok tt, w);
  elapsed = λ name w. 100;
}

abbrev services : {W : Type 0} → Services SubscriptionPaymentData StepResult W
services = record { event_publisher = none; state_store = none; now = λ w. (0, w) }

abbrev monthly : SubscriptionPaymentData
monthly = record {
  user_id = "u1";
  plan_id = "basic";
  amount = 10;
  currency = "USD";
  payment_method_id = "card";
}

refunds :
    (id : String) (rest : List String) (w : List String)
    → w ≡ id ∷ rest
    → (gateway.refund_payment id w).1 ≡ rest
refunds id rest w listed = rw listed refl

ledger : IsLedger gateway (λ w. w)
ledger = record {
  validates = λ id w. refl;
  creates = λ d w. refl;
  deletes = λ id w. refl;
  pays = λ d id w. ((λ blank. false≢true ((eq_iff "p1" "").1 blank)), refl);
  refunds = refunds;
  bills = λ s p d w. refl;
  cancels = λ id w. refl;
  activates = λ id w. refl;
  deactivates = λ id w. refl;
  in_time = λ name w. omega arith;
}

-- The invoice fails, so the payment is refunded.
refunded : (pay_subscription gateway services "x" monthly ("p0" ∷ [])).1 ≡ "p0" ∷ []
unfolding pay_subscription execute run_loop sort_steps publish_event payment_steps validate_method
    data_of call subscribe pay get_result needed bill no_undo unsubscribe when_text refund logged
refunded = refl

-- A payment over the helper methods in the source, after one that stood before.
abbrev fair : Simulation
fair = record { time = 0; simulate_failures = false; lucky = false }

-- With a simulated failure the saga ends half a second after its start, and a tenth later.
abbrev unlucky : Simulation
unlucky = record { time = 0; simulate_failures = true; lucky = false }

failed_in_time : (pay_subscription (simulated (λ n. "1")) services "x" monthly unlucky).1.time ≡ 500
unfolding pay_subscription execute run_loop sort_steps publish_event simulated payment_steps
    validate_method data_of call subscribe pay get_result needed no_undo unsubscribe when_text
    logged
failed_in_time = refl
