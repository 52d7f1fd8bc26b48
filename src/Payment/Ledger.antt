-- ===== src/Payment/Ledger.antt =====
-- The parts of the payment saga that enter no payment and remove none.
use plus_api.Common.{◌≤◌, String, ◌≡◌, ◌≢◌, true, false, Option, List, ◌∷◌}
use plus_api.Common.Result.{Result, ok, err}
use plus_api.Saga.Actions.{needed, call, data_of, get_result}
use plus_api.Saga.Actions.Keeps.{
  Keeps, Keeps-pure, Keeps-throw, Keeps-call, Keeps-needed, Keeps-data_of, Keeps-get_result,
  Keeps-when_text, Keeps-bind, Keeps-logged,
}
use plus_api.Payment.{
  SubscriptionPaymentData, Payment, Gateway, StepResult, validate_method, no_undo, subscribe,
  unsubscribe, bill, cancel_bill, activate, deactivate,
}

module _ {W : Type 0} (g : Gateway W) (payments : W → List String) where
  -- A payment that succeeds has an id and is entered; one that throws is not.
  abbrev pub Enters : List String → Result Payment → List String → Type 0
  Enters before (ok p) after = (p.id ≢ "") × (after ≡ p.id ∷ before)
  Enters before (err e) after = after ≡ before

  -- What a gateway is asked of the payments that stand: only `process_payment` enters one,
  -- `refund_payment` of the last one removes it, and no step takes more than a minute. The
  -- helper methods in the source meet it, see Payment.Simulated.
  pub record IsLedger : Type 0 where
    pub validates : (id : String) (w : W) → payments (g.validate_payment_method id w).1 ≡ payments w
    pub creates :
        (d : SubscriptionPaymentData) (w : W) → payments (g.create_subscription d w).1 ≡ payments w
    pub deletes : (id : String) (w : W) → payments (g.delete_subscription id w).1 ≡ payments w
    pub pays :
        (d : SubscriptionPaymentData) (id : String) (w : W)
        → Enters (payments w) (g.process_payment d id w).0 (payments (g.process_payment d id w).1)
    pub refunds :
        (id : String) (rest : List String) (w : W)
        → payments w ≡ id ∷ rest
        → payments (g.refund_payment id w).1 ≡ rest
    pub bills :
        (s p : String) (d : SubscriptionPaymentData) (w : W)
        → payments (g.generate_invoice s p d w).1 ≡ payments w
    pub cancels : (id : String) (w : W) → payments (g.cancel_invoice id w).1 ≡ payments w
    pub activates : (id : String) (w : W) → payments (g.activate_subscription id w).1 ≡ payments w
    pub deactivates :
        (id : String) (w : W) → payments (g.deactivate_subscription id w).1 ≡ payments w
    pub in_time : (name : String) (w : W) → g.elapsed name w ≤ 60000

  module _ (ledger : IsLedger) where
    pub validate_method-Keeps : Keeps payments (validate_method g)
    unfolding validate_method
    validate_method-Keeps = Keeps-bind payments data_of _ (Keeps-data_of payments) (λ d.
        Keeps-bind payments (call _) _ (Keeps-call payments _ (ledger.validates _))
          (elim [ true ↦ Keeps-pure payments _ | false ↦ Keeps-throw payments _ ]))

    pub no_undo-Keeps : (v : Option StepResult) → Keeps payments (no_undo g v)
    unfolding no_undo
    no_undo-Keeps v = Keeps-pure payments tt

    pub subscribe-Keeps : Keeps payments (subscribe g)
    unfolding subscribe
    subscribe-Keeps = Keeps-bind payments data_of _ (Keeps-data_of payments) (λ d.
        Keeps-bind payments (call _) _ (Keeps-call payments _ (ledger.creates d))
          (λ s. Keeps-pure payments _))

    pub unsubscribe-Keeps : (v : Option StepResult) → Keeps payments (unsubscribe g v)
    unfolding unsubscribe
    unsubscribe-Keeps v =
        Keeps-when_text payments _ _
          (λ id. Keeps-logged payments _ (Keeps-call payments _ (ledger.deletes id)))

    pub bill-Keeps : Keeps payments (bill g)
    unfolding bill
    bill-Keeps = Keeps-bind payments (get_result _) _ (Keeps-get_result payments _) (λ s.
        Keeps-bind payments (get_result _) _ (Keeps-get_result payments _) (λ p.
          Keeps-bind payments (needed _ _) _ (Keeps-needed payments _ _) (λ sid.
            Keeps-bind payments (needed _ _) _ (Keeps-needed payments _ _) (λ pid.
              Keeps-bind payments data_of _ (Keeps-data_of payments) (λ d.
                Keeps-bind payments (call _) _ (Keeps-call payments _ (ledger.bills sid pid d))
                  (λ i. Keeps-pure payments _))))))

    pub cancel_bill-Keeps : (v : Option StepResult) → Keeps payments (cancel_bill g v)
    unfolding cancel_bill
    cancel_bill-Keeps v =
        Keeps-when_text payments _ _
          (λ id. Keeps-logged payments _ (Keeps-call payments _ (ledger.cancels id)))

    pub activate-Keeps : Keeps payments (activate g)
    unfolding activate
    activate-Keeps = Keeps-bind payments (get_result _) _ (Keeps-get_result payments _) (λ s.
        Keeps-bind payments (needed _ _) _ (Keeps-needed payments _ _) (λ id.
          Keeps-bind payments (call _) _ (Keeps-call payments _ (ledger.activates id))
            (λ i. Keeps-pure payments _)))

    pub deactivate-Keeps : (v : Option StepResult) → Keeps payments (deactivate g v)
    unfolding deactivate
    deactivate-Keeps v =
        Keeps-when_text payments _ _
          (λ id. Keeps-logged payments _ (Keeps-call payments _ (ledger.deactivates id)))
