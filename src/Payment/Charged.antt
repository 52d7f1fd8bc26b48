-- ===== src/Payment/Charged.antt =====
-- A user is charged for a subscription exactly when its saga does not fail.
use plus_api.Common.{
  ℕ, String, ◌≡◌, ◌≢◌, ◌∙◌, ◌⊎◌, refl, ap, inl, inr, false, Option, none, some, List, ◌∷◌, str_eq,
  eq_iff, Bool-cases,
}
use plus_api.Common.Dict.{lookup, insert, lookup-insert}
use plus_api.Common.Result.{Result, ok, err, Error, Async, Result-cases, pure, ◌>>=◌}
use plus_api.Saga.Types.{SagaContext, SagaResult, Services}
use plus_api.Saga.Events.Quiet.{IsQuiet}
use plus_api.Saga.Steps.{sort_steps}
use plus_api.Saga.Steps.Recovery.{StepRule, Recovers, last, next, Seen, Seen-IsStable}
use plus_api.Saga.Steps.Plain.{plain_rule}
use plus_api.Saga.Orchestrator.Quiet.{IsQuietStore, start_saga_quiet}
use plus_api.Saga.Orchestrator.Recovery.{Recovered, execute-Recovers}
use plus_api.Saga.Actions.{when_text, needed, logged, call, data_of, get_result}
use plus_api.Saga.Actions.Keeps.{
  Keeps, Keeps-needed, Keeps-data_of, Keeps-get_result, Yields, Yields-bind, kept_rule,
}
use plus_api.Payment.{
  SubscriptionPaymentData, Payment, Gateway, StepResult, paid, State, payment_config, pay, refund,
  payment_step, payment_steps, pay_subscription,
}
use plus_api.Payment.Ledger.{
  IsLedger, validate_method-Keeps, no_undo-Keeps, subscribe-Keeps, unsubscribe-Keeps, bill-Keeps,
  cancel_bill-Keeps, activate-Keeps, deactivate-Keeps,
}

-- What the step ProcessPayment did to the payments that stand.
abbrev Pays : List String → Result StepResult → List String → Type 0
Pays before (ok v) after = (p : Payment) × (v ≡ paid p.id p) × (p.id ≢ "") × (after ≡ p.id ∷ before)
Pays before (err e) after = after ≡ before

abbrev Ctx : Type 0
Ctx = SagaContext SubscriptionPaymentData StepResult

-- The payments that stand are the given ones.
abbrev Uncharged : List String → Ctx → List String → Type 0
Uncharged before c seen = seen ≡ before

-- One more payment stands, and the context has it as the result of ProcessPayment.
abbrev Charged : List String → Ctx → List String → Type 0
Charged before c seen =
    (p : Payment) × (p.id ≢ "")
    × (lookup "ProcessPayment" c.step_results ≡ some (paid p.id p))
    × (seen ≡ p.id ∷ before)

Charged-insert :
    (before : List String) (name : String)
    → str_eq name "ProcessPayment" ≡ false
    → (c : Ctx) (seen : List String) (v : StepResult) → Charged before c seen
    → Charged before (record c { step_results = insert name v c.step_results }) seen
Charged-insert before name other c seen v (p, named, found, listed) =
    (p, named, lookup-insert name "ProcessPayment" v c.step_results ∙ rw other found, listed)

Pays-ok :
    (before : List String) (v : StepResult) (x : Result StepResult) (after : List String)
    → x ≡ ok v
    → Pays before x after
    → (p : Payment) × (v ≡ paid p.id p) × (p.id ≢ "") × (after ≡ p.id ∷ before)
Pays-ok before v (ok u) after is (p, made, named, added) = (p, cc, named, added)
Pays-ok before v (err e) after is h = cc

Pays-err :
    (before : List String) (e : Error) (x : Result StepResult) (after : List String)
    → x ≡ err e
    → Pays before x after
    → after ≡ before
Pays-err before e (ok u) after is h = cc
Pays-err before e (err f) after is h = h

module _ {W : Type 0} (g : Gateway W) (payments : W → List String)
    (ledger : IsLedger g payments) where
  process_payment-Pays :
      (d : SubscriptionPaymentData) (id : String)
      → Yields payments Pays (
          call {T = SubscriptionPaymentData} {V = StepResult} (g.process_payment d id) >>= λ p.
          pure (paid p.id p))
  unfolding call
  process_payment-Pays d id r = elim (Result-cases (g.process_payment d id r.world).0) [
    | inl (p, is) ↦
        let (named, added) = rw is at (ledger.pays d id r.world) in rw is (p, refl, named, added)
    | inr (x, is) ↦ let same = rw is at (ledger.pays d id r.world) in rw is same
  ]

  pay-Pays : Yields payments Pays (pay g)
  unfolding pay
  pay-Pays =
      Yields-bind payments Pays (get_result _) _ (λ o e. refl) (Keeps-get_result payments _)
        (λ result.
          Yields-bind payments Pays (needed _ _) _ (λ o e. refl) (Keeps-needed payments _ _)
            (λ id.
              Yields-bind payments Pays data_of _ (λ o e. refl) (Keeps-data_of payments)
                (λ d. process_payment-Pays d id)))

  refunded :
      (p : Payment) (before : List String) (r : State W)
      → p.id ≢ ""
      → payments r.world ≡ p.id ∷ before
      → payments (refund g (some (paid p.id p)) r).1.world ≡ before
  unfolding refund when_text logged call
  refunded p before r named listed = elim (Bool-cases (str_eq p.id "")) [
    | inl blank ↦ absurd (named ((eq_iff p.id "").0 blank))
    | inr full ↦ rw full (elim (Result-cases (g.refund_payment p.id r.world).0) [
      | inl (a, is) ↦ rw is (ledger.refunds p.id before r.world listed)
      | inr (x, is) ↦ rw is (ledger.refunds p.id before r.world listed)
    ])
  ]

  module _ (svc : Services SubscriptionPaymentData StepResult W) (quiet : IsQuiet payments svc)
      (uuid : String) (d : SubscriptionPaymentData) (before : List String) where
    pay_rule :
        StepRule svc
          (payment_config uuid d)
          (Seen payments (Uncharged before))
          (payment_step g "ProcessPayment" 3 (pay g) (refund g))
          (Seen payments (Charged before))
    pay_rule = plain_rule svc (payment_config uuid d) _ _ _ (pay g) (refund g) _ _ (record {
      stable = Seen-IsStable payments svc quiet (payment_config uuid d) (Uncharged before);
      settled = Seen-IsStable payments svc quiet (payment_config uuid d) (Charged before);
      returns = λ r v h done.
          let (p, made, named, added) = Pays-ok _ v _ _ done (pay-Pays r) in
          (
            p,
            named,
            lookup-insert "ProcessPayment" "ProcessPayment" v _ ∙ ap some made,
            added ∙ ap (λ l. p.id ∷ l) h,
          );
      throws = λ r e h done. Pays-err _ e _ _ done (pay-Pays r) ∙ h;
      in_time = λ r h. ledger.in_time "ProcessPayment" r.world;
      undone = λ r (p, named, found, listed). rw found (refunded p before r named listed);
    })

    keeping_rule :
        (P : Ctx → List String → Type 0) (name : String) (order : ℕ)
        (body : Async (State W) StepResult) (undo : Option StepResult → Async (State W) (Unit {0}))
        → ((c : Ctx) (seen : List String) (v : StepResult)
            → P c seen
            → P (record c { step_results = insert name v c.step_results }) seen)
        → Keeps payments body
        → ((v : Option StepResult) → Keeps payments (undo v))
        → StepRule svc
            (payment_config uuid d)
            (Seen payments P)
            (payment_step g name order body undo)
            (Seen payments P)
    keeping_rule P name order body undo insensitive kb ku =
        kept_rule payments svc (payment_config uuid d) quiet P _ name _ body undo insensitive
          (λ r. ledger.in_time name r.world) kb ku

    chain :
        Recovers svc
          (payment_config uuid d)
          (Seen payments (Charged before))
          (Seen payments (Uncharged before))
          (sort_steps (payment_steps g))
    unfolding sort_steps payment_steps
    chain =
        next
          (keeping_rule (Uncharged before) _ _ _ _ (λ c seen v h. h)
            (validate_method-Keeps g payments ledger) (no_undo-Keeps g payments ledger))
          (next
            (keeping_rule (Uncharged before) _ _ _ _ (λ c seen v h. h)
              (subscribe-Keeps g payments ledger) (unsubscribe-Keeps g payments ledger))
            (next pay_rule (
              next
                (keeping_rule (Charged before) "GenerateInvoice" _ _ _
                  (Charged-insert before "GenerateInvoice" refl) (bill-Keeps g payments ledger)
                  (cancel_bill-Keeps g payments ledger))
                (next
                  (keeping_rule (Charged before) "ActivateSubscription" _ _ _
                    (Charged-insert before "ActivateSubscription" refl)
                    (activate-Keeps g payments ledger) (deactivate-Keeps g payments ledger))
                  (last (λ r h. h))))))

-- A saga without a failed step has left one more payment; any other has left those before.
abbrev pub ChargedOnce :
    List String → Result (SagaResult SubscriptionPaymentData StepResult) → List String → Type 0
ChargedOnce before (err e) after = after ≡ before
ChargedOnce before (ok result) after =
    ((result.failed_step ≡ none) × ((id : String) × (after ≡ id ∷ before)))
    ⊎ ((result.failed_step ≢ none) × (after ≡ before))

module _ {W : Type 0} (g : Gateway W) (payments : W → List String) where
  charged :
      (before : List String) (w : W)
      (result : Result (SagaResult SubscriptionPaymentData StepResult)) (w' : W)
      → payments w ≡ before
      → Recovered payments
          (Seen payments (Uncharged before))
          (Seen payments (Charged before))
          w
          result
          w'
      → ChargedOnce before result (payments w')
  charged before w (err e) w' is h = h ∙ is
  charged before w (ok result) w' is (inl (whole, (r, (p, named, found, listed), same))) =
      inl (whole, (p.id, same ∙ listed))
  charged before w (ok result) w' is (inr (failed, (r, clean, same))) = inr (failed, same ∙ clean)

  -- Over a gateway that meets `IsLedger`, where refunds succeed and no step is late, with an event publisher, a clock and a state store that leave the
  -- payments alone: a subscription payment whose result names no failed step has left exactly one
  -- more payment standing, and one that names a failed step, or throws, has left those that stood
  -- before, any payment of its own being refunded.
  pub pay_subscription-ChargedOnce :
      IsLedger g payments
      → (svc : Services SubscriptionPaymentData StepResult W) → IsQuiet payments svc
      → IsQuietStore payments svc.state_store
      → (uuid : String) (d : SubscriptionPaymentData) (w : W)
      → let (result, w') = pay_subscription g svc uuid d w in
        ChargedOnce (payments w) result (payments w')
  unfolding pay_subscription
  pay_subscription-ChargedOnce ledger svc quiet store uuid d w = charged (payments w) w _ _ refl (
      execute-Recovers payments svc quiet store (payment_config uuid d)
        (Seen payments (Uncharged (payments w))) (Seen payments (Charged (payments w)))
        (payment_steps g) d w (chain g payments ledger svc quiet uuid d (payments w))
        (start_saga_quiet payments svc quiet store (payment_config uuid d) d w))
