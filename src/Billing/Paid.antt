-- ===== src/Billing/Paid.antt =====
-- When processPayment marks an invoice as paid.
use plus_api.Common.{
  ℕ, ◌≡◌, refl, ◌∙◌, String, Bool, true, false, Bool-cases, Option-cases, Option, none, some, ◌⊎◌,
  inl, inr,
}
use plus_api.Common.Text.{is_truthy}
use plus_api.Common.Result.{Error, Async, Result, ok, err, ◌>>=◌, Result-cases}
use plus_api.Billing.Types.{
  CreatePaymentIntentDto, Invoice, InvoiceData, InvoiceStatus, NewTransaction, Numbers,
  PaymentIntent, PaymentIntentStatus, PaymentResult, Provider, ShopClient, Transaction,
  TransactionData,
}
use plus_api.Billing.Rows.{with_invoice}
use plus_api.Billing.Providers.{Factory, get_provider}
use plus_api.Billing.{
  paid_at, succeeded_at, ProcessPaymentDto, name_of, is_paid, is_success, process_payment,
  mark_invoice_paid, pay, go_on, judge_confirmation, start_payment, record_payment,
}

-- whether a payment has been confirmed as succeeded
abbrev pub success_of : Option PaymentIntentStatus → Bool
success_of none = false
success_of (some status) = is_success status

abbrev pub has_paid : Result PaymentResult → Bool
has_paid (ok result) = success_of result.status
has_paid (err e) = false

abbrev pub paid_on : {D : Type 0} → Invoice D → ℕ → Invoice D
paid_on invoice date = record invoice { status = InvoiceStatus.paid; paid_date = some date }

module _ {N D W : Type 0} (num : Numbers N D) (client : ShopClient N D W) (factory : Factory N W)
    (dto : ProcessPaymentDto) where
  abbrev chosen : Result (Provider N W)
  chosen = get_provider client.to_upper_case factory (some (name_of dto.provider))

  -- `row` is the row of the invoice: only an update of it writes it, and a `$transaction` that
  -- throws has no effect.
  pub record HoldsInvoice (row : W → Option (Invoice D)) : Type 0 where
    pub finds : (w : W) → client.find_invoice dto.invoice_id w ≡ (ok (row w), w)
    pub records : (t : NewTransaction D) (w : W) → row (client.create_transaction t w).1 ≡ row w
    pub intents :
        (p : Provider N W) (d : CreatePaymentIntentDto N) (w : W)
        → chosen ≡ ok p
        → row (p.create_payment_intent d w).1 ≡ row w
    pub confirms :
        (p : Provider N W) (id : String) (w : W)
        → chosen ≡ ok p
        → row (p.confirm_payment id w).1 ≡ row w
    pub pays :
        (d : InvoiceData) (id : String) (d' : TransactionData) (i : Invoice D) (w : W)
        → row w ≡ some i
        → let (r, w') = client.update_both i.id d id d' w in
          ((r ≡ ok tt) × (row w' ≡ some (with_invoice d i)))
          ⊎ ((row w' ≡ row w) × ((e : Error) × (r ≡ err e)))

  module _ (row : W → Option (Invoice D)) (held : HoldsInvoice row) where
    -- What has become of the invoice that was there.
    abbrev pub Settles : Option (Invoice D) → Result PaymentResult × W → Type 0
    Settles before out =
        ((has_paid out.0 ≡ false) × (row out.1 ≡ before))
        ⊎ ((has_paid out.0 ≡ true)
            × ((i : Invoice D) × (t : ℕ) × (before ≡ some i)
                × (is_paid i.status ≡ false)
                × (row out.1 ≡ some (paid_on i t))))

    bind-Settles :
        {A : Type 0} (m : Async W A) (f : A → Async W PaymentResult) (w : W)
        (before : Option (Invoice D))
        → row (m w).1 ≡ before
        → ((a : A) → (m w).0 ≡ ok a → Settles before (f a (m w).1))
        → Settles before ((m >>= f) w)
    bind-Settles m f w before same h = elim (Result-cases (m w).0) [
      | inl (a, is) ↦ rw is (h a is)
      | inr (e, is) ↦ rw is (inl (refl, same))
    ]

    judge_confirmation-Settles :
        (i : Invoice D) (id : String) (status : PaymentIntentStatus) (w : W)
        → row w ≡ some i
        → is_paid i.status ≡ false
        → Settles (some i) (judge_confirmation num client i.id id status w)
    unfolding mark_invoice_paid
    judge_confirmation-Settles i id status w there open_still =
        elim (Bool-cases (is_success status)) [
          | inr fails ↦ rw fails (inl (fails, there))
          | inl holds ↦
              elim (held.pays (paid_at (client.now w)) id (succeeded_at (client.now w)) i w there) [
                | inl (done, written) ↦
                    rw (holds, done) (inr (holds, (i, client.now w, refl, open_still, written)))
                | inr (same, (e, failed)) ↦ rw (holds, failed) (inl (refl, same ∙ there))
              ]
        ]

    go_on-Settles :
        (i : Invoice D) (p : Provider N W) (intent : PaymentIntent) (transaction : Transaction D)
        (w : W)
        → chosen ≡ ok p
        → row w ≡ some i
        → is_paid i.status ≡ false
        → Settles (some i) (go_on num client i.id p intent transaction w)
    go_on-Settles i p intent transaction w is there open_still =
        elim (Bool-cases (is_truthy intent.redirect_url)) [
          | inl holds ↦ rw holds (inl (refl, there))
          | inr fails ↦ elim (Bool-cases (is_truthy intent.qr_code)) [
            | inl holds ↦ rw (fails, holds) (inl (refl, there))
            | inr fails' ↦ elim (Bool-cases (is_truthy intent.client_secret)) [
              | inl holds ↦ rw (fails, fails', holds) (inl (refl, there))
              | inr fails'' ↦
                  rw (fails, fails', fails'')
                    (let kept = held.confirms p intent.provider_id w is ∙ there in
                      bind-Settles (p.confirm_payment intent.provider_id)
                        (judge_confirmation num client i.id transaction.id) w (some i) kept
                        (λ status done.
                          judge_confirmation-Settles i transaction.id status
                            (p.confirm_payment intent.provider_id w).1 kept open_still))
            ]
          ]
        ]

    pay-Settles :
        (i : Invoice D) (p : Provider N W) (w : W)
        → chosen ≡ ok p
        → row w ≡ some i
        → is_paid i.status ≡ false
        → Settles (some i) (pay num client dto i p w)
    pay-Settles i p w is there open_still =
        let kept = held.intents p _ w is ∙ there in
        bind-Settles (start_payment num client dto i p) _ w (some i) kept (λ intent done.
          let w1 = (start_payment num client dto i p w).1 in
          let kept' = held.records _ w1 ∙ kept in
          bind-Settles (record_payment num client dto i intent)
            (λ t. go_on num client i.id p intent t) w1 (some i) kept'
            (λ t done'.
              go_on-Settles i p intent t (record_payment num client dto i intent w1).1 is kept'
                open_still))

    -- A payment leaves its invoice as it was and reports no success, or it reports that the provider
    -- has confirmed success, the invoice was there and not paid, and it is paid now. It does one or the
    -- other also where it throws at any point.
    pub process_payment-Settles :
        (w : W) → Settles (row w) (process_payment num client factory dto w)
    unfolding process_payment
    process_payment-Settles w = rw (held.finds w) (elim (Option-cases (row w)) [
      | inl none_there ↦ rw none_there (inl (refl, none_there))
      | inr (i, there) ↦ rw there (elim (Bool-cases (is_paid i.status)) [
        | inl paid_already ↦ rw paid_already (inl (refl, there))
        | inr open_still ↦ rw open_still (elim (Result-cases chosen) [
          | inl (p, is) ↦ rw is (pay-Settles i p w is there open_still)
          | inr (e, is) ↦ rw is (inl (refl, there))
        ])
      ])
    ])
