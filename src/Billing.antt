-- ===== src/Billing.antt =====
-- The payment of invoices: processPayment and markInvoicePaid of
-- plugins/payment/src/billing/billing.service.ts over the database and the
-- registry of providers. Log output is left out.
pub mod Types
pub mod Providers
pub mod Invoices
pub mod Rows
pub mod Paid
pub mod Overdue
use Prim.Native.String.{◌++◌ as concat}
use plus_api.Common.{
  ℕ, ◌+◌, ◌*◌, String, Bool, true, false, Option, none, some, List, [], ◌∷◌, map, str_eq,
  if◌then◌else◌,
}
use plus_api.Common.Text.{is_truthy, or_text}
use plus_api.Common.Lists.{length, keep}
use plus_api.Common.Result.{Async, Result, pure, throw, new_error, ◌>>=◌, ◌>>◌}
use plus_api.Billing.Types.{
  CreateInvoiceDto, Invoice, InvoiceData, InvoiceStatus, LineItem, LineItemDto, NewInvoice, Numbers,
  PaymentIntent, PaymentIntentStatus, PaymentProvider, PaymentResult, PaymentResultType, Provider,
  ShopClient, Subscription, Transaction, TransactionData, TransactionStatus, TransactionType,
}
use plus_api.Billing.Providers.{Factory, get_provider}

-- `ProcessPaymentDto`
pub record ProcessPaymentDto : Type 0 where
  pub invoice_id : String
  pub payment_method_id : String
  pub provider : PaymentProvider

-- the values of the enum
unfoldable pub name_of : PaymentProvider → String
name_of PaymentProvider.stripe = "STRIPE"
name_of PaymentProvider.paypal = "PAYPAL"
name_of PaymentProvider.square = "SQUARE"
name_of PaymentProvider.braintree = "BRAINTREE"
name_of PaymentProvider.razorpay = "RAZORPAY"
name_of PaymentProvider.payu = "PAYU"
name_of PaymentProvider.momo = "MOMO"
name_of PaymentProvider.zalo_pay = "ZALO_PAY"
name_of PaymentProvider.vietqr = "VIETQR"
name_of PaymentProvider.sepay = "SEPAY"

abbrev pub is_paid : InvoiceStatus → Bool
is_paid InvoiceStatus.paid = true
is_paid other = false

-- `confirmation.status === 'succeeded'`
abbrev pub is_success : PaymentIntentStatus → Bool
is_success PaymentIntentStatus.succeeded = true
is_success other = false

-- what `getProvider` gives or throws, in an async method
abbrev pub settled {ℓ} : {W A : Type ℓ} → Result A → Async W A
settled r w = (r, w)

-- the `data` of the two updates
abbrev pub paid_at : ℕ → InvoiceData
paid_at now = record {
  status = InvoiceStatus.paid;
  paid_date = some now;
  dunning_increment = none;
  last_dunning_at = none;
}

abbrev pub succeeded_at : ℕ → TransactionData
succeeded_at now = record {
  type = none;
  status = some TransactionStatus.succeeded;
  processed_at = some now;
}

module _ {N D W : Type 0} (num : Numbers N D) (client : ShopClient N D W) where
  abbrev generate_transaction_reference : W → String
  generate_transaction_reference w =
      client.to_upper_case (concat "TXN-" (concat (client.timestamp w) (client.random 4 w)))

  unfoldable pub mark_invoice_paid : String → String → Async W (Unit {0})
  mark_invoice_paid invoice_id transaction_id w =
      client.update_both invoice_id (paid_at (client.now w)) transaction_id
        (succeeded_at (client.now w)) w

  -- `if (!invoice)`, and then the test of its status
  abbrev payable : String → Option (Invoice D) → Async W (Invoice D)
  payable id none = throw (new_error (concat "Invoice " (concat id " not found")))
  payable id (some invoice) =
      if is_paid invoice.status then throw (new_error "Invoice is already paid") else pure invoice

  abbrev pub start_payment : ProcessPaymentDto → Invoice D → Provider N W → Async W PaymentIntent
  start_payment dto invoice provider = provider.create_payment_intent (record {
    amount = num.to_number invoice.total;
    currency = invoice.currency;
    payment_method_id = some dto.payment_method_id;
    description = concat "Payment for " invoice.invoice_number;
    metadata = ("invoiceId", invoice.id) ∷ ("invoiceNumber", invoice.invoice_number) ∷ [];
  })

  abbrev pub record_payment :
      ProcessPaymentDto → Invoice D → PaymentIntent → Async W (Transaction D)
  record_payment dto invoice intent w =
      client.create_transaction
        (record {
          reference = generate_transaction_reference w;
          user_id = invoice.user_id;
          invoice_id = invoice.id;
          payment_method_id = dto.payment_method_id;
          type = TransactionType.payment;
          status = TransactionStatus.processing;
          amount = invoice.total;
          fee_amount = num.decimal num.zero;
          net_amount = invoice.total;
          currency = invoice.currency;
          provider = dto.provider;
          provider_id = intent.provider_id;
          description = concat "Payment for " invoice.invoice_number;
        })
        w

  abbrev completed_with : String → PaymentIntentStatus → PaymentResult
  completed_with transaction_id status = record {
    type = PaymentResultType.completed;
    redirect_url = none;
    client_secret = none;
    qr_code = none;
    transaction_id = transaction_id;
    status = some status;
  }

  -- the confirmation's status, and the result
  abbrev pub judge_confirmation : String → String → PaymentIntentStatus → Async W PaymentResult
  judge_confirmation invoice_id transaction_id status =
      if is_success status
      then mark_invoice_paid invoice_id transaction_id
        >> pure (completed_with transaction_id status)
      else pure (completed_with transaction_id status)

  abbrev confirm : String → Provider N W → PaymentIntent → String → Async W PaymentResult
  confirm invoice_id provider intent transaction_id =
      provider.confirm_payment intent.provider_id >>= judge_confirmation invoice_id transaction_id

  abbrev started : PaymentResultType → PaymentIntent → String → PaymentResult
  started PaymentResultType.redirect intent id = record {
    type = PaymentResultType.redirect;
    redirect_url = intent.redirect_url;
    client_secret = none;
    qr_code = none;
    transaction_id = id;
    status = none;
  }
  started PaymentResultType.qr intent id = record {
    type = PaymentResultType.qr;
    redirect_url = none;
    client_secret = none;
    qr_code = intent.qr_code;
    transaction_id = id;
    status = none;
  }
  started other intent id = record {
    type = PaymentResultType.client_secret;
    redirect_url = none;
    client_secret = intent.client_secret;
    qr_code = none;
    transaction_id = id;
    status = none;
  }

  -- after the transaction is recorded
  abbrev pub go_on : String → Provider N W → PaymentIntent → Transaction D → Async W PaymentResult
  go_on invoice_id provider intent transaction =
      if is_truthy intent.redirect_url
      then pure (started PaymentResultType.redirect intent transaction.id)
      else if is_truthy intent.qr_code
      then pure (started PaymentResultType.qr intent transaction.id)
      else if is_truthy intent.client_secret
      then pure (started PaymentResultType.client_secret intent transaction.id)
      else confirm invoice_id provider intent transaction.id

  -- with the provider
  abbrev pub pay : ProcessPaymentDto → Invoice D → Provider N W → Async W PaymentResult
  pay dto invoice provider = do
    intent ← start_payment dto invoice provider
    transaction ← record_payment dto invoice intent
    go_on invoice.id provider intent transaction

  unfoldable pub process_payment : Factory N W → ProcessPaymentDto → Async W PaymentResult
  process_payment factory dto = do
    found ← client.find_invoice dto.invoice_id
    invoice ← payable dto.invoice_id found
    provider ← settled (get_provider client.to_upper_case factory (some (name_of dto.provider)))
    pay dto invoice provider
