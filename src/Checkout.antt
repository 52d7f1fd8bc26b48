-- ===== src/Checkout.antt =====
-- Payments and refunds: processPayment and refundPayment of
-- plugins/payment/src/checkout/checkout.service.ts, over billing.
pub mod Sessions
pub mod Refunds
pub mod Bills
pub mod Sample
mod Tests
use Prim.Native.String.{◌++◌ as concat}
use plus_api.Common.{
  ℕ, ◌+◌, ◌*◌, String, Bool, true, false, Option, none, some, List, [], ◌∷◌, str_eq, if◌then◌else◌,
}
use plus_api.Common.Text.{is_truthy, or_text}
use plus_api.Common.Result.{Async, pure, throw, new_error, ◌>>=◌, ◌>>◌}
use plus_api.Billing.Types.{
  CheckoutType, CreateInvoiceDto, Invoice, LineItemType, Numbers, PaymentIntent, PaymentProvider,
  PaymentResult, Plan, Provider, Refund, RefundDto, RefundStatus, ShopClient, Transaction,
  TransactionData, TransactionStatus, TransactionType,
}
use plus_api.Billing.Providers.{Factory, get_provider, get_available_providers}
use plus_api.Billing.{name_of, settled, process_payment}

pub record ProcessPaymentInput : Type 0 where
  pub invoice_id : String
  pub payment_method_id : String
  pub provider : Option String

pub record RefundResult (N : Type 0) : Type 0 where
  pub id : String
  pub amount : N
  pub currency : String
  pub status : RefundStatus
  pub reason : Option String

-- the object, and its default; the text is in upper case
unfoldable pub provider_of : String → PaymentProvider
provider_of name =
    if str_eq name "PAYPAL"
    then PaymentProvider.paypal
    else if str_eq name "SEPAY"
    then PaymentProvider.sepay
    else PaymentProvider.stripe

abbrev pub has_succeeded : TransactionStatus → Bool
has_succeeded TransactionStatus.succeeded = true
has_succeeded other = false

-- the status of the refund's row
abbrev pub row_status : RefundStatus → RefundStatus
row_status RefundStatus.succeeded = RefundStatus.succeeded
row_status other = RefundStatus.pending

-- the `data` of the update after a full refund
abbrev pub typed_refund : TransactionData
typed_refund = record { type = some TransactionType.refund; status = none; processed_at = none }

module _ {N D W : Type 0} (num : Numbers N D) (client : ShopClient N D W) where
  abbrev generate_refund_number : W → String
  generate_refund_number w =
      concat "REF-"
        (concat (client.year_month w) (concat "-" (client.to_upper_case (client.random 6 w))))

  pub map_provider_string : String → PaymentProvider
  map_provider_string provider = provider_of (client.to_upper_case provider)

  abbrev found_invoice : String → Option (Invoice D) → Async W (Invoice D)
  found_invoice id (some invoice) = pure invoice
  found_invoice id none = throw (new_error (concat "Invoice " (concat id " not found")))

  unfoldable pub pay_invoice : Factory N W → ProcessPaymentInput → Async W PaymentResult
  pay_invoice factory input = do
    found ← client.find_invoice input.invoice_id
    invoice ← found_invoice input.invoice_id found
    process_payment num client factory (record {
      invoice_id = input.invoice_id;
      payment_method_id = input.payment_method_id;
      provider = map_provider_string (or_text input.provider "STRIPE");
    })

  -- `if (!transaction)`, and then the test of its status
  abbrev refundable : String → Option (Transaction D) → Async W (Transaction D)
  refundable id none = throw (new_error (concat "Transaction " (concat id " not found")))
  refundable id (some transaction) =
      if has_succeeded transaction.status
      then pure transaction
      else throw (new_error "Can only refund successful transactions")

  abbrev pub refund_dto : Transaction D → Option N → Option String → RefundDto N
  refund_dto transaction amount reason = record {
    transaction_id = transaction.provider_id;
    amount = amount;
    reason = reason;
  }

  abbrev pub record_refund : Transaction D → Option String → Refund N → Async W String
  record_refund transaction reason refund w =
      client.create_refund
        (record {
          refund_number = generate_refund_number w;
          transaction_id = transaction.id;
          amount = num.decimal refund.amount;
          currency = refund.currency;
          reason = or_text reason "REQUESTED_BY_CUSTOMER";
          status = row_status refund.status;
          description = reason;
          provider_id = refund.provider_id;
          created_by = "system";
        })
        w

  -- `!amount || amount >= transaction.amount.toNumber()`
  abbrev pub is_full : Option N → Transaction D → Bool
  is_full none transaction = true
  is_full (some amount) transaction =
      if num.is_set amount then num.at_least amount (num.to_number transaction.amount) else true

  abbrev pub mark_refunded : String → Option N → Transaction D → Async W (Unit {0})
  mark_refunded id amount transaction =
      if is_full amount transaction then client.update_transaction id typed_refund else pure tt

  abbrev refund_result : String → Option String → Refund N → RefundResult N
  refund_result id reason refund = record {
    id = id;
    amount = refund.amount;
    currency = refund.currency;
    status = refund.status;
    reason = reason;
  }

  -- after the provider's refund
  abbrev pub keep_refund :
      String → Option N → Option String → Transaction D → Refund N → Async W (RefundResult N)
  keep_refund id amount reason transaction refund = do
    refund_id ← record_refund transaction reason refund
    mark_refunded id amount transaction
    pure (refund_result refund_id reason refund)

  -- with the provider of the transaction
  abbrev pub refund_with :
      String → Option N → Option String → Transaction D → Provider N W → Async W (RefundResult N)
  refund_with id amount reason transaction provider =
      provider.refund_payment (refund_dto transaction amount reason)
      >>= keep_refund id amount reason transaction

  unfoldable pub refund_payment :
      Factory N W → String → Option N → Option String → Async W (RefundResult N)
  refund_payment factory id amount reason = do
    found ← client.find_transaction id
    transaction ← refundable id found
    provider ←
        settled (get_provider client.to_upper_case factory (some (name_of transaction.provider)))
    refund_with id amount reason transaction provider
