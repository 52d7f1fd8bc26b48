-- ===== src/Billing/Types.antt =====
-- Billing and checkout: the models of plugins/payment/prisma/schema.prisma, the interface of
-- plugins/payment/src/providers/payment-provider.interface.ts, and the inputs and results of
-- plugins/payment/src/billing/billing.service.ts and plugins/payment/src/checkout/checkout.types.ts.
-- Of each the fields that the services read or write. `N` are JavaScript's numbers and `D` Prisma's
-- decimals, with the operations that are used of them in `Numbers`.
use plus_api.Common.{ℕ, String, Bool, Option, List}
use plus_api.Common.Result.{Async}

pub record Numbers (N D : Type 0) : Type 0 where
  pub zero : N
  pub one : N
  pub plus : N → N → N
  pub times : N → N → N
  pub hundredth : N → N  -- `x / 100`
  pub is_set : N → Bool  -- in a condition
  pub at_least : N → N → Bool
  pub decimal : N → D  -- `new Decimal(x)`
  pub to_number : D → N

pub data InvoiceStatus : Type 0 where
  draft pending paid overdue cancelled refunded : InvoiceStatus

pub data LineItemType : Type 0 where
  subscription one_time discount tax fee : LineItemType

pub data TransactionType : Type 0 where
  payment refund chargeback adjustment fee : TransactionType

pub data TransactionStatus : Type 0 where
  pending processing succeeded failed canceled requires_action : TransactionStatus

pub data PaymentProvider : Type 0 where
  stripe paypal square braintree razorpay payu momo zalo_pay vietqr sepay : PaymentProvider

pub data PaymentIntentStatus : Type 0 where
  requires_payment_method requires_confirmation requires_action processing : PaymentIntentStatus
  succeeded canceled failed : PaymentIntentStatus

pub data RefundStatus : Type 0 where
  pending succeeded failed canceled : RefundStatus

pub data PaymentResultType : Type 0 where
  redirect qr client_secret completed : PaymentResultType

pub data CheckoutType : Type 0 where
  subscription one_time : CheckoutType

pub record LineItemDto (N : Type 0) : Type 0 where
  pub description : String
  pub quantity : N
  pub unit_price : N
  pub item_type : LineItemType
  pub item_id : Option String
  pub period_start : Option ℕ
  pub period_end : Option ℕ

pub record CreateInvoiceDto (N : Type 0) : Type 0 where
  pub user_id : String
  pub subscription_id : Option String
  pub description : String
  pub line_items : List (LineItemDto N)
  pub tax_rate : Option N
  pub currency : Option String
  pub due_date : Option ℕ

pub record LineItem (N D : Type 0) : Type 0 where
  pub description : String
  pub quantity : N
  pub unit_price : D
  pub amount : D
  pub item_type : LineItemType
  pub item_id : Option String
  pub period_start : Option ℕ
  pub period_end : Option ℕ

-- `data` of `invoice.create`
pub record NewInvoice (N D : Type 0) : Type 0 where
  pub invoice_number : String
  pub user_id : String
  pub subscription_id : Option String
  pub description : String
  pub subtotal : D
  pub tax_amount : D
  pub total : D
  pub currency : String
  pub status : InvoiceStatus
  pub due_date : ℕ
  pub line_items : List (LineItem N D)

pub record Invoice (D : Type 0) : Type 0 where
  pub id : String
  pub invoice_number : String
  pub user_id : String
  pub total : D
  pub currency : String
  pub status : InvoiceStatus
  pub due_date : ℕ
  pub paid_date : Option ℕ
  pub dunning_level : ℕ
  pub last_dunning_at : Option ℕ

-- `data` of `invoice.update`: what is undefined stays, and a number is added to the dunning level
pub record InvoiceData : Type 0 where
  pub status : InvoiceStatus
  pub paid_date : Option ℕ
  pub dunning_increment : Option ℕ
  pub last_dunning_at : Option ℕ

-- `where` of `invoice.findMany`: the status, and a date that the due date is before
pub record InvoiceWhere : Type 0 where
  pub status : InvoiceStatus
  pub due_before : ℕ

-- `data` of `transaction.create`
pub record NewTransaction (D : Type 0) : Type 0 where
  pub reference : String
  pub user_id : String
  pub invoice_id : String
  pub payment_method_id : String
  pub type : TransactionType
  pub status : TransactionStatus
  pub amount : D
  pub fee_amount : D
  pub net_amount : D
  pub currency : String
  pub provider : PaymentProvider
  pub provider_id : String
  pub description : String

pub record Transaction (D : Type 0) : Type 0 where
  pub id : String
  pub type : TransactionType
  pub status : TransactionStatus
  pub amount : D
  pub currency : String
  pub provider : PaymentProvider
  pub provider_id : Option String
  pub processed_at : Option ℕ

-- `data` of `transaction.update`: what is undefined stays
pub record TransactionData : Type 0 where
  pub type : Option TransactionType
  pub status : Option TransactionStatus
  pub processed_at : Option ℕ

pub record Subscription : Type 0 where
  pub id : String
  pub status : String

pub record Plan (D : Type 0) : Type 0 where
  pub id : String
  pub name : String
  pub price : D
  pub currency : String
  pub billing_cycle : String

-- `data` of `refund.create`
pub record NewRefund (D : Type 0) : Type 0 where
  pub refund_number : String
  pub transaction_id : String
  pub amount : D
  pub currency : String
  pub reason : String
  pub status : RefundStatus
  pub description : Option String
  pub provider_id : String
  pub created_by : String

pub record CreatePaymentIntentDto (N : Type 0) : Type 0 where
  pub amount : N
  pub currency : String
  pub payment_method_id : Option String
  pub description : String
  pub metadata : List (String × String)

pub record PaymentIntent : Type 0 where
  pub provider_id : String
  pub client_secret : Option String
  pub redirect_url : Option String
  pub qr_code : Option String

pub record RefundDto (N : Type 0) : Type 0 where
  pub transaction_id : Option String
  pub amount : Option N
  pub reason : Option String

-- what a provider gives for a refund
pub record Refund (N : Type 0) : Type 0 where
  pub provider_id : String
  pub amount : N
  pub currency : String
  pub status : RefundStatus

-- a `PaymentProviderInterface`
pub record Provider (N W : Type 0) : Type 0 where
  pub is_configured : Bool
  pub webhook_path : String
  pub create_payment_intent : CreatePaymentIntentDto N → Async W PaymentIntent
  pub confirm_payment : String → Async W PaymentIntentStatus
  pub refund_payment : RefundDto N → Async W (Refund N)

pub record PaymentResult : Type 0 where
  pub type : PaymentResultType
  pub redirect_url : Option String
  pub client_secret : Option String
  pub qr_code : Option String
  pub transaction_id : String
  pub status : Option PaymentIntentStatus

-- Prisma, the clock, random texts and `toUpperCase`
pub record ShopClient (N D W : Type 0) : Type 0 where
  pub now : W → ℕ
  pub year_month : W → String  -- `${year}${month}`
  pub timestamp : W → String  -- `Date.now().toString(36)`
  pub random : ℕ → W → String  -- so many characters of `Math.random().toString(36)`
  pub to_upper_case : String → String
  pub create_invoice : NewInvoice N D → Async W (Invoice D)
  pub find_invoice : String → Async W (Option (Invoice D))
  pub find_invoices : InvoiceWhere → Async W (List (Invoice D))
  pub update_invoice : String → InvoiceData → Async W (Unit {0})
  pub create_transaction : NewTransaction D → Async W (Transaction D)
  pub find_transaction : String → Async W (Option (Transaction D))
  pub update_transaction : String → TransactionData → Async W (Unit {0})
  -- `$transaction` of an update of an invoice and one of a transaction
  pub update_both : String → InvoiceData → String → TransactionData → Async W (Unit {0})
  pub user_invoices : String → Async W (List (Invoice D))  -- the last ten
  pub user_transactions : String → Async W (List (Transaction D))
  pub user_subscriptions : String → Async W (List Subscription)
  pub find_plan : String → Async W (Option (Plan D))
  pub create_refund : NewRefund D → Async W String  -- its id
