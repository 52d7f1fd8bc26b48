-- ===== src/Checkout/Sample.antt =====
-- A shop with one invoice and one transaction, for the tests of billing and checkout.
use plus_api.Common.{
  ℕ, ◌+◌, ◌*◌, ◌/◌, String, true, not, none, some, List, [], ◌∷◌, ◌++◌, leb, ◌==◌, str_eq,
  if◌then◌else◌,
}
use plus_api.Common.Result.{ok}
use plus_api.Billing.Types.{
  Numbers, InvoiceStatus, PaymentProvider, PaymentIntentStatus, RefundStatus, TransactionType,
  TransactionStatus, NewInvoice, Invoice, InvoiceData, Transaction, RefundDto, Plan, Provider,
  ShopClient,
}
use plus_api.Billing.Providers.{Factory}
use plus_api.Billing.Rows.{matches, with_invoice, with_transaction}

pub record Shop : Type 0 where
  pub invoice : Invoice ℕ
  pub transaction : Transaction ℕ
  pub sent : List (RefundDto ℕ)
  pub created : List (NewInvoice ℕ ℕ)

abbrev pub cents : Numbers ℕ ℕ
cents = record {
  zero = 0;
  one = 1;
  plus = λ a b. a + b;
  times = λ a b. a * b;
  hundredth = λ a. a / 100;
  is_set = λ a. not (a == 0);
  at_least = λ a b. leb b a;
  decimal = λ a. a;
  to_number = λ a. a;
}

abbrev pub write_invoice : String → InvoiceData → Shop → Shop
write_invoice id d w = record w {
  invoice = if str_eq w.invoice.id id then with_invoice d w.invoice else w.invoice;
}

abbrev pub pro_plan : Plan ℕ
pro_plan = record {
  id = "p1";
  name = "Pro";
  price = 900;
  currency = "USD";
  billing_cycle = "MONTHLY";
}

abbrev pub shop_client : ShopClient ℕ ℕ Shop
shop_client = record {
  now = λ w. 5;
  year_month = λ w. "202611";
  timestamp = λ w. "t";
  random = λ n w. "r";
  to_upper_case = λ s. s;
  create_invoice = λ d w. (ok w.invoice, record w { created = w.created ++ d ∷ [] });
  find_invoice = λ id w. (ok (some w.invoice), w);
  find_invoices = λ q w. (ok (if matches q w.invoice then w.invoice ∷ [] else []), w);
  update_invoice = λ id d w. (ok tt, write_invoice id d w);
  create_transaction = λ d w. (ok w.transaction, w);
  find_transaction = λ id w. (ok (some w.transaction), w);
  update_transaction =
      λ id d w. (ok tt, record w { transaction = with_transaction d w.transaction });
  update_both = λ id d id' d' w. (ok tt, record w { invoice = with_invoice d w.invoice });
  user_invoices = λ id w. (ok (w.invoice ∷ []), w);
  user_transactions = λ id w. (ok (w.transaction ∷ []), w);
  user_subscriptions = λ id w. (ok [], w);
  find_plan = λ id w. (ok (some pro_plan), w);
  create_refund = λ d w. (ok "f1", w);
}

abbrev pub direct : Provider ℕ Shop
direct = record {
  is_configured = true;
  webhook_path = "/webhooks/stripe";
  create_payment_intent = λ d w. (
    ok (record { provider_id = "i1"; client_secret = none; redirect_url = none; qr_code = none }),
    w,
  );
  confirm_payment = λ id w. (ok PaymentIntentStatus.succeeded, w);
  refund_payment = λ d w. (
    ok (record {
      provider_id = "r1";
      amount = 900;
      currency = "USD";
      status = RefundStatus.succeeded;
    }),
    record w { sent = w.sent ++ d ∷ [] },
  );
}

abbrev pub sample_factory : Factory ℕ Shop
sample_factory = record { providers = ("STRIPE", direct) ∷ []; default_provider = "STRIPE" }

abbrev pub sample_shop : Shop
sample_shop = record {
  invoice = record {
    id = "v1";
    invoice_number = "INV-1";
    user_id = "u1";
    total = 900;
    currency = "USD";
    status = InvoiceStatus.pending;
    due_date = 3;
    paid_date = none;
    dunning_level = 0;
    last_dunning_at = none;
  };
  transaction = record {
    id = "t1";
    type = TransactionType.payment;
    status = TransactionStatus.succeeded;
    amount = 900;
    currency = "USD";
    provider = PaymentProvider.stripe;
    provider_id = some "i1";
    processed_at = none;
  };
  sent = [];
  created = [];
}
