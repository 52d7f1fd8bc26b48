-- ===== src/Billing/Invoices.antt =====
-- Invoices: createInvoice, processOverdueInvoices and getUserBillingSummary of
-- plugins/payment/src/billing/billing.service.ts.
use Prim.Native.String.{◌++◌ as concat}
use plus_api.Common.{
  ℕ, ◌+◌, ◌*◌, String, Bool, true, false, Option, none, some, List, [], ◌∷◌, map, str_eq,
  if◌then◌else◌,
}
use plus_api.Common.Text.{or_text}
use plus_api.Common.Lists.{length, keep}
use plus_api.Common.Result.{Async, pure, ◌>>=◌, ◌>>◌}
use plus_api.Billing.Types.{
  Numbers, InvoiceStatus, LineItemDto, CreateInvoiceDto, LineItem, NewInvoice, Invoice, InvoiceData,
  InvoiceWhere, Transaction, Subscription, ShopClient,
}

pub record BillingSummary (N D : Type 0) : Type 0 where
  pub invoices : List (Invoice D)
  pub transactions : List (Transaction D)
  pub subscriptions : List Subscription
  pub pending_amount : N
  pub overdue_amount : N
  pub active_subscriptions : ℕ

abbrev pub is_pending : InvoiceStatus → Bool
is_pending InvoiceStatus.pending = true
is_pending other = false

abbrev pub is_overdue : InvoiceStatus → Bool
is_overdue InvoiceStatus.overdue = true
is_overdue other = false

abbrev pub days : ℕ → ℕ
days n = n * 86400000

-- the `data` of the update, and the `where` of the query
abbrev pub overdue_at : ℕ → InvoiceData
overdue_at now = record {
  status = InvoiceStatus.overdue;
  paid_date = none;
  dunning_increment = some 1;
  last_dunning_at = some now;
}

abbrev pub overdue_before : ℕ → InvoiceWhere
overdue_before now = record { status = InvoiceStatus.pending; due_before = now }

module _ {N D W : Type 0} (num : Numbers N D) (client : ShopClient N D W) where
  abbrev generate_invoice_number : W → String
  generate_invoice_number w =
      concat "INV-"
        (concat (client.year_month w) (concat "-" (client.to_upper_case (client.random 6 w))))

  unfoldable pub subtotal_of : N → List (LineItemDto N) → N
  subtotal_of subtotal [] = subtotal
  subtotal_of subtotal (item ∷ items) =
      subtotal_of (num.plus subtotal (num.times item.quantity item.unit_price)) items

  abbrev pub tax_of : Option N → N → N
  tax_of none subtotal = num.zero
  tax_of (some rate) subtotal =
      if num.is_set rate then num.times subtotal (num.hundredth rate) else num.zero

  -- `data.dueDate || …`
  abbrev pub due_or : Option ℕ → ℕ → ℕ
  due_or none now = now + days 30
  due_or (some date) now = date

  abbrev pub line_item : LineItemDto N → LineItem N D
  line_item item = record {
    description = item.description;
    quantity = item.quantity;
    unit_price = num.decimal item.unit_price;
    amount = num.decimal (num.times item.quantity item.unit_price);
    item_type = item.item_type;
    item_id = item.item_id;
    period_start = item.period_start;
    period_end = item.period_end;
  }

  -- the `data` of the new invoice
  abbrev pub new_invoice : CreateInvoiceDto N → W → NewInvoice N D
  new_invoice dto w =
      let subtotal = subtotal_of num.zero dto.line_items in
      let tax_amount = tax_of dto.tax_rate subtotal in
      record {
        invoice_number = generate_invoice_number w;
        user_id = dto.user_id;
        subscription_id = dto.subscription_id;
        description = dto.description;
        subtotal = num.decimal subtotal;
        tax_amount = num.decimal tax_amount;
        total = num.decimal (num.plus subtotal tax_amount);
        currency = or_text dto.currency "USD";
        status = InvoiceStatus.pending;
        due_date = due_or dto.due_date (client.now w);
        line_items = map line_item dto.line_items;
      }

  unfoldable pub create_invoice : CreateInvoiceDto N → Async W (Invoice D)
  create_invoice dto w = client.create_invoice (new_invoice dto w) w

  unfoldable pub mark_overdue : List (Invoice D) → Async W (Unit {0})
  mark_overdue [] = pure tt
  mark_overdue (invoice ∷ invoices) = mark_one >> mark_overdue invoices
    where
      mark_one : Async W (Unit {0})
      mark_one w = client.update_invoice invoice.id (overdue_at (client.now w)) w

  -- the rows, as many of them
  abbrev mark_all : List (Invoice D) → Async W ℕ
  mark_all invoices = mark_overdue invoices >> pure (length invoices)

  unfoldable pub process_overdue_invoices : Async W ℕ
  process_overdue_invoices w = (client.find_invoices (overdue_before (client.now w)) >>= mark_all) w

  unfoldable pub sum_totals : N → List (Invoice D) → N
  sum_totals sum [] = sum
  sum_totals sum (i ∷ is) = sum_totals (num.plus sum (num.to_number i.total)) is

  abbrev pub summary_of :
      List (Invoice D) → List (Transaction D) → List Subscription → BillingSummary N D
  summary_of invoices transactions subscriptions = record {
    invoices = invoices;
    transactions = transactions;
    subscriptions = subscriptions;
    pending_amount = sum_totals num.zero (keep (λ i. is_pending i.status) invoices);
    overdue_amount = sum_totals num.zero (keep (λ i. is_overdue i.status) invoices);
    active_subscriptions = length (keep (λ s. str_eq s.status "ACTIVE") subscriptions);
  }

  unfoldable pub get_user_billing_summary : String → Async W (BillingSummary N D)
  get_user_billing_summary user_id = do
    invoices ← client.user_invoices user_id
    transactions ← client.user_transactions user_id
    subscriptions ← client.user_subscriptions user_id
    pure (summary_of invoices transactions subscriptions)
