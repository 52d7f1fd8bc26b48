-- ===== src/Billing/Rows.antt =====
-- What a query of invoices finds and what an update leaves in a row, by Prisma's documentation.
use plus_api.Common.{ℕ, ◌+◌, Bool, ◌&&◌, Option, none, some, ltb, ◌==◌}
use plus_api.Billing.Types.{
  InvoiceStatus, InvoiceData, InvoiceWhere, Invoice, TransactionData, Transaction,
}

abbrev pub or_old : {A : Type 0} → Option A → A → A
or_old none old = old
or_old (some a) old = a

abbrev pub or_old? : {A : Type 0} → Option A → Option A → Option A
or_old? none old = old
or_old? (some a) old = some a

abbrev pub bumped : Option ℕ → ℕ → ℕ
bumped none n = n
bumped (some k) n = n + k

abbrev pub status_number : InvoiceStatus → ℕ
status_number InvoiceStatus.draft = 0
status_number InvoiceStatus.pending = 1
status_number InvoiceStatus.paid = 2
status_number InvoiceStatus.overdue = 3
status_number InvoiceStatus.cancelled = 4
status_number InvoiceStatus.refunded = 5

abbrev pub matches : {D : Type 0} → InvoiceWhere → Invoice D → Bool
matches q i = (status_number i.status == status_number q.status) && ltb i.due_date q.due_before

abbrev pub with_invoice : {D : Type 0} → InvoiceData → Invoice D → Invoice D
with_invoice d i = record i {
  status = d.status;
  paid_date = or_old? d.paid_date i.paid_date;
  dunning_level = bumped d.dunning_increment i.dunning_level;
  last_dunning_at = or_old? d.last_dunning_at i.last_dunning_at;
}

abbrev pub with_transaction : {D : Type 0} → TransactionData → Transaction D → Transaction D
with_transaction d t = record t {
  type = or_old d.type t.type;
  status = or_old d.status t.status;
  processed_at = or_old? d.processed_at t.processed_at;
}
