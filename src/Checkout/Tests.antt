-- ===== src/Checkout/Tests.antt =====
-- A shop with one invoice and one transaction: a payment that the provider confirms at once, two
-- full refunds, a checkout without providers, and an overdue invoice.
use plus_api.Common.{
  ℕ, ◌≡◌, refl, sym, ap, ◌∙◌, String, Bool, true, false, Bool-cases, Option, none, some, List, [],
  ◌∷◌, ◌++◌, map, inl, inr, str_eq, if◌then◌else◌, eq_iff,
}
use plus_api.Common.Result.{Result, ok, err}
use plus_api.Common.Lists.{member}
use plus_api.Common.Dict.{lookup}
use plus_api.Billing.Types.{
  InvoiceData, CheckoutType, PaymentProvider, Invoice, Transaction, Provider,
}
use plus_api.Billing.Providers.{Factory, get_provider}
use plus_api.Billing.{ProcessPaymentDto, name_of, process_payment}
use plus_api.Billing.Invoices.{process_overdue_invoices}
use plus_api.Billing.Rows.{matches, with_invoice, with_transaction}
use plus_api.Billing.Paid.{HoldsInvoice, Settles, process_payment-Settles}
use plus_api.Billing.Overdue.{
  HoldsInvoices, ids, IsDistinct, marked, is_due, process_overdue_invoices_lem,
}
use plus_api.Checkout.Sessions.{CheckoutInput}
use plus_api.Checkout.Refunds.{
  HoldsTransaction, IsRefundable, refund_all, refund_all-IsRefundable, asked,
}
use plus_api.Checkout.Sample.{
  Shop, write_invoice, cents, shop_client, direct, sample_factory, sample_shop,
}

abbrev given_or : {A : Type 0} → A → Result A → A
given_or a (ok b) = b
given_or a (err e) = a

abbrev payment : ProcessPaymentDto
payment = record { invoice_id = "v1"; payment_method_id = "m1"; provider = PaymentProvider.stripe }

abbrev some_or : Invoice ℕ → Option (Invoice ℕ) → Invoice ℕ
some_or i none = i
some_or i (some j) = j

chosen_direct :
    (p : Provider ℕ Shop)
    → get_provider shop_client.to_upper_case sample_factory (some (name_of PaymentProvider.stripe))
      ≡ ok p
    → p ≡ direct
unfolding get_provider name_of lookup
chosen_direct p is = sym (ap (λ r. given_or direct r) is)

holds_invoice : HoldsInvoice cents shop_client sample_factory payment (λ w. some w.invoice)
holds_invoice = record {
  finds = λ w. refl;
  records = λ t w. refl;
  intents = λ p d w is. rw (chosen_direct p is) refl;
  confirms = λ p id w is. rw (chosen_direct p is) refl;
  pays = λ d id d' i w there. inl (refl, ap (λ o. some (with_invoice d (some_or i o))) there);
}

process_payment-Settles_example :
    Settles cents shop_client sample_factory payment
      (λ w. some w.invoice)
      holds_invoice
      (some sample_shop.invoice)
      (process_payment cents shop_client sample_factory payment sample_shop)
process_payment-Settles_example =
    process_payment-Settles cents shop_client sample_factory payment (λ w. some w.invoice)
      holds_invoice sample_shop

holds_transaction :
    HoldsTransaction cents shop_client sample_factory "t1" direct
      (λ w. some w.transaction)
      (λ w. w.sent)
holds_transaction = record {
  finds = λ w. refl;
  asks = λ d w. (refl, refl);
  records = λ d w. (refl, refl);
  retypes = λ d t w there. (inl (ap (λ o. some (with_transaction d (some_or t o))) there), refl);
}
  where
    some_or : Transaction ℕ → Option (Transaction ℕ) → Transaction ℕ
    some_or t none = t
    some_or t (some u) = u

abbrev full : List (Option ℕ × Option String)
full = (none, none) ∷ (some 900, none) ∷ []

refund_all-IsRefundable_example :
    let w' = refund_all cents shop_client sample_factory "t1" direct full sample_shop in
    IsRefundable cents shop_client sample_factory "t1" direct
      (λ w. some w.transaction)
      (λ w. w.sent)
      holds_transaction
      (some "i1")
      w'
    × (w'.sent
        ≡ sample_shop.sent
          ++ map
              (asked cents shop_client sample_factory "t1" direct
                (λ w. some w.transaction)
                (λ w. w.sent)
                holds_transaction
                (some "i1"))
              full)
unfolding get_provider name_of lookup
refund_all-IsRefundable_example =
    refund_all-IsRefundable cents shop_client sample_factory "t1" direct (λ w. some w.transaction)
      (λ w. w.sent) holds_transaction (some "i1") full sample_shop
      (sample_shop.transaction, refl, refl, refl, refl)

abbrev no_providers : Factory ℕ Shop
no_providers = record { providers = []; default_provider = "STRIPE" }

abbrev pro : CheckoutInput
pro = record {
  user_id = "u1";
  type = CheckoutType.subscription;
  plan_id = some "p1";
  product_id = none;
  payment_method_id = none;
  provider = none;
}

abbrev row : String → Shop → Option (Invoice ℕ)
row id w = if str_eq w.invoice.id id then some w.invoice else none

found_row :
    (id : String) (w : Shop) (i : Invoice ℕ)
    → row id w ≡ some i
    → (str_eq w.invoice.id id ≡ true) × (w.invoice ≡ i)
found_row id w i there = elim (Bool-cases (str_eq w.invoice.id id)) [
  | inl same ↦ let is = rw same at there in (same, ap (λ o. some_or w.invoice o) is)
  | inr other ↦ let never = rw other at there in cc
]

one-IsDistinct : (due : Bool) (i : Invoice ℕ) → IsDistinct (if due then i ∷ [] else [])
unfolding member
one-IsDistinct true i = (refl, tt)
one-IsDistinct false i = tt

member_one :
    (due : Bool) (i : Invoice ℕ) (id : String)
    → str_eq i.id id ≡ true
    → member id (ids (if due then i ∷ [] else [])) ≡ due
unfolding member
member_one true i id same = rw same refl
member_one false i id same = refl

writes_row :
    (id : String) (d : InvoiceData) (w : Shop) (i : Invoice ℕ)
    → row id w ≡ some i
    → row id (write_invoice id d w) ≡ some (with_invoice d i)
writes_row id d w i there =
    let (same, is) = found_row id w i there in simp same (ap (λ j. some (with_invoice d j)) is)

spares_row :
    (id other : String) (d : InvoiceData) (w : Shop)
    → str_eq id other ≡ false
    → row other (write_invoice id d w) ≡ row other w
spares_row id other d w differs = elim (Bool-cases (str_eq w.invoice.id id)) [
  | inr elsewhere ↦ simp elsewhere refl
  | inl same ↦
      let unlike : str_eq w.invoice.id other ≡ false =
        ap (λ x. str_eq x other) ((eq_iff w.invoice.id id).0 same) ∙ differs in
      simp (same, unlike) refl
]

abbrev holds_invoices : HoldsInvoices cents shop_client row
holds_invoices = record {
  found = λ q w. if matches q w.invoice then w.invoice ∷ [] else [];
  finds = λ q w. refl;
  distinct = λ q w. one-IsDistinct (matches q w.invoice) w.invoice;
  exact = λ q w id i there.
      let (same, is) = found_row id w i there in
      member_one (matches q w.invoice) w.invoice id same ∙ ap (λ j. matches q j) is;
  succeeds = λ id d w. refl;
  writes = writes_row;
  spares = spares_row;
}

process_overdue_invoices_lem_example :
    let (r, w') = process_overdue_invoices cents shop_client sample_shop in
    (r ≡ ok 1)
    × (is_due 5 sample_shop.invoice ≡ true
        → (date : ℕ) × (row "v1" w' ≡ some (marked date sample_shop.invoice)))
    × (is_due 5 sample_shop.invoice ≡ false → row "v1" w' ≡ some sample_shop.invoice)
process_overdue_invoices_lem_example =
    process_overdue_invoices_lem cents shop_client row holds_invoices sample_shop "v1"
      sample_shop.invoice refl
