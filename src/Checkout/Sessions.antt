-- ===== src/Checkout/Sessions.antt =====
-- Checkout sessions: createCheckoutSession of plugins/payment/src/checkout/checkout.service.ts. A
-- one-time checkout throws, as it is not implemented.
use Prim.Native.String.{◌++◌ as concat}
use plus_api.Common.{ℕ, ◌+◌, String, Option, none, some, [], ◌∷◌, if◌then◌else◌}
use plus_api.Common.Text.{is_truthy, or_text}
use plus_api.Common.Result.{Async, pure, throw, new_error, ◌>>=◌}
use plus_api.Billing.Types.{
  Numbers, CheckoutType, LineItemType, CreateInvoiceDto, Invoice, Plan, PaymentIntent, Provider,
  ShopClient,
}
use plus_api.Billing.Providers.{Factory, get_provider}
use plus_api.Billing.{settled}
use plus_api.Billing.Invoices.{create_invoice}

pub record CheckoutInput : Type 0 where
  pub user_id : String
  pub type : CheckoutType
  pub plan_id : Option String
  pub product_id : Option String
  pub payment_method_id : Option String
  pub provider : Option String

pub record CheckoutSession : Type 0 where
  pub id : String
  pub type : String
  pub redirect_url : Option String
  pub client_secret : Option String
  pub qr_code : Option String
  pub invoice_id : Option String
  pub expires_at : ℕ

module _ {N D W : Type 0} (num : Numbers N D) (client : ShopClient N D W) where
  abbrev generate_session_id : W → String
  generate_session_id w = concat "cs_" (concat (client.timestamp w) (client.random 6 w))

  -- `if (!plan)`
  abbrev found_plan : Option String → Option (Plan D) → Async W (Plan D)
  found_plan id (some plan) = pure plan
  found_plan id none =
      throw (new_error (concat "Plan " (concat (or_text id "undefined") " not found")))

  abbrev pub plan_invoice : CheckoutInput → Plan D → ℕ → CreateInvoiceDto N
  plan_invoice input plan now = record {
    user_id = input.user_id;
    subscription_id = none;
    description = concat "Subscription: " plan.name;
    line_items =
        record {
          description = concat plan.name (concat " - " plan.billing_cycle);
          quantity = num.one;
          unit_price = num.to_number plan.price;
          item_type = LineItemType.subscription;
          item_id = some plan.id;
          period_start = none;
          period_end = none;
        }
        ∷ [];
    tax_rate = none;
    currency = some plan.currency;
    due_date = some now;
  }

  -- the invoice, due at once
  abbrev pub bill_plan : CheckoutInput → Plan D → Async W (Invoice D)
  bill_plan input plan w = create_invoice num client (plan_invoice input plan (client.now w)) w

  abbrev pub plan_intent : CheckoutInput → Plan D → Invoice D → Provider N W → Async W PaymentIntent
  plan_intent input plan invoice provider = provider.create_payment_intent (record {
    amount = num.to_number plan.price;
    currency = plan.currency;
    payment_method_id = input.payment_method_id;
    description = concat "Subscription: " plan.name;
    metadata =
        ("type", "subscription")
        ∷ ("planId", plan.id)
        ∷ ("invoiceId", invoice.id)
        ∷ ("userId", input.user_id)
        ∷ [];
  })

  abbrev session_of : String → ℕ → Invoice D → PaymentIntent → CheckoutSession
  session_of session_id expires_at invoice intent = record {
    id = session_id;
    type = "subscription";
    redirect_url = intent.redirect_url;
    client_secret = intent.client_secret;
    qr_code = intent.qr_code;
    invoice_id = some invoice.id;
    expires_at = expires_at;
  }

  -- after the invoice is created
  abbrev pub charge_plan :
      Factory N W → String → CheckoutInput → ℕ → Plan D → Invoice D → Async W CheckoutSession
  charge_plan factory session_id input expires_at plan invoice = do
    provider ← settled (get_provider client.to_upper_case factory input.provider)
    intent ← plan_intent input plan invoice provider
    pure (session_of session_id expires_at invoice intent)

  unfoldable pub create_subscription_checkout :
      Factory N W → String → CheckoutInput → ℕ → Async W CheckoutSession
  create_subscription_checkout factory session_id input expires_at = do
    found ← client.find_plan (or_text input.plan_id "")
    plan ← found_plan input.plan_id found
    invoice ← bill_plan input plan
    charge_plan factory session_id input expires_at plan invoice

  -- the tests of the input
  abbrev choose_checkout :
      Factory N W → String → CheckoutInput → ℕ → CheckoutType → Async W CheckoutSession
  choose_checkout factory session_id input expires_at CheckoutType.subscription =
      if is_truthy input.plan_id
      then create_subscription_checkout factory session_id input expires_at
      else throw (new_error "Invalid checkout configuration")
  choose_checkout factory session_id input expires_at CheckoutType.one_time =
      if is_truthy input.product_id
      then throw (new_error "One-time checkout not yet implemented")
      else throw (new_error "Invalid checkout configuration")

  unfoldable pub create_checkout_session : Factory N W → CheckoutInput → Async W CheckoutSession
  create_checkout_session factory input w =
      choose_checkout factory (generate_session_id w) input (client.now w + 1800000) input.type w
