-- ===== src/Checkout/Bills.antt =====
-- The invoice that a subscription checkout creates before it asks for the provider.
use plus_api.Common.{◌≡◌, String, Option, List, [], ◌∷◌, ◌++◌}
use plus_api.Common.Result.{ok}
use plus_api.Billing.Types.{
  Numbers, CreatePaymentIntentDto, NewInvoice, Invoice, Provider, ShopClient,
}
use plus_api.Billing.Providers.{Factory, get_provider}
use plus_api.Billing.Invoices.{create_invoice}

module _ {N D W : Type 0} (num : Numbers N D) (client : ShopClient N D W)
    (factory : Factory N W) where
  -- `created` are the invoices that have been created; providers create none.
  pub record KeepsInvoices (created : W → List (NewInvoice N D)) : Type 0 where
    pub creates :
        (d : NewInvoice N D) (w : W)
        → (i : Invoice D) × ((client.create_invoice d w).0 ≡ ok i)
          × (created (client.create_invoice d w).1 ≡ created w ++ d ∷ [])
    pub intents :
        (name : Option String) (p : Provider N W) (d : CreatePaymentIntentDto N) (w : W)
        → get_provider client.to_upper_case factory name ≡ ok p
        → created (p.create_payment_intent d w).1 ≡ created w
